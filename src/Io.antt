-- ===== src/Io.antt =====
-- RobotRaconteurCore/src/IOUtils.cpp: binary reader and writer.
pub mod Reader
pub mod Sizes
pub mod Writer
pub mod Encoding
pub mod Writes
pub mod Pops
pub mod Sound
pub mod Safe
pub mod Limits
pub mod Reads
pub mod Numbers
pub mod Signed
pub mod RoundTrip
pub mod Bounds
mod Tests
