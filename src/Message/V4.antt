-- ===== src/Message/V4.antt =====
-- The version 4 wire format: ComputeSize4, UpdateData4, Write4 and Read4 of Message.cpp.
pub mod Flags
pub mod Size
pub mod Write
pub mod Read
pub mod Wire
pub mod Parts
pub mod Invariant
pub mod Update
pub mod Sized
pub mod Fixed
pub mod Written
pub mod Readback
pub mod Frame
pub mod Entries
pub mod Carried
pub mod HeaderSize
pub mod Headers
pub mod RoundTrip
pub mod Readers
pub mod Safe
pub mod Sample
mod Tests
