-- ===== src/Message/V2.antt =====
-- The version 2 wire format: ComputeSize, UpdateData, Write and Read of Message.cpp.
pub mod Size
pub mod Write
pub mod Read
pub mod Wire
pub mod Invariant
pub mod Update
pub mod Fixed
pub mod Written
pub mod Readback
pub mod Frame
pub mod Entries
pub mod Headers
pub mod RoundTrip
pub mod Readers
pub mod Refused
pub mod Safe
pub mod Sample
mod Tests
