-- ===== src/Message.antt =====
-- RobotRaconteurCore/src/Message.cpp: message objects and the wire formats of versions 2 and 4.
pub mod Data
pub mod V2
pub mod V4
pub mod Objects
pub mod Copy
pub mod Lookup
mod Tests
