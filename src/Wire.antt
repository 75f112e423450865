-- ===== src/Wire.antt =====
-- Wires: TimeSpec of DataTypes.cpp and WireConnectionBase of WireMember.cpp, in RobotRaconteurCore/src.
pub mod TimeSpec
pub mod Time
pub mod Connection
pub mod Latest
pub mod Delivery
mod Tests
