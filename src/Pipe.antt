-- ===== src/Pipe.antt =====
-- RobotRaconteurCore/src/PipeMember.cpp: the endpoints of a pipe.
pub mod Endpoint
pub mod Queue
pub mod Order
pub mod Steps
pub mod Delivery
mod Tests
