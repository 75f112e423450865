-- ===== src/NodeId.antt =====
-- RobotRaconteurCore/src/NodeID.cpp: the identifiers of nodes.
pub mod Text
pub mod Digits
pub mod RoundTrip
mod Tests
