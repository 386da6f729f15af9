-- ===== src/Protocol.antt =====
-- The helpers of pkg/sip/protocol.go that both sides of the bridge share.
pub mod Status
pub mod Notify
pub mod Refer
pub mod Reason
mod Tests
