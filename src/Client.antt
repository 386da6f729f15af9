-- ===== src/Client.antt =====
-- The client side of signaling: the calls that the bridge makes, in pkg/sip/outbound.go.
pub mod Response
pub mod Invite
pub mod Dialog
pub mod Refer
pub mod Failure
pub mod Call
pub mod Participant
mod Tests
