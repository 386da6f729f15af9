-- ===== src/Server.antt =====
-- The server side of signaling: pkg/sip/inbound.go.
pub mod Invites
pub mod Inbound
pub mod Pin
pub mod Call
pub mod Process
pub mod Offer
mod Tests
