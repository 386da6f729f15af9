-- ===== src/Service.antt =====
-- The service around both sides of signaling: pkg/sip/service.go.
pub mod Transfers
mod Tests
