-- ===== src/Calls.antt =====
-- What the bridge reports of a call: pkg/sip/analytics.go and pkg/stats/monitor.go.
pub mod State
pub mod Status
mod Tests
pub mod Monitor
