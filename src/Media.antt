-- ===== src/Media.antt =====
-- The RTP side of a call: pkg/sip/media_latency.go, pkg/sip/media.go and pkg/sip/media_port.go.
pub mod Latency
pub mod Stream
pub mod Udp
mod Tests
