-- ===== src/Video.antt =====
-- The video path: pkg/sip/video_sdp.go and pkg/sip/video.go.
pub mod Sdp
pub mod Keyframe
pub mod Writer
mod Tests
