-- ===== src/Audio.antt =====
-- The audio path: pkg/sip/silence_filler.go, pkg/sip/signal_logger.go and pkg/media/opus/opus.go.
pub mod Silence
pub mod Signal
pub mod Opus
mod Tests
