-- ===== src/Video/Sdp/Levels.antt =====
-- The level that `h264ProfileLevelIDForResolution` of pkg/sip/video_sdp.go puts in the answer.
use sip_video.Prelude.{ℕ, leb, if◌then◌else◌}
use sip_video.Text.{Bytes, bytes}

-- Table A-1 of H.264, for the levels that the program answers with: the frame size in macro-blocks.
pub data Level : Type 0 where
  level_3_1 level_4_0 level_5_0 : Level

abbrev pub max_frame_size : Level → ℕ
max_frame_size level_3_1 = 3600
max_frame_size level_4_0 = 8192
max_frame_size level_5_0 = 22080

abbrev pub profile_level_id : Level → Bytes
profile_level_id level_3_1 = bytes "42e01f"
profile_level_id level_4_0 = bytes "42e028"
profile_level_id level_5_0 = bytes "42e032"

level_for : ℕ → Level
level_for mbs = if leb mbs 3600 then level_3_1 else if leb mbs 8192 then level_4_0 else level_5_0
