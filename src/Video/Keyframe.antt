-- ===== src/Video/Keyframe.antt =====
-- `isH264Keyframe` of pkg/sip/video.go: a walk over the NAL units of an Annex-B access unit.
pub mod Units
use sip_video.Prelude.{
  ℕ, zero, suc, ◌%◌, Option, none, some, Bool, true, false, ◌&&◌, ◌||◌, List, [], ◌∷◌, ◌==◌, leb,
  length, if◌then◌else◌,
}
use sip_video.Text.{Bytes}

-- Whether the bytes begin 00 00 01.
abbrev pub starts_code : Bytes → Bool
starts_code (a ∷ b ∷ c ∷ s) = a == 0 && b == 0 && c == 1
starts_code _ = false

-- What follows a start code of four bytes or, failing that, of three.
abbrev pub strip_code3 : Bytes → Option Bytes
strip_code3 (a ∷ b ∷ c ∷ s) = if a == 0 && b == 0 && c == 1 then some s else none
strip_code3 _ = none

abbrev pub strip_code : Bytes → Option Bytes
strip_code (a ∷ b ∷ c ∷ d ∷ s) =
    if a == 0 && b == 0 && c == 0 && d == 1 then some s else strip_code3 (a ∷ b ∷ c ∷ d ∷ s)
strip_code s = strip_code3 s

-- The inner loop: the bytes from the first 00 00 01 on.
unfoldable pub find_code : Bytes → Option Bytes
find_code [] = none
find_code (a ∷ s) = let rest = find_code s in if starts_code (a ∷ s) then some (a ∷ s) else rest

abbrev pub nalu_type : ℕ → ℕ
nalu_type header = header % 32

abbrev pub is_skipped : ℕ → Bool
is_skipped t = t == 6 || t == 7 || t == 8

-- The outer loop, on fuel: each round drops a start code, so the length of the data is enough.
unfoldable pub keyframe_loop : ℕ → Bytes → Bool
unfolding find_code
keyframe_loop zero s = false
keyframe_loop (suc fuel) s = elim (strip_code s) [
  | none ↦ false
  | some [] ↦ false
  | some (header ∷ body) ↦
      if nalu_type header == 5
      then true
      else if is_skipped (nalu_type header)
      then elim (find_code body) [ none ↦ false | some rest ↦ keyframe_loop fuel rest ]
      else false
]

unfoldable pub is_h264_keyframe : Bytes → Bool
unfolding keyframe_loop
is_h264_keyframe s = keyframe_loop (length s) s
