-- ===== src/Video/Keyframe/Units.antt =====
-- What `isH264Keyframe` of pkg/sip/video.go says of an access unit given by its NAL units.
use sip_video.Prelude.{
  ◌%◌, leb, ◌&&◌, ℕ, zero, suc, ◌≤◌, ◌<◌, ◌≡◌, refl, none, some, Bool, true, false, List, [], ◌∷◌,
  ◌++◌, ◌==◌, length, length-append, append-nil, arith, All, if◌then◌else◌,
}
use sip_video.Text.{Bytes}
use sip_video.Video.Keyframe.{strip_code, find_code, keyframe_loop, is_h264_keyframe}

-- A NAL unit: its header byte and its payload, behind a start code of four bytes or of three.
pub record Nalu : Type 0 where
  pub long_code : Bool
  pub header : ℕ
  pub body : Bytes

abbrev pub start_code : Bool → Bytes
start_code true = 0 ∷ 0 ∷ 0 ∷ 1 ∷ []
start_code false = 0 ∷ 0 ∷ 1 ∷ []

-- The Annex-B stream of the units.
abbrev pub annex_b : List Nalu → Bytes
annex_b [] = []
annex_b (u ∷ us) = start_code u.long_code ++ u.header ∷ (u.body ++ annex_b us)

-- Emulation prevention keeps 00 00 01 out of a unit.
abbrev pub IsEscaped : Nalu → Type 0
IsEscaped u = find_code u.body ≡ none

-- The types of an IDR picture, and of SEI, SPS and PPS.
abbrev pub is_idr : ℕ → Bool
is_idr header = header % 32 == 5

abbrev pub is_prefix : ℕ → Bool
is_prefix header = leb 6 (header % 32) && leb (header % 32) 8

-- Whether the first unit that is no SEI, SPS or PPS is an IDR picture.
abbrev pub begins_with_idr : List Nalu → Bool
begins_with_idr [] = false
begins_with_idr (u ∷ us) =
    let rest = begins_with_idr us in if is_prefix u.header then rest else is_idr u.header

-- The stream without the first byte of a long start code.
abbrev short_stream : List Nalu → Bytes
short_stream [] = []
short_stream (u ∷ us) = start_code false ++ u.header ∷ (u.body ++ annex_b us)

find_code-annex_b :
    (u : Nalu) (us : List Nalu) → find_code (annex_b (u ∷ us)) ≡ some (short_stream (u ∷ us))
unfolding find_code
find_code-annex_b u us = ground arith

-- The first start code behind an escaped payload is that of the next unit.
find_code-append :
    (body : Bytes) (u : Nalu) (us : List Nalu)
    → find_code body ≡ none
    → find_code (body ++ annex_b (u ∷ us)) ≡ some (short_stream (u ∷ us))
unfolding find_code
find_code-append [] u us e = unfold find_code in find_code-annex_b u us
find_code-append (a ∷ []) u us e = ground (arith, find_code-annex_b u us)
find_code-append (a ∷ b ∷ []) u us e = ground (arith, find_code-append (b ∷ []) u us)
find_code-append (a ∷ b ∷ c ∷ s) u us e = ground (arith, find_code-append (b ∷ c ∷ s) u us)

strip-annex_b :
    (u : Nalu) (us : List Nalu)
    → strip_code (annex_b (u ∷ us)) ≡ some (u.header ∷ (u.body ++ annex_b us))
strip-annex_b u us = ground arith

strip-short :
    (u : Nalu) (us : List Nalu)
    → strip_code (short_stream (u ∷ us)) ≡ some (u.header ∷ (u.body ++ annex_b us))
strip-short u us = ground arith

keyframe_loop-units :
    (fuel : ℕ) (s : Bytes) (u : Nalu) (us : List Nalu)
    → strip_code s ≡ some (u.header ∷ (u.body ++ annex_b us))
    → length us < fuel
    → All IsEscaped (u ∷ us)
    → keyframe_loop fuel s ≡ begins_with_idr (u ∷ us)
unfolding keyframe_loop
keyframe_loop-units zero s u us e h escaped = absurd (omega arith)
keyframe_loop-units (suc fuel) s u [] e h escaped =
    rw (e, keyframe_loop) (ground (arith, escaped.0, append-nil u.body))
keyframe_loop-units (suc fuel) s u (v ∷ us) e h escaped =
    rw (e, keyframe_loop)
      (ground (
        arith,
        find_code-append u.body v us escaped.0,
        keyframe_loop-units fuel (short_stream (v ∷ us)) v us (strip-short v us) (omega arith)
            escaped.1,
      ))

length-annex_b : (us : List Nalu) → length us ≤ length (annex_b us)
length-annex_b [] = omega arith
length-annex_b (u ∷ us) = ground (arith, length-append u.body (annex_b us), length-annex_b us)

-- An access unit of escaped NAL units, behind start codes of either length, is reported as a
-- keyframe exactly when its first unit that is no SEI, SPS or PPS is an IDR picture. One that has an IDR
-- picture after another unit, such as a delimiter, is not.
pub is_h264_keyframe-annex_b :
    (us : List Nalu) → All IsEscaped us → is_h264_keyframe (annex_b us) ≡ begins_with_idr us
unfolding is_h264_keyframe
is_h264_keyframe-annex_b [] escaped = refl
is_h264_keyframe-annex_b (u ∷ us) escaped =
    keyframe_loop-units (length (annex_b (u ∷ us))) (annex_b (u ∷ us)) u us (strip-annex_b u us)
      (omega (arith, length-annex_b (u ∷ us))) escaped
