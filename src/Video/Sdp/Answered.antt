-- ===== src/Video/Sdp/Answered.antt =====
-- The answer that pkg/sip/video_sdp.go writes, read back by its own `selectH264`.
use sip_video.Prelude.{
  ℕ, ◌^◌, ◌<◌, ◌≡◌, ◌≢◌, refl, ap, ◌∙◌, none, some, List, zero, suc, if◌then◌else◌, [], ◌∷◌, ◌++◌,
  All, arith,
}
use sip_video.Prelude.Int.{ℤ, pos}
use sip_video.Text.{Bytes, bytes, trim_space, to_lower, split, join, itoa}
use sip_video.Text.Decimal.{cut-append}
use sip_video.Text.Cut.{Without}
use sip_video.Text.Trim.{
  IsByte, trim_space-IsByte, All-append, itoa-IsByte, itoa-Without, split-Without,
}
use sip_video.Text.Laws.{bytes_eq_refl}
use sip_video.Video.Sdp.{
  Attribute, VideoMediaConf, or_else, default_h264_profile_level_id, append_extra, fmtp_prefix,
  mode_or_default, answer_line,
}
use sip_video.Video.Sdp.Select.{
  Candidate, Candidates, apply_param, apply_params, apply_fmtp, with_mode, new_candidate,
  select_h264, Selected, collect, parse_fmtps, lookup_index, insert_index, add_candidate,
  apply_fmtp_value, update_candidate, best, select_best,
}
use sip_video.Video.Sdp.Listed.{
  rtpmap_pt-rtpmap, apply_param-mode, mode_text, mode_text-Without, finish,
}

pub split-append :
    (sep : ℕ) (s t : Bytes) → Without sep s → split sep (s ++ sep ∷ t) ≡ s ∷ split sep t
unfolding split
split-append sep [] t v = ground arith
split-append sep (c ∷ s) t v = ground (arith, v.0, split-append sep s t v.1)

abbrev pub profile_text : Bytes → Bytes
profile_text profile = bytes "profile-level-id=" ++ profile

apply_param-profile :
    (profile : Bytes) (c : Candidate)
    → All IsByte profile
    → apply_param (profile_text profile) (c, []) ≡ (record c { profile_level_id = profile }, [])
unfolding to_lower apply_param
apply_param-profile profile c v =
    let key : trim_space (bytes "profile-level-id") ≡ bytes "profile-level-id" =
      trim_space-IsByte (bytes "profile-level-id") (ground arith) in
    rw
      (
        trim_space-IsByte (profile_text profile)
            (All-append IsByte (bytes "profile-level-id=") profile (ground arith) v),
        apply_param,
      )
      (rw (cut-append b'=' (bytes "profile-level-id") profile (ground arith), apply_param)
        (rw key (rw (trim_space-IsByte profile v) refl)))

-- The profile and the mode that an answer says.
abbrev pub profile_of : {Addr : Type 0} → VideoMediaConf Addr → Bytes
profile_of v =
    or_else (or_else v.local_profile_level_id v.profile_level_id) default_h264_profile_level_id

-- The parameters of an answer.
abbrev pub params_of : Bytes → ℕ → Bytes
params_of profile m = profile_text profile ++ b';' ∷ mode_text m

apply_fmtp-params :
    (n m : ℕ) (profile : Bytes)
    → m < 2 ^ 63
    → All IsByte profile
    → Without b';' profile
    → apply_fmtp (params_of profile m) (new_candidate (pos n))
      ≡ with_mode (some (pos m)) (record (new_candidate (pos n)) { profile_level_id = profile })
unfolding apply_params join
apply_fmtp-params n m profile h v w =
    let c = new_candidate (pos n) in
    let parts : split b';' (params_of profile m) ≡ profile_text profile ∷ mode_text m ∷ [] =
      split-append b';' (profile_text profile) (mode_text m)
        (All-append (λ x. x ≢ b';') (bytes "profile-level-id=") profile (ground arith) w)
      ∙ ap (λ ps. profile_text profile ∷ ps)
          (split-Without b';' (mode_text m) (mode_text-Without m)) in
    ap (λ kvs. finish (apply_params kvs (c, []))) parts
    ∙ ap (λ r. finish (apply_param (mode_text m) r)) (apply_param-profile profile c v)
    ∙ ap finish (apply_param-mode m (record c { profile_level_id = profile }) h)

clock_rate : itoa (pos 90000) ≡ bytes "90000"
unfolding itoa
clock_rate = refl

-- The two attributes of a payload type in an answer, and two that are not read.
abbrev lines : ℕ → Bytes → List Attribute
lines n params =
    record { key = bytes "rtpmap"; value = itoa (pos n) ++ bytes " H264/90000" }
    ∷ record { key = bytes "fmtp"; value = itoa (pos n) ++ b' ' ∷ params }
    ∷ record { key = bytes "rtcp-fb"; value = itoa (pos n) ++ bytes " nack pli" }
    ∷ record { key = bytes "sendrecv"; value = [] }
    ∷ []

abbrev one : ℕ → Candidate → Candidates
one n c = record { index = (itoa (pos n), 0) ∷ []; found = c ∷ [] }

collect-lines :
    (n : ℕ) (params : Bytes)
    → n < 2 ^ 63
    → collect (lines n params) (record { index = []; found = [] }) ≡ one n (new_candidate (pos n))
unfolding collect insert_index
collect-lines n params h =
    ap (λ o. collect [] (add_candidate o (record { index = []; found = [] })))
      (rtpmap_pt-rtpmap n h)

apply_fmtp_value-lines :
    (n : ℕ) (params : Bytes) (c : Candidate)
    → apply_fmtp_value (itoa (pos n) ++ b' ' ∷ params) (one n c) ≡ one n (apply_fmtp params c)
unfolding lookup_index
apply_fmtp_value-lines n params c =
    rw (cut-append b' ' (itoa (pos n)) params (itoa-Without b' ' n refl), apply_fmtp_value)
      (ap (λ found. record { index = (itoa (pos n), 0) ∷ []; found = found })
        (ap (λ k. update_candidate (lookup_index k ((itoa (pos n), 0) ∷ [])) params (c ∷ []))
            (trim_space-IsByte (itoa (pos n)) (itoa-IsByte n))
          ∙ ap (λ b. update_candidate (if b then some 0 else none) params (c ∷ []))
              (bytes_eq_refl (itoa (pos n)))))

parse_fmtps-lines :
    (n : ℕ) (params : Bytes) (c : Candidate)
    → parse_fmtps (lines n params) (one n c) ≡ one n (apply_fmtp params c)
unfolding parse_fmtps
parse_fmtps-lines n params c = apply_fmtp_value-lines n params c

-- The mode that is answered to a mode: 0 is not echoed.
abbrev pub answered : ℕ → ℕ
answered zero = 1
answered (suc n) = suc n

answered_small : (n : ℕ) → n < 2 ^ 63 → answered n < 2 ^ 63
answered_small zero h = omega arith
answered_small (suc n) h = h

mode_or_default-answered : (n : ℕ) → mode_or_default (pos n) ≡ pos (answered n)
mode_or_default-answered zero = refl
mode_or_default-answered (suc n) = refl

abbrev written : ℕ → Bytes → Bytes → ℤ → Bytes → List Attribute
written n profile clock mode extra =
    let pt = itoa (pos n) in
    record { key = bytes "rtpmap"; value = pt ++ (bytes " H264/" ++ clock) }
    ∷ record { key = bytes "fmtp"; value = append_extra (fmtp_prefix pt profile mode) extra }
    ∷ record { key = bytes "rtcp-fb"; value = pt ++ bytes " nack pli" }
    ∷ record { key = bytes "sendrecv"; value = [] }
    ∷ []

answer_line-lines :
    {Addr : Type 0} (port n : ℕ) (v : VideoMediaConf Addr)
    → v.packetization_mode ≡ pos n
    → v.h264_fmtp_extra ≡ []
    → (answer_line port v).attributes ≡ lines v.payload_type (params_of (profile_of v) (answered n))
unfolding answer_line
answer_line-lines port n v mode extra =
    let pt = v.payload_type in
    let profile = profile_of v in
    ap (λ clock. written pt profile clock (mode_or_default v.packetization_mode) v.h264_fmtp_extra)
      clock_rate
    ∙ ap (λ m. written pt profile (bytes "90000") m v.h264_fmtp_extra)
        (ap mode_or_default mode ∙ mode_or_default-answered n)
    ∙ ap (written pt profile (bytes "90000") (pos (answered n))) extra

-- What the answer says of a configuration with a mode.
abbrev pub said : {Addr : Type 0} → ℕ → VideoMediaConf Addr → ℕ → Selected
said pt v n = record {
  pt = pt;
  profile_level_id = profile_of v;
  packetization_mode = pos (answered n);
  fmtp_extra = [];
}

-- The video line of an answer without capacity parameters is read back as the payload type, the local
-- profile, else that of the offer, else the default, and the packetization mode that was negotiated, but
-- for mode 0, which is read back as 1. The profile has no white space and no semicolon, the payload type is
-- a byte, and the mode, which is not negative, fits in an int.
pub select_h264-answer_line :
    {Addr : Type 0} (port n : ℕ) (v : VideoMediaConf Addr)
    → v.packetization_mode ≡ pos n
    → n < 2 ^ 63
    → v.payload_type < 256
    → All IsByte (profile_of v)
    → Without b';' (profile_of v)
    → v.h264_fmtp_extra ≡ []
    → select_h264 (answer_line port v) ≡ some (said v.payload_type v n)
unfolding select_h264 best
select_h264-answer_line port n v mode small h bytes_of plain extra =
    let pt = v.payload_type in
    let params = params_of (profile_of v) (answered n) in
    let read = λ (attributes : List Attribute).
      select_best
        (parse_fmtps attributes (collect attributes (record { index = []; found = [] }))).found in
    ap read (answer_line-lines port n v mode extra)
    ∙ ap (λ cs. select_best (parse_fmtps (lines pt params) cs).found)
        (collect-lines pt params (omega (arith, h)))
    ∙ ap (λ cs. select_best cs.found) (parse_fmtps-lines pt params (new_candidate (pos pt)))
    ∙ ap (λ c. select_best (c ∷ []))
        (apply_fmtp-params pt (answered n) (profile_of v) (answered_small n small) bytes_of plain)
    ∙ ap (λ k. some (said k v n)) (omega (arith, h))
