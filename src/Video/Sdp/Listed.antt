-- ===== src/Video/Sdp/Listed.antt =====
-- What `selectH264` of pkg/sip/video_sdp.go picks of an offer that is written from its payload types.
use sip_video.Prelude.{
  ℕ, suc, ◌^◌, ◌<◌, ◌≡◌, ◌≢◌, refl, ap, ◌∙◌, Option, none, some, List, [], ◌∷◌, ◌++◌, length,
  get_elem?, set, All, arith,
}
use sip_video.Prelude.Int.{ℤ, pos}
use sip_video.Text.{Bytes, bytes, trim_space, to_lower, join, itoa, atoi}
use sip_video.Text.Decimal.{cut-append, atoi-itoa}
use sip_video.Text.Cut.{Without}
use sip_video.Text.Trim.{
  IsByte, trim_space-IsByte, All-append, itoa-IsByte, itoa-Without, split-Without,
}
use sip_video.Video.Sdp.{Attribute}
use sip_video.Video.Sdp.Select.{
  Candidate, Candidates, lookup_index, rtpmap_pt, new_candidate, add_candidate, collect, with_mode,
  apply_param, apply_params, apply_fmtp, update_candidate, apply_fmtp_value, parse_fmtps,
}
use sip_video.Video.Sdp.Maps.{IsH264Map-rtpmap_pt}

-- A payload type, and the packetization mode that its `fmtp` says, if it has one.
pub record Entry : Type 0 where
  pub pt : ℕ
  pub mode : Option ℕ

abbrev pub IsMode : Option ℕ → Type 0
IsMode none = Unit {0}
IsMode (some m) = m < 2 ^ 63

-- Both numbers fit in an int.
abbrev pub IsEntry : Entry → Type 0
IsEntry e = (e.pt < 2 ^ 63) × IsMode e.mode

-- The payload types differ.
abbrev pub AreApart : List Entry → Type 0
AreApart [] = Unit {0}
AreApart (e ∷ es) = All (λ x. x.pt ≢ e.pt) es × AreApart es

abbrev pub rtpmap : Entry → Attribute
rtpmap e = record { key = bytes "rtpmap"; value = itoa (pos e.pt) ++ bytes " H264/90000" }

abbrev pub mode_text : ℕ → Bytes
mode_text m = bytes "packetization-mode=" ++ itoa (pos m)

abbrev pub fmtp_of : Entry → Option ℕ → List Attribute
fmtp_of e none = []
fmtp_of e (some m) =
    record { key = bytes "fmtp"; value = itoa (pos e.pt) ++ b' ' ∷ mode_text m } ∷ []

abbrev pub rtpmaps : List Entry → List Attribute
rtpmaps [] = []
rtpmaps (e ∷ es) = rtpmap e ∷ rtpmaps es

abbrev pub fmtps : List Entry → List Attribute
fmtps [] = []
fmtps (e ∷ es) = fmtp_of e e.mode ++ fmtps es

pub rtpmap_pt-rtpmap :
    (n : ℕ) → n < 2 ^ 63 → rtpmap_pt (itoa (pos n) ++ bytes " H264/90000") ≡ some (pos n)
unfolding to_lower
rtpmap_pt-rtpmap n h = IsH264Map-rtpmap_pt _ (pos n) (record {
  type = itoa (pos n);
  name = bytes "H264";
  rate = bytes "/90000";
  is_value = refl;
  is_first = itoa-Without b' ' n refl;
  is_plain = ground arith;
  is_rate = refl;
  is_h264 = refl;
  is_type = ap atoi (trim_space-IsByte (itoa (pos n)) (itoa-IsByte n)) ∙ atoi-itoa n h;
})

-- The first pass over the `rtpmap`s of the entries.
abbrev pub add_entries : List Entry → Candidates → Candidates
add_entries [] cs = cs
add_entries (e ∷ es) cs = add_entries es (add_candidate (some (pos e.pt)) cs)

pub collect-rtpmaps :
    (es : List Entry) (rest : List Attribute) (cs : Candidates)
    → All IsEntry es
    → collect (rtpmaps es ++ rest) cs ≡ collect rest (add_entries es cs)
unfolding collect
collect-rtpmaps [] rest cs v = refl
collect-rtpmaps (e ∷ es) rest cs v =
    ap (λ o. collect (rtpmaps es ++ rest) (add_candidate o cs)) (rtpmap_pt-rtpmap e.pt v.0.0)
    ∙ collect-rtpmaps es rest (add_candidate (some (pos e.pt)) cs) v.1

collect-fmtp :
    (e : Entry) (mode : Option ℕ) (rest : List Attribute) (cs : Candidates)
    → collect (fmtp_of e mode ++ rest) cs ≡ collect rest cs
unfolding collect
collect-fmtp e none rest cs = refl
collect-fmtp e (some m) rest cs = refl

pub collect-fmtps : (es : List Entry) (cs : Candidates) → collect (fmtps es) cs ≡ cs
unfolding collect
collect-fmtps [] cs = refl
collect-fmtps (e ∷ es) cs = collect-fmtp e e.mode (fmtps es) cs ∙ collect-fmtps es cs

pub parse_fmtps-rtpmaps :
    (es : List Entry) (rest : List Attribute) (cs : Candidates)
    → parse_fmtps (rtpmaps es ++ rest) cs ≡ parse_fmtps rest cs
unfolding parse_fmtps
parse_fmtps-rtpmaps [] rest cs = refl
parse_fmtps-rtpmaps (e ∷ es) rest cs = parse_fmtps-rtpmaps es rest cs

abbrev pub new_of : Entry → Candidate
new_of e = new_candidate (pos e.pt)

abbrev pub int_of : Option ℕ → Option ℤ
int_of none = none
int_of (some m) = some (pos m)

-- The candidate of an entry after the second pass.
abbrev pub cand_of : Entry → Candidate
cand_of e = with_mode (int_of e.mode) (new_of e)

mode_text-IsByte : (m : ℕ) → All IsByte (mode_text m)
mode_text-IsByte m =
    All-append IsByte (bytes "packetization-mode=") (itoa (pos m)) (ground arith) (itoa-IsByte m)

pub mode_text-Without : (m : ℕ) → Without b';' (mode_text m)
mode_text-Without m =
    All-append (λ c. c ≢ b';') (bytes "packetization-mode=") (itoa (pos m)) (ground arith)
      (itoa-Without b';' m refl)

pub apply_param-mode :
    (m : ℕ) (c : Candidate)
    → m < 2 ^ 63
    → apply_param (mode_text m) (c, []) ≡ (with_mode (some (pos m)) c, [])
unfolding to_lower apply_param
apply_param-mode m c h =
    let key : trim_space (bytes "packetization-mode") ≡ bytes "packetization-mode" =
      trim_space-IsByte (bytes "packetization-mode") (ground arith) in
    rw (trim_space-IsByte (mode_text m) (mode_text-IsByte m), apply_param)
      (rw (cut-append b'=' (bytes "packetization-mode") (itoa (pos m)) (ground arith), apply_param)
        (rw key (rw (trim_space-IsByte (itoa (pos m)) (itoa-IsByte m)) (rw (atoi-itoa m h) refl))))

abbrev pub finish : Candidate × List Bytes → Candidate
finish (c, parts) = record c { extra = join b';' parts }

apply_fmtp-mode :
    (m : ℕ) (e : Entry)
    → m < 2 ^ 63
    → apply_fmtp (mode_text m) (new_of e) ≡ with_mode (some (pos m)) (new_of e)
unfolding apply_params join
apply_fmtp-mode m e h =
    ap (λ kvs. finish (apply_params kvs (new_of e, [])))
      (split-Without b';' (mode_text m) (mode_text-Without m))
    ∙ ap finish (apply_param-mode m (new_of e) h)

get_elem?-append :
    (cs : List Candidate) (c : Candidate) (ds : List Candidate)
    → get_elem? (cs ++ c ∷ ds) (length cs) ≡ some c
get_elem?-append [] c ds = refl
get_elem?-append (x ∷ cs) c ds = get_elem?-append cs c ds

set-append :
    (cs : List Candidate) (c d : Candidate) (ds : List Candidate)
    → set (cs ++ c ∷ ds) (length cs) d ≡ cs ++ d ∷ ds
set-append [] c d ds = refl
set-append (x ∷ cs) c d ds = ap (λ ys. x ∷ ys) (set-append cs c d ds)

-- Each entry's payload type leads to its place.
abbrev pub IsIndexed : List (Bytes × ℕ) → ℕ → List Entry → Type 0
IsIndexed index i [] = Unit {0}
IsIndexed index i (e ∷ es) =
    (lookup_index (itoa (pos e.pt)) index ≡ some i) × IsIndexed index (suc i) es

-- One `fmtp`, at the place of its entry.
pub apply_fmtp_value-mode :
    (m : ℕ) (e : Entry) (index : List (Bytes × ℕ)) (done rest : List Candidate)
    → m < 2 ^ 63
    → lookup_index (itoa (pos e.pt)) index ≡ some (length done)
    → apply_fmtp_value
        (itoa (pos e.pt) ++ b' ' ∷ mode_text m)
        (record { index = index; found = done ++ new_of e ∷ rest })
      ≡ record { index = index; found = done ++ with_mode (some (pos m)) (new_of e) ∷ rest }
apply_fmtp_value-mode m e index done rest h at_place =
    let cs = done ++ new_of e ∷ rest in
    rw
      (
        cut-append b' ' (itoa (pos e.pt)) (mode_text m) (itoa-Without b' ' e.pt refl),
        apply_fmtp_value,
      )
      (ap (λ found. record { index = index; found = found })
        (ap (λ k. update_candidate (lookup_index k index) (mode_text m) cs)
            (trim_space-IsByte (itoa (pos e.pt)) (itoa-IsByte e.pt))
          ∙ ap (λ o. update_candidate o (mode_text m) cs) at_place
          ∙ rw (get_elem?-append done (new_of e) rest, update_candidate)
              (rw (apply_fmtp-mode m e h) (set-append done (new_of e) _ rest))))
