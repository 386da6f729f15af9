-- ===== src/Video/Sdp/Selection.antt =====
-- Which payload type `selectH264` of pkg/sip/video_sdp.go picks, and when it picks one.
use sip_video.Prelude.{
  ℕ, zero, suc, ◌≡◌, refl, ◌∙◌, ◌↔◌, inl, inr, Option, none, some, Bool, true, false, ◌&&◌, not,
  List, [], ◌∷◌, ◌++◌, get_elem?, set, arith, Option-cases, if◌then◌else◌,
}
use sip_video.Text.{Bytes, cut, trim_space}
use sip_video.Video.Sdp.{Attribute, MediaDescription}
use sip_video.Video.Sdp.Maps.{Offers, offers_h264, offers_h264-Offers}
use sip_video.Video.Sdp.Select.{
  Candidate, Candidates, lookup_index, rtpmap_pt, add_candidate, collect, apply_fmtp,
  update_candidate, apply_fmtp_value, parse_fmtps, is_explicit1, best, byte_of, Selected,
  select_best, select_h264,
}

-- The first candidate that declares packetization-mode 1 in its `fmtp`.
abbrev pub first_explicit : List Candidate → Option Candidate
first_explicit [] = none
first_explicit (c ∷ cs) = let rest = first_explicit cs in if is_explicit1 c then some c else rest

abbrev pub or_candidate : Option Candidate → Candidate → Candidate
or_candidate none d = d
or_candidate (some c) d = c

-- The candidate that the comment of `selectH264` promises, for a list that is not empty.
abbrev pub preferred : Candidate → List Candidate → Candidate
preferred c cs = or_candidate (first_explicit (c ∷ cs)) c

pub best-preferred : (c : Candidate) (cs : List Candidate) → best c cs ≡ preferred c cs
unfolding best
best-preferred c [] = ground arith
best-preferred c (d ∷ cs) = ground (arith, best-preferred c cs, best-preferred d cs)

-- What the selected candidate becomes in the result.
abbrev pub selected_of : Candidate → Selected
selected_of c = record {
  pt = byte_of c.pt;
  profile_level_id = c.profile_level_id;
  packetization_mode = c.packetization_mode;
  fmtp_extra = c.extra;
}

-- The candidates of a media line, after both passes.
abbrev pub candidates : MediaDescription → List Candidate
candidates md =
    (parse_fmtps md.attributes (collect md.attributes (record { index = []; found = [] }))).found

-- The first candidate whose `fmtp` explicitly says packetization-mode 1 is selected, wherever it
-- stands among the candidates; if there is none, the first candidate of all.
pub select_h264-preferred :
    (md : MediaDescription) (c : Candidate) (cs : List Candidate)
    → candidates md ≡ c ∷ cs
    → select_h264 md ≡ some (selected_of (preferred c cs))
unfolding select_h264
select_h264-preferred md c cs e = rw (e, select_best, best-preferred c cs)

abbrev pub is_nil : List Candidate → Bool
is_nil [] = true
is_nil (c ∷ cs) = false

is_nil-set : (cs : List Candidate) (i : ℕ) (c : Candidate) → is_nil (set cs i c) ≡ is_nil cs
is_nil-set [] i c = refl
is_nil-set (d ∷ cs) zero c = refl
is_nil-set (d ∷ cs) (suc i) c = refl

is_nil-update :
    (o : Option ℕ) (params : Bytes) (cs : List Candidate)
    → is_nil (update_candidate o params cs) ≡ is_nil cs
is_nil-update none params cs = refl
is_nil-update (some i) params cs = elim (Option-cases (get_elem? cs i)) [
  | inl e ↦ rw (e, update_candidate)
  | inr (c, e) ↦ rw (e, update_candidate) (is_nil-set cs i (apply_fmtp params c))
]

is_nil-apply_fmtp_value :
    (value : Bytes) (cs : Candidates) → is_nil (apply_fmtp_value value cs).found ≡ is_nil cs.found
is_nil-apply_fmtp_value value cs = elim (Option-cases (cut b' ' value)) [
  | inl e ↦ rw (e, apply_fmtp_value)
  | inr (p, e) ↦
      rw (e, apply_fmtp_value) (is_nil-update (lookup_index (trim_space p.0) cs.index) p.1 cs.found)
]

is_nil-parse_fmtps :
    (attributes : List Attribute) (cs : Candidates)
    → is_nil (parse_fmtps attributes cs).found ≡ is_nil cs.found
unfolding parse_fmtps
is_nil-parse_fmtps [] cs = refl
is_nil-parse_fmtps (a ∷ attributes) cs = ground (
  arith,
  is_nil-parse_fmtps attributes cs,
  is_nil-parse_fmtps attributes (apply_fmtp_value a.value cs),
  is_nil-apply_fmtp_value a.value cs,
)

is_nil-append : (cs : List Candidate) (c : Candidate) → is_nil (cs ++ (c ∷ [])) ≡ false
is_nil-append [] c = refl
is_nil-append (d ∷ cs) c = refl

is_nil-collect :
    (attributes : List Attribute) (cs : Candidates)
    → is_nil (collect attributes cs).found ≡ (is_nil cs.found && not (offers_h264 attributes))
unfolding collect
is_nil-collect [] cs = ground arith
is_nil-collect (a ∷ attributes) cs = ground (
  arith,
  is_nil-collect attributes cs,
  is_nil-collect attributes (add_candidate (rtpmap_pt a.value) cs),
  is_nil-append cs.found,
)

not-offered : (b : Bool) → ¬ (b ≡ true) → not b ≡ true
not-offered true f = absurd (f refl)
not-offered false f = refl

select_best-is_nil : (cs : List Candidate) → (select_best cs ≡ none) ↔ (is_nil cs ≡ true)
select_best-is_nil [] = (λ e. refl, λ e. refl)
select_best-is_nil (c ∷ cs) = (λ e. cc, λ e. cc)

-- A media line is refused exactly when none of its `rtpmap` attributes is a payload type that can be
-- read, a space and the name H264 in any case; `fmtp` attributes never change that.
pub select_h264-none_iff :
    (md : MediaDescription) → (select_h264 md ≡ none) ↔ (¬ Offers md.attributes)
unfolding select_h264
select_h264-none_iff md =
    let empty : Candidates = record { index = []; found = [] } in
    let e : is_nil (candidates md) ≡ not (offers_h264 md.attributes) =
      is_nil-parse_fmtps md.attributes (collect md.attributes empty)
      ∙ is_nil-collect md.attributes empty in
    let (refused, back) = select_best-is_nil (candidates md) in
    let (offered, read) = offers_h264-Offers md.attributes in
    (
      λ q v. ground (arith, e, refused q, read v),
      λ f. back (e ∙ not-offered (offers_h264 md.attributes) (λ h. f (offered h))),
    )
