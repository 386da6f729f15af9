-- ===== src/Video/Sdp/Maps.antt =====
-- When `selectH264` of pkg/sip/video_sdp.go finds a payload type for H.264.
use sip_video.Prelude.{
  ◌≡◌, refl, sym, ap, ◌∙◌, ◌↔◌, ◌⊎◌, inl, inr, Option, none, some, Bool, true, false, List, [], ◌∷◌,
  ◌++◌, arith, Bool-cases, append-nil, if◌then◌else◌,
}
use sip_video.Prelude.Int.{ℤ}
use sip_video.Text.{Bytes, bytes, bytes_eq, trim_space, to_lower, equal_fold, cut, atoi}
use sip_video.Text.Laws.{bytes_eq→eq}
use sip_video.Text.Decimal.{cut-append}
use sip_video.Text.Cut.{Without, IsCut, cut-none, cut-IsCut}
use sip_video.Video.Sdp.{Attribute, h264_sdp_name}
use sip_video.Video.Sdp.Select.{before_slash, rtpmap_pt}

-- What may follow the name of an encoding: nothing, or a slash and a clock rate.
abbrev pub IsRate : Bytes → Type 0
IsRate [] = Unit {0}
IsRate (c ∷ s) = c ≡ b'/'

-- An `rtpmap` value for H.264: a payload type, a space, the name in any case, and what follows it.
pub record IsH264Map (value : Bytes) (pt : ℤ) : Type 0 where
  pub type : Bytes
  pub name : Bytes
  pub rate : Bytes
  pub is_value : value ≡ type ++ b' ' ∷ (name ++ rate)
  pub is_first : Without b' ' type
  pub is_plain : Without b'/' name
  pub is_rate : IsRate rate
  pub is_h264 : to_lower name ≡ bytes "h264"
  pub is_type : atoi (trim_space type) ≡ some pt

-- Some attribute of the list maps a payload type to H.264.
abbrev pub Offers : List Attribute → Type 0
Offers [] = ⊥
Offers (a ∷ attributes) =
    ((a.key ≡ bytes "rtpmap") × (pt : ℤ) × IsH264Map a.value pt) ⊎ Offers attributes

-- A text is a name and what follows it.
abbrev IsNamed : Bytes → Bytes → Type 0
IsNamed s name = (rate : Bytes) × (s ≡ name ++ rate) × Without b'/' name × IsRate rate

abbrev name_of : Bytes → Option (Bytes × Bytes) → Bytes
name_of s r = elim r [ none ↦ s | some (before, after) ↦ before ]

name_of-IsNamed :
    (s : Bytes) (r : Option (Bytes × Bytes)) → IsCut b'/' s r → IsNamed s (name_of s r)
name_of-IsNamed s none v = ([], sym (append-nil s), v, tt)
name_of-IsNamed s (some (before, after)) v = (b'/' ∷ after, v.0, v.1, refl)

before_slash-append :
    (name rate : Bytes) → Without b'/' name → IsRate rate → before_slash (name ++ rate) ≡ name
before_slash-append name [] v r =
    ap (λ s. name_of s (cut b'/' s)) (append-nil name) ∙ ap (name_of name) (cut-none b'/' name v)
before_slash-append name (c ∷ s) v r =
    ap (λ d. name_of (name ++ d ∷ s) (cut b'/' (name ++ d ∷ s))) r
    ∙ ap (name_of (name ++ b'/' ∷ s)) (cut-append b'/' name s v)

abbrev pt_of : Option (Bytes × Bytes) → Option ℤ
pt_of r = elim r [
  | none ↦ none
  | some (before, after) ↦
      if equal_fold (before_slash after) h264_sdp_name then atoi (trim_space before) else none
]

h264-lower : (name : Bytes) → equal_fold name h264_sdp_name ≡ true → to_lower name ≡ bytes "h264"
unfolding equal_fold to_lower
h264-lower name e = bytes_eq→eq (to_lower name) (bytes "h264") e

h264-equal_fold :
    (name : Bytes) → to_lower name ≡ bytes "h264" → equal_fold name h264_sdp_name ≡ true
unfolding equal_fold to_lower
h264-equal_fold name e = ap (λ s. bytes_eq s (bytes "h264")) e

pt_of-IsH264Map :
    (value : Bytes) (pt : ℤ) (r : Option (Bytes × Bytes))
    → IsCut b' ' value r
    → pt_of r ≡ some pt
    → IsH264Map value pt
pt_of-IsH264Map value pt none v e = cc
pt_of-IsH264Map value pt (some (before, after)) v e =
    let (rate, is_after, is_plain, is_rate) =
      name_of-IsNamed after (cut b'/' after) (cut-IsCut b'/' after) in
    elim (Bool-cases (equal_fold (before_slash after) h264_sdp_name)) [
      | inl h ↦ record {
        type = before;
        name = before_slash after;
        rate = rate;
        is_value = v.0 ∙ ap (λ s. before ++ b' ' ∷ s) is_after;
        is_first = v.1;
        is_plain = is_plain;
        is_rate = is_rate;
        is_h264 = h264-lower (before_slash after) h;
        is_type = rw h at e;
      }
      | inr h ↦ let e' : none ≡ some pt = rw h at e in cc
    ]

rtpmap_pt-IsH264Map : (value : Bytes) (pt : ℤ) → rtpmap_pt value ≡ some pt → IsH264Map value pt
unfolding rtpmap_pt
rtpmap_pt-IsH264Map value pt e = pt_of-IsH264Map value pt (cut b' ' value) (cut-IsCut b' ' value) e

pub IsH264Map-rtpmap_pt : (value : Bytes) (pt : ℤ) → IsH264Map value pt → rtpmap_pt value ≡ some pt
unfolding rtpmap_pt
IsH264Map-rtpmap_pt value pt m =
    ap (λ s. pt_of (cut b' ' s)) m.is_value
    ∙ ap pt_of (cut-append b' ' m.type (m.name ++ m.rate) m.is_first)
    ∙ ap (λ n. if equal_fold n h264_sdp_name then atoi (trim_space m.type) else none)
        (before_slash-append m.name m.rate m.is_plain m.is_rate)
    ∙ ap (λ b. if b then atoi (trim_space m.type) else none) (h264-equal_fold m.name m.is_h264)
    ∙ m.is_type

-- Whether some attribute of the list is such a one, by what the code reads.
abbrev pub offers_h264 : List Attribute → Bool
offers_h264 [] = false
offers_h264 (a ∷ attributes) =
    let rest = offers_h264 attributes in
    if bytes_eq a.key (bytes "rtpmap")
    then elim (rtpmap_pt a.value) [ none ↦ rest | some v ↦ true ]
    else rest

offers_h264-next :
    (a : Attribute) (attributes : List Attribute) (r : Option ℤ)
    → rtpmap_pt a.value ≡ r
    → (offers_h264 attributes ≡ true) ↔ Offers attributes
    → (elim r [ none ↦ offers_h264 attributes | some v ↦ true ] ≡ true)
      ↔ (((pt : ℤ) × IsH264Map a.value pt) ⊎ Offers attributes)
offers_h264-next a attributes none e rest = (λ h. inr (rest.0 h), back)
  where
    back : ((pt : ℤ) × IsH264Map a.value pt) ⊎ Offers attributes → offers_h264 attributes ≡ true
    back (inl (pt, m)) = let e' = IsH264Map-rtpmap_pt a.value pt m in cc
    back (inr v) = rest.1 v
offers_h264-next a attributes (some pt) e rest =
    (λ h. inl (pt, rtpmap_pt-IsH264Map a.value pt e), λ v. refl)

pub offers_h264-Offers :
    (attributes : List Attribute) → (offers_h264 attributes ≡ true) ↔ Offers attributes
offers_h264-Offers [] = (λ e. ground (arith, e), λ v. absurd v)
offers_h264-Offers (a ∷ attributes) =
    let rest = offers_h264-Offers attributes in
    let next = offers_h264-next a attributes (rtpmap_pt a.value) refl rest in
    elim (Bool-cases (bytes_eq a.key (bytes "rtpmap"))) [
      | inl h ↦ rw h (forth h next.0, back next.1)
      | inr h ↦ rw h (λ e. inr (rest.0 e), skip h rest.1)
    ]
  where
    forth :
        bytes_eq a.key (bytes "rtpmap") ≡ true
        → (elim (rtpmap_pt a.value) [ none ↦ offers_h264 attributes | some v ↦ true ] ≡ true
            → ((pt : ℤ) × IsH264Map a.value pt) ⊎ Offers attributes)
        → elim (rtpmap_pt a.value) [ none ↦ offers_h264 attributes | some v ↦ true ] ≡ true
        → Offers (a ∷ attributes)
    forth h f e = elim (f e) [
      | inl m ↦ inl (bytes_eq→eq a.key (bytes "rtpmap") h, m.0, m.1)
      | inr v ↦ inr v
    ]

    back :
        (((pt : ℤ) × IsH264Map a.value pt) ⊎ Offers attributes
          → elim (rtpmap_pt a.value) [ none ↦ offers_h264 attributes | some v ↦ true ] ≡ true)
        → Offers (a ∷ attributes)
        → elim (rtpmap_pt a.value) [ none ↦ offers_h264 attributes | some v ↦ true ] ≡ true
    back f (inl (k, pt, m)) = f (inl (pt, m))
    back f (inr v) = f (inr v)

    skip :
        bytes_eq a.key (bytes "rtpmap") ≡ false
        → (Offers attributes → offers_h264 attributes ≡ true)
        → Offers (a ∷ attributes)
        → offers_h264 attributes ≡ true
    skip h f (inl (k, pt, m)) = ground (arith, k, h)
    skip h f (inr v) = f v
