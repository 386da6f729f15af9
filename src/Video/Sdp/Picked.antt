-- ===== src/Video/Sdp/Picked.antt =====
-- `selectH264` of pkg/sip/video_sdp.go on an offer that is written from its payload types: the payload type
-- that the other side prefers to be read with packetization mode 1.
use sip_video.Prelude.{
  ℕ, ◌%◌, ◌^◌, ◌<◌, ◌==◌, ◌≡◌, ◌≢◌, refl, sym, ap, ◌∙◌, Option, none, some, Bool, false, List, [],
  ◌∷◌, ◌++◌, append_assoc, length, length-append, All, arith, map, Bool-cases, inl, inr, append-nil,
  if◌then◌else◌,
}
use mathlib.Core.Path.{subst}
use sip_video.Prelude.Int.{pos}
use sip_video.Text.{Bytes, bytes_eq, itoa, atoi}
use sip_video.Text.Laws.{bytes_eq→eq, bytes_eq_refl}
use sip_video.Text.Decimal.{atoi-itoa}
use sip_video.Video.Sdp.{Attribute, MediaDescription}
use sip_video.Video.Sdp.Select.{
  Candidate, Candidates, insert_index, lookup_index, add_candidate, collect, with_mode, parse_fmtps,
  select_h264, is_explicit1, Selected,
}
use sip_video.Video.Sdp.Selection.{
  or_candidate, first_explicit, selected_of, candidates, select_h264-preferred,
}
use sip_video.Video.Sdp.Listed.{
  Entry, IsMode, IsEntry, AreApart, rtpmaps, fmtps, fmtp_of, new_of, int_of, cand_of, IsIndexed,
  add_entries, collect-rtpmaps, collect-fmtps, parse_fmtps-rtpmaps, apply_fmtp_value-mode,
}

parse_fmtps-fmtp :
    (e : Entry) (mode : Option ℕ) (rest : List Attribute) (index : List (Bytes × ℕ))
    (done news : List Candidate)
    → IsMode mode
    → lookup_index (itoa (pos e.pt)) index ≡ some (length done)
    → parse_fmtps
        (fmtp_of e mode ++ rest)
        (record { index = index; found = done ++ new_of e ∷ news })
      ≡ parse_fmtps rest
          (record { index = index; found = done ++ with_mode (int_of mode) (new_of e) ∷ news })
unfolding parse_fmtps
parse_fmtps-fmtp e none rest index done news h at_place = refl
parse_fmtps-fmtp e (some m) rest index done news h at_place =
    ap (parse_fmtps rest) (apply_fmtp_value-mode m e index done news h at_place)

-- The second pass over the `fmtp`s of the entries, where the candidates before them are done.
parse_fmtps-fmtps :
    (es : List Entry) (index : List (Bytes × ℕ)) (done : List Candidate)
    → All IsEntry es
    → IsIndexed index (length done) es
    → parse_fmtps (fmtps es) (record { index = index; found = done ++ map new_of es })
      ≡ record { index = index; found = done ++ map cand_of es }
unfolding parse_fmtps
parse_fmtps-fmtps [] index done v w = refl
parse_fmtps-fmtps (e ∷ es) index done v w =
    let next = length-append done (cand_of e ∷ []) in
    let rest : parse_fmtps (fmtps es)
          (record { index = index; found = (done ++ cand_of e ∷ []) ++ map new_of es })
        ≡ record { index = index; found = (done ++ cand_of e ∷ []) ++ map cand_of es } =
      parse_fmtps-fmtps es index (done ++ cand_of e ∷ []) v.1
        (subst (λ n. IsIndexed index n es) (sym (next ∙ omega arith)) w.1) in
    parse_fmtps-fmtp e e.mode (fmtps es) index done (map new_of es) v.0.1 w.0
    ∙ ap (λ found. parse_fmtps (fmtps es) (record { index = index; found = found }))
        (sym (append_assoc done (cand_of e ∷ []) (map new_of es)))
    ∙ rest
    ∙ ap (λ found. record { index = index; found = found })
        (append_assoc done (cand_of e ∷ []) (map cand_of es))

lookup-insert :
    (k : Bytes) (i : ℕ) (m : List (Bytes × ℕ)) → lookup_index k (insert_index k i m) ≡ some i
unfolding lookup_index insert_index
lookup-insert k i [] = rw (bytes_eq_refl k) refl
lookup-insert k i ((j, n) ∷ m) = elim (Bool-cases (bytes_eq j k)) [
  | inl h ↦ rw h (rw (bytes_eq_refl k) refl)
  | inr h ↦ rw h (rw h (lookup-insert k i m))
]

lookup-insert_other :
    (k l : Bytes) (i : ℕ) (m : List (Bytes × ℕ))
    → bytes_eq l k ≡ false
    → lookup_index k (insert_index l i m) ≡ lookup_index k m
unfolding lookup_index insert_index
lookup-insert_other k l i [] h = rw h refl
lookup-insert_other k l i ((j, n) ∷ m) h = elim (Bool-cases (bytes_eq j l)) [
  | inl e ↦ rw e (rw h (rw (bytes_eq→eq j l e) (rw h refl)))
  | inr e ↦ rw e (ap (λ r. if bytes_eq j k then some n else r) (lookup-insert_other k l i m h))
]

itoa-apart :
    (a b : ℕ) → a < 2 ^ 63 → b < 2 ^ 63 → a ≢ b → bytes_eq (itoa (pos b)) (itoa (pos a)) ≡ false
itoa-apart a b h g apart = elim (Bool-cases (bytes_eq (itoa (pos b)) (itoa (pos a)))) [
  | inl e ↦
      let same : some (pos b) ≡ some (pos a) =
        sym (atoi-itoa b g)
        ∙ ap atoi (bytes_eq→eq (itoa (pos b)) (itoa (pos a)) e)
        ∙ atoi-itoa a h in
      absurd (apart (ground (arith, same)))
  | inr e ↦ e
]

-- An entry that is added leads to its place, also after others with other payload types are added.
add_entries-lookup :
    (es : List Entry) (n i : ℕ) (cs : Candidates)
    → n < 2 ^ 63
    → All IsEntry es
    → All (λ x. x.pt ≢ n) es
    → lookup_index (itoa (pos n)) cs.index ≡ some i
    → lookup_index (itoa (pos n)) (add_entries es cs).index ≡ some i
add_entries-lookup [] n i cs h v w e = e
add_entries-lookup (x ∷ es) n i cs h v w e =
    add_entries-lookup es n i (add_candidate (some (pos x.pt)) cs) h v.1 w.1 (
      lookup-insert_other (itoa (pos n)) (itoa (pos x.pt)) (length cs.found) cs.index
        (itoa-apart n x.pt h v.0.0 (λ q. w.0 (sym q)))
      ∙ e)

add_entries-IsIndexed :
    (es : List Entry) (cs : Candidates)
    → All IsEntry es
    → AreApart es
    → IsIndexed (add_entries es cs).index (length cs.found) es
add_entries-IsIndexed [] cs v w = tt
add_entries-IsIndexed (e ∷ es) cs v w =
    let cs' = add_candidate (some (pos e.pt)) cs in
    (
      add_entries-lookup es e.pt (length cs.found) cs' v.0.0 v.1 w.0
          (lookup-insert (itoa (pos e.pt)) (length cs.found) cs.index),
      subst (λ n. IsIndexed (add_entries es cs').index n es)
          (length-append cs.found (new_of e ∷ []) ∙ omega arith)
          (add_entries-IsIndexed es cs' v.1 w.1),
    )

add_entries-found :
    (es : List Entry) (cs : Candidates) → (add_entries es cs).found ≡ cs.found ++ map new_of es
add_entries-found [] cs = sym (append-nil cs.found)
add_entries-found (e ∷ es) cs =
    add_entries-found es (add_candidate (some (pos e.pt)) cs)
    ∙ append_assoc cs.found (new_of e ∷ []) (map new_of es)

candidates-entries :
    (es : List Entry) (md : MediaDescription)
    → All IsEntry es
    → AreApart es
    → md.attributes ≡ rtpmaps es ++ fmtps es
    → candidates md ≡ map cand_of es
candidates-entries es md v w e =
    let empty : Candidates = record { index = []; found = [] } in
    let cs = add_entries es empty in
    let first : collect md.attributes empty ≡ cs =
      ap (λ a. collect a empty) e ∙ collect-rtpmaps es (fmtps es) empty v ∙ collect-fmtps es cs in
    ap (λ c. (parse_fmtps md.attributes c).found) first
    ∙ ap (λ a. (parse_fmtps a cs).found) e
    ∙ ap (λ c. c.found) (parse_fmtps-rtpmaps es (fmtps es) cs)
    ∙ ap (λ found. (parse_fmtps (fmtps es) (record { index = cs.index; found = found })).found)
        (add_entries-found es empty)
    ∙ ap (λ c. c.found) (parse_fmtps-fmtps es cs.index [] v (add_entries-IsIndexed es empty v w))

-- The entry that says mode 1, the first of them.
abbrev pub says_one : Option ℕ → Bool
says_one none = false
says_one (some m) = m == 1

abbrev pub first_one : List Entry → Option Entry
first_one [] = none
first_one (e ∷ es) = let rest = first_one es in if says_one e.mode then some e else rest

abbrev pub or_entry : Option Entry → Entry → Entry
or_entry none e = e
or_entry (some x) e = x

abbrev pub wanted : Entry → List Entry → Entry
wanted e es = or_entry (first_one (e ∷ es)) e

abbrev pub mode_or_one : Option ℕ → ℕ
mode_or_one none = 1
mode_or_one (some m) = m

-- What is selected of an entry: mode 1 where it says none.
abbrev pub picked : Entry → Selected
picked e = record {
  pt = e.pt % 256;
  profile_level_id = [];
  packetization_mode = pos (mode_or_one e.mode);
  fmtp_extra = [];
}

cand-says_one :
    (e : Entry) (mode : Option ℕ)
    → is_explicit1 (with_mode (int_of mode) (new_of e)) ≡ says_one mode
cand-says_one e none = refl
cand-says_one e (some m) = refl

-- The choice among entries and among their candidates.
abbrev cand_map : Option Entry → Option Candidate
cand_map none = none
cand_map (some e) = some (cand_of e)

first_explicit-entries :
    (es : List Entry) → first_explicit (map cand_of es) ≡ cand_map (first_one es)
first_explicit-entries [] = refl
first_explicit-entries (e ∷ es) = elim (Bool-cases (says_one e.mode)) [
  | inl h ↦ rw (cand-says_one e e.mode ∙ h) (rw h refl)
  | inr h ↦ rw (cand-says_one e e.mode ∙ h) (rw h (first_explicit-entries es))
]

or_candidate-entry :
    (o : Option Entry) (e : Entry) → or_candidate (cand_map o) (cand_of e) ≡ cand_of (or_entry o e)
or_candidate-entry none e = refl
or_candidate-entry (some x) e = refl

selected_of-picked :
    (e : Entry) (mode : Option ℕ)
    → selected_of (with_mode (int_of mode) (new_of e)) ≡ picked (record e { mode = mode })
selected_of-picked e none = refl
selected_of-picked e (some m) = refl

-- An offer is written from payload types for H.264, all different, each with or without an `fmtp` that says
-- its packetization mode, with the `rtpmap`s first. The first payload type whose `fmtp` says mode 1 is
-- selected, as a byte; if there is none, the first of all. The mode selected is the one it says, or else 1.
-- Payload types and modes are not negative and fit in an int.
pub select_h264-picked :
    (e : Entry) (es : List Entry) (md : MediaDescription)
    → All IsEntry (e ∷ es)
    → AreApart (e ∷ es)
    → md.attributes ≡ rtpmaps (e ∷ es) ++ fmtps (e ∷ es)
    → select_h264 md ≡ some (picked (wanted e es))
select_h264-picked e es md v w h =
    select_h264-preferred md (cand_of e) (map cand_of es) (candidates-entries (e ∷ es) md v w h)
    ∙ ap (λ o. some (selected_of (or_candidate o (cand_of e)))) (first_explicit-entries (e ∷ es))
    ∙ ap (λ c. some (selected_of c)) (or_candidate-entry (first_one (e ∷ es)) e)
    ∙ ap some (selected_of-picked (wanted e es) (wanted e es).mode)
