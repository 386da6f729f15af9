-- ===== src/Server/Invites/Cache.antt =====
-- What `getInvite` of pkg/sip/inbound.go remembers of a Call-ID.
use sip_video.Prelude.{
  ℕ, zero, suc, ◌+◌, ◌≤◌, ◌<◌, ◌≡◌, refl, ap, ◌∙◌, inl, inr, none, some, true, false, List, [], ◌∷◌,
  ◌++◌, length, length-append, get_elem?, leb, if◌then◌else◌, arith, All, Bool-cases, Option-cases,
}
use sip_video.Text.{Bytes}
use sip_video.Text.Laws.{bytes_eq_refl}
use sip_video.Server.Invites.{
  InProgressInvite, Invites, digest_limit, no_challenge, has_call_id, find, make_room, add_invite,
  or_add, get_invite,
}

-- The pointers of the list are in the heap, and the list is within the limit.
pub record IsValid (s : Invites) : Type 0 where
  pub allocated : All (λ (p : ℕ). p < length s.heap) s.in_progress
  pub bounded : length s.in_progress ≤ 500

get_elem?-append :
    {A : Type 0} (xs : List A) (x : A) (i : ℕ)
    → i < length xs
    → get_elem? (xs ++ (x ∷ [])) i ≡ get_elem? xs i
get_elem?-append [] x i h = absurd (omega arith)
get_elem?-append (y ∷ xs) x zero h = refl
get_elem?-append (y ∷ xs) x (suc i) h = get_elem?-append xs x i (omega arith)

get_elem?-last :
    {A : Type 0} (xs : List A) (x : A) → get_elem? (xs ++ (x ∷ [])) (length xs) ≡ some x
get_elem?-last [] x = refl
get_elem?-last (y ∷ xs) x = get_elem?-last xs x

find-append :
    (heap : List InProgressInvite) (x : InProgressInvite) (id : Bytes) (ps : List ℕ)
    → All (λ (p : ℕ). p < length heap) ps
    → find (heap ++ (x ∷ [])) id ps ≡ find heap id ps
unfolding find
find-append heap x id [] v = refl
find-append heap x id (p ∷ ps) v = rw (get_elem?-append heap x p v.0, find-append heap x id ps v.1)

-- The number of pointers behind the first that has the Call-ID.
abbrev behind : List InProgressInvite → Bytes → List ℕ → ℕ
behind heap id [] = 0
behind heap id (p ∷ ps) =
    let rest = behind heap id ps in if has_call_id id (get_elem? heap p) then length ps else rest

All-append :
    {A : Type 0} (P : A → Type 0) (xs : List A) (x : A) → All P xs → P x → All P (xs ++ (x ∷ []))
All-append P [] x v h = (h, tt)
All-append P (y ∷ xs) x v h = (v.0, All-append P xs x v.1 h)

All-map :
    {A : Type 0} (P Q : A → Type 0) (f : (x : A) → P x → Q x) (xs : List A) → All P xs → All Q xs
All-map P Q f [] v = tt
All-map P Q f (x ∷ xs) v = (f x v.0, All-map P Q f xs v.1)

All-make_room : (P : ℕ → Type 0) (ps : List ℕ) → All P ps → All P (make_room ps)
All-make_room P [] v = v
All-make_room P (p ∷ ps) v = elim (Bool-cases (leb digest_limit (length (p ∷ ps)))) [
  | inl full ↦ rw full v.1
  | inr free ↦ rw free v
]

length-make_room : (ps : List ℕ) → length ps ≤ 500 → length (make_room ps) < 500
length-make_room [] h = omega arith
length-make_room (p ∷ ps) h = ground arith

add_invite-IsValid : (s : Invites) (id : Bytes) → IsValid s → IsValid (add_invite s id).1
add_invite-IsValid s id v =
    let heap' = (add_invite s id).1.heap in
    let n =
      length-append s.heap
        (record { sip_call_id = id; challenge = no_challenge; auth_resolved = false } ∷ []) in
    record {
      allocated =
          All-append (λ (p : ℕ). p < length heap') (make_room s.in_progress) (length s.heap)
            (All-map (λ (p : ℕ). p < length s.heap) (λ (p : ℕ). p < length heap')
              (λ p h. omega (arith, n)) (make_room s.in_progress)
              (All-make_room (λ (p : ℕ). p < length s.heap) s.in_progress v.allocated))
            (omega (arith, n));
      bounded = omega (
        arith,
        length-append (make_room s.in_progress) (length s.heap ∷ []),
        length-make_room s.in_progress v.bounded,
      );
    }

-- Looking up or adding a Call-ID keeps every remembered entry allocated and at most 500 of them.
pub get_invite-IsValid : (s : Invites) (id : Bytes) → IsValid s → IsValid (get_invite s id).1
unfolding get_invite
get_invite-IsValid s id v = elim (Option-cases (find s.heap id s.in_progress)) [
  | inl e ↦ rw (e, get_invite) (add_invite-IsValid s id v)
  | inr (p, e) ↦ rw (e, get_invite) v
]

find-snoc :
    (heap : List InProgressInvite) (id : Bytes) (ps : List ℕ) (q : ℕ)
    → find heap id ps ≡ none
    → has_call_id id (get_elem? heap q) ≡ true
    → find heap id (ps ++ (q ∷ [])) ≡ some q
unfolding find
find-snoc heap id [] q e h = rw h
find-snoc heap id (p ∷ ps) q e h = ground (arith, find-snoc heap id ps q)

find-make_room-none :
    (heap : List InProgressInvite) (id : Bytes) (ps : List ℕ)
    → find heap id ps ≡ none
    → find heap id (make_room ps) ≡ none
unfolding find
find-make_room-none heap id [] e = refl
find-make_room-none heap id (p ∷ ps) e = ground arith

find-add_invite :
    (s : Invites) (id : Bytes)
    → IsValid s
    → find s.heap id s.in_progress ≡ none
    → find (add_invite s id).1.heap id (add_invite s id).1.in_progress ≡ some (length s.heap)
find-add_invite s id v e =
    let x : InProgressInvite = record {
      sip_call_id = id;
      challenge = no_challenge;
      auth_resolved = false;
    } in
    let room = All-make_room (λ (p : ℕ). p < length s.heap) s.in_progress v.allocated in
    find-snoc (s.heap ++ (x ∷ [])) id (make_room s.in_progress) (length s.heap)
      (find-append s.heap x id (make_room s.in_progress) room
        ∙ find-make_room-none s.heap id s.in_progress e)
      (rw (get_elem?-last s.heap x) (bytes_eq_refl id))

pub get_invite-none :
    (s : Invites) (id : Bytes)
    → find s.heap id s.in_progress ≡ none
    → get_invite s id ≡ add_invite s id
unfolding get_invite
get_invite-none s id e = rw (e, or_add) refl

pub get_invite-some :
    (s : Invites) (id : Bytes) (p : ℕ)
    → find s.heap id s.in_progress ≡ some p
    → get_invite s id ≡ (p, s)
unfolding get_invite
get_invite-some s id p e = rw (e, or_add) refl

-- Looked up again, a Call-ID gives the same entry, and the server's state stays as it is.
pub get_invite-again :
    (s : Invites) (id : Bytes) → IsValid s → get_invite (get_invite s id).1 id ≡ get_invite s id
get_invite-again s id v = elim (Option-cases (find s.heap id s.in_progress)) [
  | inl e ↦
      rw (get_invite-none s id e)
        (get_invite-some (add_invite s id).1 id (length s.heap) (find-add_invite s id v e))
  | inr (p, e) ↦ rw (get_invite-some s id p e) (get_invite-some s id p e)
]

find-snoc_some :
    (heap : List InProgressInvite) (id : Bytes) (ps : List ℕ) (p q : ℕ)
    → find heap id ps ≡ some p
    → (find heap id (ps ++ (q ∷ [])) ≡ some p)
      × (behind heap id (ps ++ (q ∷ [])) ≤ suc (behind heap id ps))
unfolding find
find-snoc_some heap id [] p q e = cc
find-snoc_some heap id (x ∷ ps) p q e =
    ground (arith, find-snoc_some heap id ps p q, length-append ps (q ∷ []))

find-make_room-some :
    (heap : List InProgressInvite) (id : Bytes) (ps : List ℕ) (p : ℕ)
    → find heap id ps ≡ some p
    → behind heap id ps < 499
    → (find heap id (make_room ps) ≡ some p) × (behind heap id (make_room ps) ≤ behind heap id ps)
unfolding find
find-make_room-some heap id [] p e h = cc
find-make_room-some heap id (x ∷ ps) p e h = ground arith

behind-append :
    (heap : List InProgressInvite) (x : InProgressInvite) (id : Bytes) (ps : List ℕ)
    → All (λ (p : ℕ). p < length heap) ps
    → behind (heap ++ (x ∷ [])) id ps ≡ behind heap id ps
behind-append heap x id [] v = refl
behind-append heap x id (p ∷ ps) v =
    rw (get_elem?-append heap x p v.0, behind-append heap x id ps v.1)

record Remembers (id : Bytes) (p d : ℕ) (s : Invites) : Type 0 where
  valid : IsValid s
  found : find s.heap id s.in_progress ≡ some p
  depth : behind s.heap id s.in_progress ≤ d

add_invite-Remembers :
    (s : Invites) (id other : Bytes) (p d : ℕ)
    → d < 499
    → Remembers id p d s
    → Remembers id p (suc d) (add_invite s other).1
add_invite-Remembers s id other p d h r =
    let x : InProgressInvite = record {
      sip_call_id = other;
      challenge = no_challenge;
      auth_resolved = false;
    } in
    let v = r.valid in
    let room = All-make_room (λ (p : ℕ). p < length s.heap) s.in_progress v.allocated in
    let kept = find-make_room-some s.heap id s.in_progress p r.found (omega (arith, r.depth)) in
    let heap' = s.heap ++ (x ∷ []) in
    let same = behind-append s.heap x id (make_room s.in_progress) room in
    let added =
      find-snoc_some heap' id (make_room s.in_progress) p (length s.heap)
        (find-append s.heap x id (make_room s.in_progress) room ∙ kept.0) in
    record {
      valid = add_invite-IsValid s other v;
      found = added.0;
      depth = omega (arith, added.1, same, kept.1, r.depth);
    }

get_invite-Remembers :
    (s : Invites) (id other : Bytes) (p d : ℕ)
    → d < 499
    → Remembers id p d s
    → Remembers id p (suc d) (get_invite s other).1
unfolding get_invite
get_invite-Remembers s id other p d h r = elim (Option-cases (find s.heap other s.in_progress)) [
  | inl e ↦ rw (e, or_add) (add_invite-Remembers s id other p d h r)
  | inr (q, e) ↦
      rw (e, or_add) (record { valid = r.valid; found = r.found; depth = omega (arith, r.depth) })
]

abbrev pub get_all : Invites → List Bytes → Invites
get_all s [] = s
get_all s (id ∷ ids) = get_all (get_invite s id).1 ids

get_all-find :
    (s : Invites) (id : Bytes) (p d : ℕ) (ids : List Bytes)
    → d + length ids ≤ 499
    → Remembers id p d s
    → find (get_all s ids).heap id (get_all s ids).in_progress ≡ some p
get_all-find s id p d [] h r = r.found
get_all-find s id p d (other ∷ ids) h r =
    get_all-find (get_invite s other).1 id p (suc d) ids (omega arith)
      (get_invite-Remembers s id other p d (omega arith) r)

behind-snoc :
    (heap : List InProgressInvite) (id : Bytes) (ps : List ℕ) (q : ℕ)
    → find heap id ps ≡ none
    → behind heap id (ps ++ (q ∷ [])) ≡ 0
unfolding find
behind-snoc heap id [] q e = ground arith
behind-snoc heap id (p ∷ ps) q e = ground (arith, behind-snoc heap id ps q)

add_invite-Remembers_new :
    (s : Invites) (id : Bytes)
    → IsValid s
    → find s.heap id s.in_progress ≡ none
    → Remembers id (length s.heap) 0 (add_invite s id).1
add_invite-Remembers_new s id v e =
    let x : InProgressInvite = record {
      sip_call_id = id;
      challenge = no_challenge;
      auth_resolved = false;
    } in
    let room = All-make_room (λ (p : ℕ). p < length s.heap) s.in_progress v.allocated in
    let gone =
      find-append s.heap x id (make_room s.in_progress) room
      ∙ find-make_room-none s.heap id s.in_progress e in
    record {
      valid = add_invite-IsValid s id v;
      found = find-add_invite s id v e;
      depth = omega (
        arith,
        behind-snoc (s.heap ++ (x ∷ [])) id (make_room s.in_progress) (length s.heap) gone,
      );
    }

-- A Call-ID that is added is still found, with the same entry, after the INVITEs of any 499
-- Call-IDs or fewer.
pub get_invite-remembered :
    (s : Invites) (id : Bytes) (ids : List Bytes)
    → IsValid s
    → find s.heap id s.in_progress ≡ none
    → length ids ≤ 499
    → let (p, s') = get_invite s id in (get_invite (get_all s' ids) id).0 ≡ p
get_invite-remembered s id ids v e h =
    let found =
      get_all-find (add_invite s id).1 id (length s.heap) 0 ids (omega arith)
        (add_invite-Remembers_new s id v e) in
    rw (get_invite-none s id e)
      (ap (λ r. r.0) (get_invite-some (get_all (add_invite s id).1 ids) id (length s.heap) found))

pub get_invite-found :
    (s : Invites) (id : Bytes)
    → IsValid s
    → let (p, s') = get_invite s id in find s'.heap id s'.in_progress ≡ some p
get_invite-found s id v = elim (Option-cases (find s.heap id s.in_progress)) [
  | inl e ↦ rw (get_invite-none s id e) (find-add_invite s id v e)
  | inr (p, e) ↦ rw (get_invite-some s id p e) e
]
