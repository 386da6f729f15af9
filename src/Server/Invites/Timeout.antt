-- ===== src/Server/Invites/Timeout.antt =====
-- The timers that `scheduleAuthChallengeTimeout` of pkg/sip/inbound.go sets for one Call-ID.
use sip_video.Prelude.{
  ℕ, zero, suc, ◌<◌, ◌≡◌, refl, ap, ◌∙◌, Option, none, some, Bool, true, false, List, [], ◌∷◌, ◌++◌,
  length, get_elem?, set, arith,
}
use sip_video.Server.Invites.{
  InProgressInvite, Invites, update_heap, update, set_resolved, Timer, Timers,
  schedule_auth_challenge_timeout, is_resolved, fire, resolve,
}

abbrev pub fire_all : Timers → List Timer → Timers
fire_all s [] = s
fire_all s (t ∷ ts) = fire_all (fire s t) ts

abbrev pub resolved_at : Timers → ℕ → Bool
resolved_at s p = is_resolved (get_elem? s.invites.heap p)

abbrev pub timer : ℕ → ℕ → Timer
timer p call = record { invite = p; call = call }

abbrev pub timers_of : ℕ → List ℕ → List Timer
timers_of p [] = []
timers_of p (call ∷ calls) = timer p call ∷ timers_of p calls

get_elem?-set :
    {A : Type 0} (xs : List A) (i : ℕ) (x y : A)
    → get_elem? xs i ≡ some x
    → get_elem? (set xs i y) i ≡ some y
get_elem?-set [] i x y e = cc
get_elem?-set (z ∷ xs) zero x y e = refl
get_elem?-set (z ∷ xs) (suc i) x y e = get_elem?-set xs i x y e

-- The flag of an entry after a write of it.
update_heap-flag :
    (heap : List InProgressInvite) (p : ℕ) (b : Bool) (o : Option InProgressInvite)
    → get_elem? heap p ≡ o
    → is_resolved (get_elem? (update_heap (set_resolved b) p o heap) p)
      ≡ elim o [ none ↦ true | some invite ↦ b ]
update_heap-flag heap p b none e = rw e refl
update_heap-flag heap p b (some invite) e =
    rw (get_elem?-set heap p invite (set_resolved b invite) e) refl

update-flag :
    (s : Invites) (p : ℕ) (b : Bool)
    → is_resolved (get_elem? (update (set_resolved b) p s).heap p)
      ≡ elim (get_elem? s.heap p) [ none ↦ true | some invite ↦ b ]
unfolding update
update-flag s p b = update_heap-flag s.heap p b (get_elem? s.heap p) refl

fire-resolved : (s : Timers) (p call : ℕ) → resolved_at s p ≡ true → fire s (timer p call) ≡ s
unfolding fire
fire-resolved s p call h = rw h refl

or_true : (o : Option InProgressInvite) → (elim o [ none ↦ true | some invite ↦ true ]) ≡ true
or_true none = refl
or_true (some invite) = refl

fire-unresolved :
    (s : Timers) (p call : ℕ)
    → resolved_at s p ≡ false
    → ((fire s (timer p call)).timed_out ≡ s.timed_out ++ (call ∷ []))
      × (resolved_at (fire s (timer p call)) p ≡ true)
unfolding fire
fire-unresolved s p call h =
    rw h (refl, update-flag s.invites p true ∙ or_true (get_elem? s.invites.heap p))

get_elem?-lt :
    {A : Type 0} (xs : List A) (i : ℕ) → i < length xs → (x : A) × (get_elem? xs i ≡ some x)
get_elem?-lt [] i h = absurd (omega arith)
get_elem?-lt (x ∷ xs) zero h = (x, refl)
get_elem?-lt (x ∷ xs) (suc i) h = get_elem?-lt xs i (omega arith)

-- Once an INVITE has resolved the challenge, the timers of its Call-ID change nothing at all.
fire_all-resolved :
    (s : Timers) (p : ℕ) (calls : List ℕ)
    → resolved_at s p ≡ true
    → fire_all s (timers_of p calls) ≡ s
fire_all-resolved s p [] h = refl
fire_all-resolved s p (call ∷ calls) h =
    ap (λ t. fire_all t (timers_of p calls)) (fire-resolved s p call h)
    ∙ fire_all-resolved s p calls h

-- After an INVITE of a Call-ID, and until its next challenge, any timers of earlier challenges can
-- fire in any number without ending a call.
pub fire_all-resolve :
    (s : Timers) (p : ℕ) (calls : List ℕ) → fire_all (resolve s p) (timers_of p calls) ≡ resolve s p
unfolding resolve
fire_all-resolve s p calls =
    fire_all-resolved (resolve s p) p calls
      (update-flag s.invites p true ∙ or_true (get_elem? s.invites.heap p))

-- After a challenge, when timers of its entry fire with no INVITE in between, the call of the first
-- timer to fire ends as an error and no other call does, whichever call was challenged last.
pub fire_all-schedule :
    (s : Timers) (p last first : ℕ) (calls : List ℕ)
    → p < length s.invites.heap
    → (fire_all (schedule_auth_challenge_timeout s p last) (timers_of p (first ∷ calls))).timed_out
      ≡ s.timed_out ++ (first ∷ [])
unfolding schedule_auth_challenge_timeout
fire_all-schedule s p last first calls h =
    let s' = schedule_auth_challenge_timeout s p last in
    let (invite, e) = get_elem?-lt s.invites.heap p h in
    let open_flag : resolved_at s' p ≡ false = update-flag s.invites p false ∙ rw e refl in
    let (out, flag) = fire-unresolved s' p first open_flag in
    ap (λ (t : Timers). t.timed_out) (fire_all-resolved (fire s' (timer p first)) p calls flag)
    ∙ out
