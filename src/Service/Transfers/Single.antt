-- ===== src/Service/Transfers/Single.antt =====
-- One process at a time transfers a call in pkg/sip/service.go.
use sip_video.Prelude.{
  ℕ, ◌+◌, ◌≤◌, ◌≡◌, refl, ap, ◌∙◌, Option, none, some, false, List, [], ◌∷◌, arith, length,
  get_elem?, if◌then◌else◌, Bool-cases, inl, inr,
}
use sip_video.Text.{Bytes, bytes_eq}
use sip_video.Text.Laws.{bytes_eq_refl, bytes_eq→eq}
use sip_video.Calls.State.{insert, lookup, delete}
use sip_video.Service.Transfers.{
  Transfers, get_or_create, request_for, request_transfer, PendingTransfer, take_running,
  keep_running, finish_with, finish_transfer, receive_from, receive_found, receive,
}

-- How many processes run for a call.
abbrev pub processes : Bytes → List (Bytes × ℕ) → ℕ
processes k [] = 0
processes k ((j, p) ∷ running) = (if bytes_eq j k then 1 else 0) + processes k running

abbrev pub has_entry : Option ℕ → ℕ
has_entry none = 0
has_entry (some p) = 1

-- A call has one process when it is in the table, and none otherwise.
abbrev pub IsTracked : {E : Type 0} → Transfers E → Type 0
IsTracked s = (k : Bytes) → processes k s.running ≡ has_entry (lookup k s.pending_transfers)

lookup-insert_same : (k : Bytes) (v : ℕ) (m : List (Bytes × ℕ)) → lookup k (insert k v m) ≡ some v
unfolding lookup insert
lookup-insert_same k v [] = rw (bytes_eq_refl k) refl
lookup-insert_same k v ((j, w) ∷ m) = ground (arith, lookup-insert_same k v m, bytes_eq_refl k)

lookup-insert_other :
    (j k : Bytes) (v : ℕ) (m : List (Bytes × ℕ))
    → bytes_eq k j ≡ false
    → lookup j (insert k v m) ≡ lookup j m
unfolding lookup insert
lookup-insert_other j k v [] e = rw e refl
lookup-insert_other j k v ((i, w) ∷ m) e =
    ground (arith, lookup-insert_other j k v m e, bytes_eq→eq i k)

lookup-delete_same : (k : Bytes) (m : List (Bytes × ℕ)) → lookup k (delete k m) ≡ none
unfolding lookup delete
lookup-delete_same k [] = refl
lookup-delete_same k ((j, w) ∷ m) = ground (arith, lookup-delete_same k m)

lookup-delete_other :
    (j k : Bytes) (m : List (Bytes × ℕ)) → bytes_eq k j ≡ false → lookup j (delete k m) ≡ lookup j m
unfolding lookup delete
lookup-delete_other j k [] e = refl
lookup-delete_other j k ((i, w) ∷ m) e =
    ground (arith, lookup-delete_other j k m e, bytes_eq→eq i k)

-- Taking a process of a call out leaves the others.
abbrev Taken : Bytes → List (Bytes × ℕ) → Option (ℕ × List (Bytes × ℕ)) → Type 0
Taken k running none = processes k running ≡ 0
Taken k running (some (p, left)) =
    (j : Bytes) → processes j running ≡ (if bytes_eq k j then 1 else 0) + processes j left

kept-Taken :
    (k i : Bytes) (q : ℕ) (running : List (Bytes × ℕ)) (r : Option (ℕ × List (Bytes × ℕ)))
    → bytes_eq i k ≡ false
    → Taken k running r
    → Taken k ((i, q) ∷ running) (keep_running (i, q) r)
kept-Taken k i q running none e v = ground (arith, e, v)
kept-Taken k i q running (some (p, left)) e v = λ j. ground (arith, e, v j)

take_running-Taken :
    (k : Bytes) (running : List (Bytes × ℕ)) → Taken k running (take_running k running)
take_running-Taken k [] = refl
take_running-Taken k ((i, q) ∷ running) = elim (Bool-cases (bytes_eq i k)) [
  | inl e ↦
      rw e
        (λ j. ap (λ x. (if bytes_eq x j then 1 else 0) + processes j running) (bytes_eq→eq i k e))
  | inr e ↦
      rw e (kept-Taken k i q running (take_running k running) e (take_running-Taken k running))
]

is_some_small : (o : Option ℕ) → has_entry o ≤ 1
is_some_small none = omega arith
is_some_small (some p) = omega arith

insert-processes :
    (call k : Bytes) (p : ℕ) (table running : List (Bytes × ℕ))
    → lookup call table ≡ none
    → processes k running ≡ has_entry (lookup k table)
    → processes k ((call, p) ∷ running) ≡ has_entry (lookup k (insert call p table))
insert-processes call k p table running absent v = elim (Bool-cases (bytes_eq call k)) [
  | inl e ↦
      let same = bytes_eq→eq call k e in
      let here : lookup k (insert call p table) ≡ some p =
        rw⁻¹ same (lookup-insert_same call p table) in
      let before : lookup k table ≡ none = rw⁻¹ same absent in
      rw (here, e) (omega (arith, v ∙ ap has_entry before))
  | inr e ↦ rw (e, lookup-insert_other k call p table e) (omega (arith, v))
]

delete-processes :
    (call k : Bytes) (table running left : List (Bytes × ℕ))
    → processes k running ≡ (if bytes_eq call k then 1 else 0) + processes k left
    → processes k running ≡ has_entry (lookup k table)
    → processes k left ≡ has_entry (lookup k (delete call table))
delete-processes call k table running left t v = elim (Bool-cases (bytes_eq call k)) [
  | inl e ↦
      let gone : lookup k (delete call table) ≡ none =
        rw⁻¹ (bytes_eq→eq call k e) (lookup-delete_same call table) in
      rw gone (ground (arith, e, t, v, is_some_small (lookup k table)))
  | inr e ↦ rw (lookup-delete_other k call table e) (ground (arith, e, t, v))
]

module _ {E : Type 0} where
  finish_with-IsTracked :
      (call : Bytes) (err : Option E) (s : Transfers E) (r : Option (ℕ × List (Bytes × ℕ)))
      → Taken call s.running r
      → IsTracked s
      → IsTracked (finish_with call err s r)
  unfolding finish_with
  finish_with-IsTracked call err s none t v = v
  finish_with-IsTracked call err s (some (p, left)) t v =
      λ k. delete-processes call k s.pending_transfers s.running left (t k) (v k)

  get_or_create-IsTracked :
      (check : Bytes → Option E) (call to : Bytes) (s : Transfers E) (o : Option ℕ)
      → lookup call s.pending_transfers ≡ o
      → IsTracked s
      → IsTracked (get_or_create check call to s o).0
  get_or_create-IsTracked check call to s (some p) e v = v
  get_or_create-IsTracked check call to s none e v =
      λ k. insert-processes call k (length s.heap) s.pending_transfers s.running e (v k)

  request_for-IsTracked :
      (check : Bytes → Option E) (call to : Bytes) (s : Transfers E) (o : Option E)
      → IsTracked s
      → IsTracked (request_for check call to s o).0
  unfolding request_for
  request_for-IsTracked check call to s (some e) v = v
  request_for-IsTracked check call to s none v =
      get_or_create-IsTracked check call to s (lookup call s.pending_transfers) refl v

  receive_found-IsTracked :
      (p : ℕ) (s : Transfers E) (o : Option (PendingTransfer E))
      → IsTracked s
      → IsTracked (receive_found p s o).0
  receive_found-IsTracked p s none v = v
  receive_found-IsTracked p s (some pending) v = received pending.buffer
    where
      received : (b : Option (Option E)) → IsTracked (receive_from p s pending b).0
      received none = v
      received (some result) = v

-- The steps of the service, in any order.
pub data Op (E : Type 0) : Type 0 where
  requests : Bytes → Bytes → Op E
  finishes : Bytes → Option E → Op E
  receives : ℕ → Op E

abbrev pub no_transfers : {E : Type 0} → Transfers E
no_transfers = record { pending_transfers = []; heap = []; running = [] }

module _ {E : Type 0} (check : Bytes → Option E) where
  unfoldable pub step : Op E → Transfers E → Transfers E
  step (requests call to) s = (request_transfer check call to s).0
  step (finishes call err) s = finish_transfer call err s
  step (receives p) s = (receive p s).0

  unfoldable pub run : List (Op E) → Transfers E
  unfolding step
  run [] = no_transfers
  run (op ∷ ops) = step op (run ops)

  step-IsTracked : (op : Op E) (s : Transfers E) → IsTracked s → IsTracked (step op s)
  unfolding step request_transfer finish_transfer receive
  step-IsTracked (requests call to) s v = request_for-IsTracked check call to s (check call) v
  step-IsTracked (finishes call err) s v =
      finish_with-IsTracked call err s (take_running call s.running)
        (take_running-Taken call s.running) v
  step-IsTracked (receives p) s v = receive_found-IsTracked p s (get_elem? s.heap p) v

  run-IsTracked : (ops : List (Op E)) → IsTracked (run ops)
  unfolding run lookup
  run-IsTracked [] = λ k. refl
  run-IsTracked (op ∷ ops) = step-IsTracked op (run ops) (run-IsTracked ops)

  -- Whatever requests come for transfers, however their processes end and whoever waits, at most one
  -- process transfers a call at a time, and one does exactly while the call is in the table.
  pub run-single :
      (ops : List (Op E)) (call : Bytes)
      → (processes call (run ops).running ≤ 1)
        × (processes call (run ops).running ≡ has_entry (lookup call (run ops).pending_transfers))
  run-single ops call =
      let v = run-IsTracked ops call in
      (rw v (is_some_small (lookup call (run ops).pending_transfers)), v)
