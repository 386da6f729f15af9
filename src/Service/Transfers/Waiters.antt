-- ===== src/Service/Transfers/Waiters.antt =====
-- What the requests that wait for one transfer of pkg/sip/service.go are told.
use sip_video.Prelude.{
  ℕ, zero, suc, ◌≡◌, refl, ap, ◌∙◌, Option, none, some, true, false, List, [], ◌∷◌, get_elem?, set,
  arith, replicate, if◌then◌else◌,
}
use sip_video.Text.{Bytes}
use sip_video.Service.Transfers.{
  take_running, or_full, finish_with, finish_transfer, PendingTransfer, Transfers, receive_from,
  receive_found, receive,
}

get_elem?-set :
    {A : Type 0} (xs : List A) (p : ℕ) (x y : A)
    → get_elem? xs p ≡ some x
    → get_elem? (set xs p y) p ≡ some y
get_elem?-set [] p x y e = ground (arith, e)
get_elem?-set (z ∷ xs) zero x y e = refl
get_elem?-set (z ∷ xs) (suc p) x y e = get_elem?-set xs p x y e

module _ {E : Type 0} where
  -- Some requests that receive one after the other, and what each is told.
  abbrev pub receive_all : ℕ → ℕ → Transfers E → List (Option (Option E))
  receive_all zero p s = []
  receive_all (suc n) p s = (receive p s).1 ∷ receive_all n p (receive p s).0

  receive-closed :
      (p : ℕ) (s : Transfers E) (pending : PendingTransfer E)
      → get_elem? s.heap p ≡ some pending
      → pending.closed ≡ true
      → pending.buffer ≡ none
      → receive p s ≡ (s, some none)
  unfolding receive
  receive-closed p s pending e closed empty =
      ap (receive_found p s) e
      ∙ ap (receive_from p s pending) empty
      ∙ ap (λ b. (s, if b then some none else none)) closed

  receive_all-closed :
      (n p : ℕ) (s : Transfers E) (pending : PendingTransfer E)
      → get_elem? s.heap p ≡ some pending
      → pending.closed ≡ true
      → pending.buffer ≡ none
      → receive_all n p s ≡ replicate n (some none)
  receive_all-closed zero p s pending e closed empty = refl
  receive_all-closed (suc n) p s pending e closed empty =
      rw (receive-closed p s pending e closed empty)
        (ap (λ rs. some none ∷ rs) (receive_all-closed n p s pending e closed empty))

  receive_all-buffered :
      (n p : ℕ) (s : Transfers E) (pending : PendingTransfer E) (result : Option E)
      → get_elem? s.heap p ≡ some pending
      → pending.closed ≡ true
      → pending.buffer ≡ some result
      → receive_all (suc n) p s ≡ some result ∷ replicate n (some none)
  unfolding receive
  receive_all-buffered n p s pending result e closed full =
      let s' : Transfers E = record s { heap = set s.heap p (record pending { buffer = none }) } in
      let one : receive p s ≡ (s', some result) =
        ap (receive_found p s) e ∙ ap (receive_from p s pending) full in
      rw one (
        ap (λ rs. some result ∷ rs)
          (receive_all-closed n p s' (record pending { buffer = none })
            (get_elem?-set s.heap p pending (record pending { buffer = none }) e) closed refl))

  finish_transfer-found :
      (call : Bytes) (result : Option E) (s : Transfers E) (p : ℕ) (left : List (Bytes × ℕ))
      (pending : PendingTransfer E)
      → take_running call s.running ≡ some (p, left)
      → get_elem? s.heap p ≡ some pending
      → (finish_transfer call result s).heap
        ≡ set s.heap p (record pending { buffer = or_full result pending.buffer; closed = true })
  unfolding finish_transfer finish_with
  finish_transfer-found call result s p left pending running e = rw running (rw e refl)

  -- While the process of a transfer runs and its channel is empty, a request that waits for it is told
  -- nothing. When the process ends, with an error or without one, the first request to receive gets that
  -- result and every other one is told that there was no error, also when the transfer failed.
  pub finish_transfer-receive_all :
      (n : ℕ) (call : Bytes) (result : Option E) (s : Transfers E) (p : ℕ) (left : List (Bytes × ℕ))
      (pending : PendingTransfer E)
      → take_running call s.running ≡ some (p, left)
      → get_elem? s.heap p ≡ some pending
      → pending.buffer ≡ none
      → pending.closed ≡ false
      → (receive p s ≡ (s, none))
        × (receive_all (suc n) p (finish_transfer call result s)
            ≡ some result ∷ replicate n (some none))
  unfolding receive
  finish_transfer-receive_all n call result s p left pending running e empty opened =
      let ended : PendingTransfer E = record pending {
        buffer = or_full result pending.buffer;
        closed = true;
      } in
      let found : get_elem? (finish_transfer call result s).heap p ≡ some ended =
        ap (λ h. get_elem? h p) (finish_transfer-found call result s p left pending running e)
        ∙ get_elem?-set s.heap p pending ended e in
      (
        ap (receive_found p s) e
            ∙ ap (receive_from p s pending) empty
            ∙ ap (λ b. (s, if b then some none else none)) opened,
        receive_all-buffered n p (finish_transfer call result s) ended result found refl
            (ap (or_full result) empty),
      )
