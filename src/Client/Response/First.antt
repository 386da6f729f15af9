-- ===== src/Client/Response/First.antt =====
-- Which event ends `sipResponse` of pkg/sip/outbound.go, and how.
use sip_video.Prelude.{
  ℕ, ◌+◌, ◌≡◌, refl, ap, ◌∙◌, true, false, List, [], ◌∷◌, ◌++◌, length, All, arith,
}
use sip_video.Client.Response.{
  Response, TxEvent, ctx_done, stopped, tx_done, responded, request_timeout, shutting_down,
  not_completed, final, failed, TxRun, add_state, is_provisional, response_loop, sip_response,
}

abbrev pub IsProvisional : Response → Type 0
IsProvisional r = is_provisional r ≡ true

abbrev pub all_responded : List Response → List TxEvent
all_responded [] = []
all_responded (r ∷ rs) = responded r ∷ all_responded rs

-- An event that ends the wait.
abbrev pub IsDecisive : TxEvent → Type 0
IsDecisive ctx_done = Unit {0}
IsDecisive stopped = Unit {0}
IsDecisive tx_done = Unit {0}
IsDecisive (responded r) = is_provisional r ≡ false

-- What such an event returns after the provisional responses `rs`, `n` of them.
abbrev pub outcome : ℕ → List Response → TxEvent → TxRun
outcome n rs ctx_done = record { result = failed request_timeout; cancelled = true; states = rs }
outcome n rs stopped = record { result = failed shutting_down; cancelled = true; states = rs }
outcome n rs tx_done = record { result = failed (not_completed n); cancelled = false; states = rs }
outcome n rs (responded r) = record { result = final r; cancelled = false; states = rs ++ r ∷ [] }

add_state-outcome :
    (n : ℕ) (r : Response) (rs : List Response) (e : TxEvent)
    → add_state r (outcome n rs e) ≡ outcome n (r ∷ rs) e
add_state-outcome n r rs ctx_done = refl
add_state-outcome n r rs stopped = refl
add_state-outcome n r rs tx_done = refl
add_state-outcome n r rs (responded x) = refl

response_loop-outcome :
    (cnt : ℕ) (rs : List Response) (e : TxEvent) (rest : List TxEvent)
    → All IsProvisional rs
    → IsDecisive e
    → response_loop cnt (all_responded rs ++ e ∷ rest) ≡ outcome (cnt + length rs) rs e
unfolding response_loop
response_loop-outcome cnt [] ctx_done rest v d = refl
response_loop-outcome cnt [] stopped rest v d = refl
response_loop-outcome cnt [] tx_done rest v d = ground arith
response_loop-outcome cnt [] (responded r) rest v d = rw d refl
response_loop-outcome cnt (r ∷ rs) e rest v d = rw v.0 (
    ap (add_state r) (response_loop-outcome (cnt + 1) rs e rest v.1 d)
    ∙ add_state-outcome (cnt + 1 + length rs) r rs e
    ∙ ap (λ n. outcome n (r ∷ rs) e) (omega arith))

-- The wait ends at the first event that is no provisional response, whatever comes after it: with
-- that response when it is one, and otherwise with the error for the event, the transaction being
-- cancelled on a timeout and on shutdown only. Each response up to there was reported once, in
-- order, and the error of a transaction that died tells how many came.
pub sip_response-outcome :
    (rs : List Response) (e : TxEvent) (rest : List TxEvent)
    → All IsProvisional rs
    → IsDecisive e
    → sip_response (all_responded rs ++ e ∷ rest) ≡ outcome (length rs) rs e
unfolding sip_response
sip_response-outcome rs e rest v d =
    response_loop-outcome 0 rs e rest v d ∙ ap (λ n. outcome n rs e) (omega arith)
