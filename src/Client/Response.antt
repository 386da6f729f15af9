-- ===== src/Client/Response.antt =====
-- `sipResponse` of pkg/sip/outbound.go: the wait for the final response of a client transaction. What
-- the loop selects on comes as a list of events; a list that ends leaves it waiting.
pub mod First
use sip_video.Prelude.{
  ℕ, suc, ◌+◌, ◌/◌, Option, none, some, Bool, true, false, List, [], ◌∷◌, ◌==◌, if◌then◌else◌,
}
use sip_video.Text.{Bytes}

pub record ToHeader : Type 0 where
  pub address : Bytes
  pub tag : Option Bytes

-- The parts of a `sip.Response` that the client reads, with what `GetHeader` finds in it.
pub record Response : Type 0 where
  pub status_code : ℕ
  pub reason : Bytes
  pub body : Bytes
  pub to : Option ToHeader
  pub www_authenticate : Option Bytes
  pub proxy_authenticate : Option Bytes
  pub twilio_error : Option Bytes

pub data TxEvent : Type 0 where
  ctx_done stopped tx_done : TxEvent
  responded : Response → TxEvent

-- The last one counts the intermediate responses.
pub data TxError : Type 0 where
  request_timeout shutting_down : TxError
  not_completed : ℕ → TxError

pub data TxResult : Type 0 where
  waiting : TxResult
  final : Response → TxResult
  failed : TxError → TxResult

-- The result, whether the transaction was cancelled, and the responses that `setState` was called
-- with, in order.
pub record TxRun : Type 0 where
  pub result : TxResult
  pub cancelled : Bool
  pub states : List Response

abbrev pub add_state : Response → TxRun → TxRun
add_state r run = record run { states = r ∷ run.states }

abbrev pub is_provisional : Response → Bool
is_provisional r = r.status_code / 100 == 1

abbrev pub ended : TxResult → Bool → TxRun
ended result cancelled = record { result = result; cancelled = cancelled; states = [] }

unfoldable pub response_loop : ℕ → List TxEvent → TxRun
response_loop cnt [] = ended waiting false
response_loop cnt (ctx_done ∷ es) = ended (failed request_timeout) true
response_loop cnt (stopped ∷ es) = ended (failed shutting_down) true
response_loop cnt (tx_done ∷ es) = ended (failed (not_completed cnt)) false
response_loop cnt (responded r ∷ es) =
    let rest = response_loop (cnt + 1) es in
    add_state r (if is_provisional r then rest else ended (final r) false)

unfoldable pub sip_response : List TxEvent → TxRun
unfolding response_loop
sip_response es = response_loop 0 es
