-- ===== src/Calls/State.antt =====
-- `CallState` of pkg/sip/analytics.go: the call's record, sent to the RPC client when it changes. The
-- record (`SIPCallInfo`) is a type of its own, and the client a parameter on a state of its own,
-- which says whether it accepted a request. The mutex makes each operation one step.
pub mod Sync
pub mod Transfers
use sip_video.Prelude.{ℕ, Option, none, some, Bool, true, false, not, List, [], ◌∷◌, if◌then◌else◌}
use sip_video.Text.{Bytes, bytes_eq}

pub data TransferStatus : Type 0 where
  ongoing failed successful : TransferStatus

-- `SIPTransferInfo`; `Code` stands for a SIP status.
pub record TransferInfo (Code : Type 0) : Type 0 where
  pub transfer_id : Bytes
  pub transfer_to : Bytes
  pub initiated_at : ℕ
  pub completed_at : ℕ
  pub error : Bytes
  pub status : TransferStatus
  pub status_code : Option Code

pub data UpdateRequest (Info Code : Type 0) : Type 0 where
  call_info : Info → UpdateRequest Info Code
  transfer_info : TransferInfo Code → UpdateRequest Info Code

-- A client that is missing is a nil pointer.
pub record CallState (Info Code C : Type 0) : Type 0 where
  pub cli : Option C
  pub info : Info
  pub transfer_infos : List (Bytes × TransferInfo Code)
  pub dirty : Bool

-- An error with its text, and the SIP status that `errors.As` finds in it.
pub record TransferError (Code : Type 0) : Type 0 where
  pub text : Bytes
  pub sip_status : Option Code

unfoldable pub new_call_state : {Info Code C : Type 0} → Option C → Info → CallState Info Code C
new_call_state cli initial = record { cli = cli; info = initial; transfer_infos = []; dirty = true }

-- A Go map: `m[k] = v`, `m[k]` and `delete(m, k)`.
unfoldable pub insert : {V : Type 0} → Bytes → V → List (Bytes × V) → List (Bytes × V)
insert k v [] = (k, v) ∷ []
insert k v ((j, w) ∷ m) =
    let rest = insert k v m in if bytes_eq j k then (k, v) ∷ m else (j, w) ∷ rest

unfoldable pub lookup : {V : Type 0} → Bytes → List (Bytes × V) → Option V
lookup k [] = none
lookup k ((j, w) ∷ m) = let rest = lookup k m in if bytes_eq j k then some w else rest

unfoldable pub delete : {V : Type 0} → Bytes → List (Bytes × V) → List (Bytes × V)
delete k [] = []
delete k ((j, w) ∷ m) = let rest = delete k m in if bytes_eq j k then rest else (j, w) ∷ rest

module _ {Info Code C : Type 0} (send : C → UpdateRequest Info Code → C × Bool) where
  unfoldable pub defer_update : (Info → Info) → CallState Info Code C → CallState Info Code C
  defer_update f s = record s { info = f s.info; dirty = true }

  abbrev pub after_send : CallState Info Code C → C × Bool → CallState Info Code C
  after_send s (c, ok) = record s { cli = some c; dirty = if ok then false else s.dirty }

  abbrev pub flush_to : CallState Info Code C → Option C → CallState Info Code C
  flush_to s none = record s { dirty = false }
  flush_to s (some c) = after_send s (send c (call_info s.info))

  -- `ForceFlush`, and the end of `Update` and `Flush`
  unfoldable pub force_flush : CallState Info Code C → CallState Info Code C
  force_flush s = flush_to s s.cli

  unfoldable pub flush : CallState Info Code C → CallState Info Code C
  unfolding force_flush
  flush s = if not s.dirty then s else force_flush s

  unfoldable pub update : (Info → Info) → CallState Info Code C → CallState Info Code C
  unfolding force_flush
  update f s = force_flush (record s { info = f s.info; dirty = true })

  abbrev pub new_transfer : Bytes → Bytes → ℕ → TransferInfo Code
  new_transfer id to now = record {
    transfer_id = id;
    transfer_to = to;
    initiated_at = now;
    completed_at = 0;
    error = [];
    status = ongoing;
    status_code = none;
  }

  abbrev pub start_with :
      TransferInfo Code → CallState Info Code C → Option C → Option (CallState Info Code C)
  start_with ti s none = none
  start_with ti s (some c) = some (record s {
    cli = some (send c (transfer_info ti)).0;
    transfer_infos = insert ti.transfer_id ti s.transfer_infos;
  })

  -- `none` is the panic of a call through a missing client; `id` is the new identifier.
  unfoldable pub start_transfer :
      Bytes → Bytes → ℕ → CallState Info Code C → Option (CallState Info Code C)
  unfolding insert
  start_transfer id to now s = start_with (new_transfer id to now) s s.cli

  abbrev pub completed : ℕ → Option (TransferError Code) → TransferInfo Code → TransferInfo Code
  completed now none ti = record ti { completed_at = now; status = successful }
  completed now (some e) ti = record ti {
    completed_at = now;
    error = e.text;
    status = failed;
    status_code = elim e.sip_status [ none ↦ ti.status_code | some code ↦ some code ];
  }

  abbrev pub end_with :
      TransferInfo Code → CallState Info Code C → Option C → Option (CallState Info Code C)
  end_with ti s none = none
  end_with ti s (some c) = some (record s { cli = some (send c (transfer_info ti)).0 })

  abbrev pub end_found :
      ℕ
      → Option (TransferError Code)
      → CallState Info Code C
      → Option (TransferInfo Code)
      → Option (CallState Info Code C)
  end_found now err s none = some s
  end_found now err s (some ti) = end_with (completed now err ti) s s.cli

  unfoldable pub end_transfer :
      Bytes
      → ℕ
      → Option (TransferError Code)
      → CallState Info Code C
      → Option (CallState Info Code C)
  unfolding lookup delete
  end_transfer id now err s =
      end_found now err (record s { transfer_infos = delete id s.transfer_infos })
        (lookup id s.transfer_infos)
