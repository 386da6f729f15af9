-- ===== src/Service/Transfers.antt =====
-- Transfers on request in pkg/sip/service.go: one process for each call, and the requests that wait for
-- it. A pending transfer is shared, so the table of them holds its place in a heap; its channel has
-- room for one result. The processes that run are a list, each with the pending transfer it is for.
pub mod Single
pub mod Waiters
use sip_video.Prelude.{
  ℕ, ◌+◌, Option, none, some, Bool, true, false, ◌&&◌, List, [], ◌∷◌, ◌++◌, length, get_elem?, set,
  if◌then◌else◌,
}
use sip_video.Text.{Bytes, bytes_eq}
use sip_video.Calls.State.{insert, lookup, delete}

-- The channel: the result that lies in it, and whether it is closed. A result is an error or none.
pub record PendingTransfer (E : Type 0) : Type 0 where
  pub transfer_to : Bytes
  pub buffer : Option (Option E)
  pub closed : Bool

pub record Transfers (E : Type 0) : Type 0 where
  pub pending_transfers : List (Bytes × ℕ)
  pub heap : List (PendingTransfer E)
  pub running : List (Bytes × ℕ)

-- A request is refused by the check of the provider or as one to elsewhere, or it waits.
pub data Requested (E : Type 0) : Type 0 where
  refused : E → Requested E
  elsewhere : Requested E
  waits : ℕ → Requested E

pub data ProviderType : Type 0 where
  internal_provider other_provider : ProviderType

pub record ProviderInfo : Type 0 where
  pub kind : ProviderType
  pub prevent_transfer : Bool

pub data ProviderError : Type 0 where
  unknown_call unsupported : ProviderError

abbrev pub is_internal : ProviderType → Bool
is_internal internal_provider = true
is_internal other_provider = false

unfoldable pub validate_call_provider : Option ProviderInfo → Option ProviderError
validate_call_provider none = none
validate_call_provider (some info) =
    if is_internal info.kind && info.prevent_transfer then some unsupported else none

-- The call's provider, in the table of outbound calls and then in that of inbound ones.
abbrev pub check_call :
    Option (Option ProviderInfo) → Option (Option ProviderInfo) → Option ProviderError
unfolding validate_call_provider
check_call (some out) incoming = validate_call_provider out
check_call none (some incoming) = validate_call_provider incoming
check_call none none = some unknown_call

-- What the service needs to know of a call: its provider, if the call is there.
pub record Lookups : Type 0 where
  pub outbound : Bytes → Option (Option ProviderInfo)
  pub inbound : Bytes → Option (Option ProviderInfo)

unfoldable pub check_internal_provider_request : Lookups → Bytes → Option ProviderError
unfolding check_call
check_internal_provider_request calls call = check_call (calls.outbound call) (calls.inbound call)

module _ {E : Type 0} (check : Bytes → Option E) where
  abbrev pub is_for : Bytes → Option (PendingTransfer E) → Bool
  is_for to none = false
  is_for to (some pending) = bytes_eq pending.transfer_to to

  -- `getOrCreatePendingTransfer`, and the process of a new one.
  abbrev pub get_or_create : Bytes → Bytes → Transfers E → Option ℕ → Transfers E × Requested E
  get_or_create call to s (some p) =
      (s, if is_for to (get_elem? s.heap p) then waits p else elsewhere)
  get_or_create call to s none = (
    record {
      pending_transfers = insert call (length s.heap) s.pending_transfers;
      heap = s.heap ++ (record { transfer_to = to; buffer = none; closed = false } ∷ []);
      running = (call, length s.heap) ∷ s.running;
    },
    waits (length s.heap),
  )

  unfoldable pub request_for : Bytes → Bytes → Transfers E → Option E → Transfers E × Requested E
  unfolding lookup
  request_for call to s (some e) = (s, refused e)
  request_for call to s none = get_or_create call to s (lookup call s.pending_transfers)

  -- `transferSIPParticipant` up to its wait.
  unfoldable pub request_transfer : Bytes → Bytes → Transfers E → Transfers E × Requested E
  unfolding request_for
  request_transfer call to s = request_for call to s (check call)

-- A process that ends, for a call: the first of them, if there is one.
abbrev pub keep_running : Bytes × ℕ → Option (ℕ × List (Bytes × ℕ)) → Option (ℕ × List (Bytes × ℕ))
keep_running entry none = none
keep_running entry (some (q, left)) = some (q, entry ∷ left)

abbrev pub take_running : Bytes → List (Bytes × ℕ) → Option (ℕ × List (Bytes × ℕ))
take_running call [] = none
take_running call ((k, p) ∷ running) =
    let rest = take_running call running in
    if bytes_eq k call then some (p, running) else keep_running (k, p) rest

module _ {E : Type 0} where
  abbrev pub or_full : Option E → Option (Option E) → Option (Option E)
  or_full err none = some err
  or_full err (some old) = some old

  abbrev pub close_pending :
      Option E
      → ℕ
      → List (PendingTransfer E)
      → Option (PendingTransfer E)
      → List (PendingTransfer E)
  close_pending err p heap none = heap
  close_pending err p heap (some pending) =
      set heap p (record pending { buffer = or_full err pending.buffer; closed = true })

  unfoldable pub finish_with :
      Bytes → Option E → Transfers E → Option (ℕ × List (Bytes × ℕ)) → Transfers E
  unfolding delete
  finish_with call err s none = s
  finish_with call err s (some (p, left)) = record {
    pending_transfers = delete call s.pending_transfers;
    heap = close_pending err p s.heap (get_elem? s.heap p);
    running = left;
  }

  -- The end of a process: its result is sent, the channel closed and the entry deleted.
  unfoldable pub finish_transfer : Bytes → Option E → Transfers E → Transfers E
  unfolding finish_with
  finish_transfer call err s = finish_with call err s (take_running call s.running)

  -- Receiving from a channel: what lies in it, and from a closed one that is empty no error. `none`
  -- waits.
  abbrev pub receive_from :
      ℕ → Transfers E → PendingTransfer E → Option (Option E) → Transfers E × Option (Option E)
  receive_from p s pending (some result) =
      (record s { heap = set s.heap p (record pending { buffer = none }) }, some result)
  receive_from p s pending none = (s, if pending.closed then some none else none)

  abbrev pub receive_found :
      ℕ → Transfers E → Option (PendingTransfer E) → Transfers E × Option (Option E)
  receive_found p s none = (s, none)
  receive_found p s (some pending) = receive_from p s pending pending.buffer

  unfoldable pub receive : ℕ → Transfers E → Transfers E × Option (Option E)
  receive p s = receive_found p s (get_elem? s.heap p)
