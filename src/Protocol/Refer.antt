-- ===== src/Protocol/Refer.antt =====
-- The REFER of a transfer: `sendRefer` of pkg/sip/protocol.go, and the wait that `transferCall` and
-- `TransferCall` of pkg/sip/outbound.go and pkg/sip/inbound.go end with. What the wait selects on comes
-- as a list of events, a NOTIFY as the request that `handleNotify` gets; its five seconds for one that
-- nobody waits for are left out.
pub mod Confirmed
use sip_video.Prelude.{ℕ, Option, none, some, List, [], ◌∷◌, ◌==◌, ◌||◌, if◌then◌else◌}
use sip_video.Prelude.Int.{ℤ}
use sip_video.Text.{Bytes}
use sip_video.Client.Response.{
  Response, TxEvent, TxError, TxResult, waiting, final, failed, sip_response,
}
use sip_video.Protocol.Status.{ErrorCode}
use sip_video.Protocol.Notify.{
  Parsed, parsed, rejected, NotifyRequest, Notification, TransferFailed, handle_notify,
  handle_refer_notify,
}

pub data TransferError : Type 0 where
  not_established hung_up no_from request_failed refer_canceled : TransferError
  tx_failed : TxError → TransferError
  refer_refused : ℕ → Bytes → TransferError
  transfer_failed : TransferFailed → TransferError

-- `none` is a wait that goes on; otherwise there is an error or none.
abbrev pub Waited : Type 0
Waited = Option (Option TransferError)

abbrev pub refer_result : TxResult → Waited
refer_result waiting = none
refer_result (failed e) = some (some (tx_failed e))
refer_result (final r) =
    if r.status_code == 200 || r.status_code == 202
    then some none
    else some (some (refer_refused r.status_code r.reason))

-- What the transaction brings is an argument, and `none` when it cannot be made.
unfoldable pub send_refer : Option (List TxEvent) → Waited
send_refer none = some (some request_failed)
send_refer (some events) = refer_result (sip_response events).result

pub data ReferEvent : Type 0 where
  ctx_done call_done : ReferEvent
  notify : NotifyRequest → ReferEvent

abbrev pub transfer_error : Option TransferFailed → Option TransferError
transfer_error none = none
transfer_error (some e) = some (transfer_failed e)

abbrev pub after_notify : Option (Option TransferFailed) → Waited → Waited
after_notify none rest = rest
after_notify (some result) rest = some (transfer_error result)

abbrev pub after_refer : Waited → Waited → Waited
after_refer none rest = none
after_refer (some (some e)) rest = some (some e)
after_refer (some none) rest = rest

module _ (get_error_code : ℤ → Bytes → ErrorCode) where
  -- `handleNotify` of the call: what it sends on to the one that waits.
  abbrev pub notified : ℕ → Parsed Notification → Option (Option TransferFailed)
  unfolding handle_refer_notify
  notified refer_cseq (rejected e) = none
  notified refer_cseq (parsed n) =
      handle_refer_notify get_error_code n.cseq n.status n.reason refer_cseq

  unfoldable pub await_refer : ℕ → List ReferEvent → Waited
  unfolding handle_notify notified
  await_refer refer_cseq [] = none
  await_refer refer_cseq (ctx_done ∷ es) = some (some refer_canceled)
  await_refer refer_cseq (call_done ∷ es) = some none
  await_refer refer_cseq (notify req ∷ es) =
      let rest = await_refer refer_cseq es in
      after_notify (notified refer_cseq (handle_notify req)) rest

  -- The transfer after its REFER is made.
  unfoldable pub complete_refer : ℕ → Option (List TxEvent) → List ReferEvent → Waited
  unfolding send_refer await_refer
  complete_refer refer_cseq events es = after_refer (send_refer events) (await_refer refer_cseq es)
