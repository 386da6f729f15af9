-- ===== src/Client/Dialog/Refinement.antt =====
-- Every run of the operations of `sipOutbound` of pkg/sip/outbound.go follows the protocol of two phases.
use sip_video.Prelude.{ℕ, Option, Bool, List, [], ◌∷◌, ◌++◌}
use sip_video.Prelude.Int.{ℤ}
use sip_video.Text.{Bytes}
use sip_video.Client.Response.{TxEvent}
use sip_video.Client.Invite.{OutInvite, Message, SipOutbound, Account, make_invite}
use sip_video.Client.Dialog.{
  new_dialog, record_invite, set_local_sdp, drop, accept_bye, ack_invite_ok, close,
}
use sip_video.Client.Dialog.Phases.{Phase, Step}
use sip_video.Client.Refer.{transfer_call}
use sip_video.Protocol.Status.{ErrorCode}
use sip_video.Protocol.Refer.{ReferEvent}

-- The operations on a dialog; `dial` is `Invite`.
pub data Op : Type 0 where
  dial : Account → Op
  recorded : ℕ → Op
  set_sdp : Bytes → Op
  accepts_bye acks_invite drops : Op
  transfers : Bool → Option (List TxEvent) → List ReferEvent → Op
  closes : Bool → Option (List TxEvent) → Op

-- Steps of the protocol one after the other.
pub data Steps : Phase → List Message → Phase → Type 0 where
  done : {p : Phase} → Steps p [] p
  then_step :
      {p q r : Phase} {ms ns : List Message} → Steps p ms q → Step q ns r → Steps p (ns ++ ms) r

module _ {Challenge : Type 0} (parse_challenge : Bytes → Option Challenge)
    (digest : Challenge → Bytes → Account → Option Bytes) {S : Type 0}
    (transact : S → OutInvite → S × Option (List TxEvent))
    (get_error_code : ℤ → Bytes → ErrorCode) where
  unfoldable pub step : Op → S × SipOutbound → S × SipOutbound
  step (dial account) (s, c) = (make_invite parse_challenge digest transact account s c).0
  step (recorded cseq) (s, c) = (s, record_invite cseq c)
  step (set_sdp sdp) (s, c) = (s, set_local_sdp sdp c)
  step accepts_bye (s, c) = (s, accept_bye c)
  step acks_invite (s, c) = (s, (ack_invite_ok c).0)
  step drops (s, c) = (s, drop c)
  step (transfers closing events es) (s, c) =
      (s, (transfer_call get_error_code closing events es c).0)
  step (closes closing events) (s, c) = (s, close closing events c)

  -- The operations in their order, the newest first.
  unfoldable pub run : List Op → S → S × SipOutbound
  unfolding step
  run [] s = (s, new_dialog)
  run (op ∷ ops) s = step op (run ops s)
