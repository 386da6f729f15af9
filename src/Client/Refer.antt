-- ===== src/Client/Refer.antt =====
-- `transferCall` of pkg/sip/outbound.go: the REFER for a dialog, and the wait for what comes of it. The
-- mutex is held until the REFER is made, and no other REFER is made during the wait.
use sip_video.Prelude.{Option, none, some, Bool, List, ◌∷◌, if◌then◌else◌}
use sip_video.Prelude.Int.{ℤ}
use sip_video.Text.{Bytes}
use sip_video.Client.Response.{Response, TxEvent}
use sip_video.Client.Invite.{OutInvite, refer, SipOutbound, set_cseq}
use sip_video.Protocol.Status.{ErrorCode}
use sip_video.Protocol.Refer.{Waited, ReferEvent, not_established, hung_up, complete_refer}

abbrev pub refer_sent : SipOutbound → SipOutbound
refer_sent c = record (set_cseq c) { refer_cseq = c.next_cseq; sent = refer c.next_cseq ∷ c.sent }

module _ (get_error_code : ℤ → Bytes → ErrorCode) where
  unfoldable pub transfer_for :
      Bool
      → Option (List TxEvent)
      → List ReferEvent
      → Option OutInvite
      → Option Response
      → SipOutbound
      → SipOutbound × Waited
  transfer_for closing events es none r c = (c, some (some not_established))
  transfer_for closing events es (some m) none c = (c, some (some not_established))
  transfer_for closing events es (some m) (some r) c =
      if closing
      then (c, some (some hung_up))
      else (refer_sent c, complete_refer get_error_code c.next_cseq events es)

  unfoldable pub transfer_call :
      Bool → Option (List TxEvent) → List ReferEvent → SipOutbound → SipOutbound × Waited
  unfolding transfer_for
  transfer_call closing events es c = transfer_for closing events es c.invite_req c.invite_ok c
