-- ===== src/Client/Dialog.antt =====
-- The dialog of an outbound call after the INVITE: the rest of `sipOutbound` of pkg/sip/outbound.go, and
-- `sendAndACK` of pkg/sip/protocol.go. The mutex makes each operation one step. Whether the client is
-- closing is an argument; what the SIP library sends when the transaction of a BYE or a REFER is cancelled
-- is not modelled; what a client transaction brings is one as well, and `none` when the
-- transaction cannot be made.
pub mod Phases
pub mod Steps
pub mod Refinement
use sip_video.Prelude.{
  ℕ, Option, none, some, Bool, true, false, List, [], ◌∷◌, ◌==◌, ltb, if◌then◌else◌,
}
use sip_video.Text.{Bytes}
use sip_video.Client.Response.{Response, TxEvent, TxResult, waiting, final, failed, sip_response}
use sip_video.Client.Invite.{OutInvite, Message, bye, cancel, ack, bye_ok, SipOutbound, set_cseq}

-- The dialog as `newOutbound` makes it.
abbrev pub new_dialog : SipOutbound
new_dialog = record {
  invite_req = none;
  invite_ok = none;
  tag = [];
  local_sdp = [];
  next_cseq = 1;
  refer_cseq = 0;
  latest_invite_cseq = 0;
  sent = [];
}

abbrev pub write : Message → SipOutbound → SipOutbound
write m c = record c { sent = m ∷ c.sent }

unfoldable pub record_invite : ℕ → SipOutbound → SipOutbound
record_invite cseq c =
    if ltb c.latest_invite_cseq cseq then record c { latest_invite_cseq = cseq } else c

unfoldable pub set_local_sdp : Bytes → SipOutbound → SipOutbound
set_local_sdp sdp c = record c { local_sdp = sdp }

unfoldable pub drop : SipOutbound → SipOutbound
drop c = record c { invite_req = none; invite_ok = none; next_cseq = 0 }

unfoldable pub accept_bye : SipOutbound → SipOutbound
unfolding drop
accept_bye c = drop (write bye_ok c)

-- Whether it was sent; otherwise the call is closed already. An error of the write itself is left out.
abbrev pub ack_for : Option OutInvite → Option Response → SipOutbound → SipOutbound × Bool
ack_for (some m) (some r) c = (write ack c, true)
ack_for (some m) none c = (c, false)
ack_for none r c = (c, false)

unfoldable pub ack_invite_ok : SipOutbound → SipOutbound × Bool
ack_invite_ok c = ack_for c.invite_req c.invite_ok c

abbrev pub ack_result : TxResult → SipOutbound → SipOutbound
ack_result waiting c = c
ack_result (failed e) c = c
ack_result (final r) c = if r.status_code == 200 then write ack c else c

unfoldable pub send_and_ack : Message → Option (List TxEvent) → SipOutbound → SipOutbound
send_and_ack m none c = write m c
send_and_ack m (some events) c = ack_result (sip_response events).result (write m c)

unfoldable pub bye_for :
    Bool → Option (List TxEvent) → Option OutInvite → Option Response → SipOutbound → SipOutbound
unfolding drop send_and_ack
bye_for closing events (some m) (some r) c =
    if closing
    then write (bye none) c
    else send_and_ack (bye (some c.next_cseq)) events (drop (set_cseq c))
bye_for closing events (some m) none c = c
bye_for closing events none r c = c

unfoldable pub send_bye : Bool → Option (List TxEvent) → SipOutbound → SipOutbound
send_bye closing events c = bye_for closing events c.invite_req c.invite_ok c

unfoldable pub cancel_for : Option OutInvite → SipOutbound → SipOutbound
unfolding drop
cancel_for none c = c
cancel_for (some m) c = drop (write cancel c)

unfoldable pub send_cancel : SipOutbound → SipOutbound
send_cancel c = cancel_for c.invite_req c

unfoldable pub close_for :
    Bool → Option (List TxEvent) → Option OutInvite → Option Response → SipOutbound → SipOutbound
unfolding send_bye send_cancel drop
close_for closing events m (some r) c = send_bye closing events c
close_for closing events (some m) none c = send_cancel c
close_for closing events none none c = drop c

unfoldable pub close : Bool → Option (List TxEvent) → SipOutbound → SipOutbound
close closing events c = close_for closing events c.invite_req c.invite_ok c
