-- ===== src/Client/Call/Dialing.antt =====
-- `Dial` and `waitClose` of pkg/sip/outbound.go: the INVITE of a call, its media, and the wait for its end.
-- A panic is `none`. The text of an error is the library's, so an error of the INVITE comes as what
-- pkg/sip/errors.go looks for in it; an error of the transaction layer is a parameter.
use sip_video.Prelude.{ℕ, Option, none, some, Bool, true, false, List, [], ◌∷◌, if◌then◌else◌}
use sip_video.Prelude.Int.{pos}
use sip_video.Text.{Bytes}
use sip_video.Calls.Monitor.{Termination}
use sip_video.Calls.Status.{DisconnectReason, client_initiated, termination_from_room_disconnect}
use sip_video.Client.Response.{TxEvent, request_timeout, shutting_down, not_completed}
use sip_video.Client.Invite.{
  OutInvite, SipOutbound, InviteError, auth_max_retry, request_failed, missing_creds,
  no_auth_header, invalid_challenge, no_to_header, digest_failed, no_to_in_ok, no_tag_in_ok,
  tx_failed, unexpected_status, invite_failed, Account, InviteRun, make_invite,
}
use sip_video.Client.Dialog as Dialog
use sip_video.Client.Failure.{InviteCause, InviteFailure, classify_invite_error}
use sip_video.Client.Call.{
  OutboundCall, status_active, CallError, media_deadline, invite_error, Hangup, close,
  close_with_timeout, set_err_status, ensure_closed,
}

-- An error with nothing of what is looked for.
abbrev pub plain : InviteCause
plain = record {
  sdp = none;
  sip_status = none;
  request_timeout = false;
  deadline = false;
  cancelled = false;
  addr = false;
  dns = false;
  op = false;
  auth = false;
}

abbrev pub with_status : ℕ → InviteCause
with_status code = record plain { sip_status = some (pos code) }

-- What the errors of `Invite` wrap; `request` is the error of the transaction layer.
unfoldable pub cause_of : InviteCause → InviteError → InviteCause
cause_of request auth_max_retry = record plain { auth = true }
cause_of request missing_creds = record plain { auth = true }
cause_of request no_auth_header = record plain { auth = true }
cause_of request request_failed = request
cause_of request invalid_challenge = plain
cause_of request no_to_header = plain
cause_of request digest_failed = plain
cause_of request no_to_in_ok = plain
cause_of request no_tag_in_ok = plain
cause_of request (tx_failed request_timeout) = record plain { request_timeout = true }
cause_of request (tx_failed shutting_down) = plain
cause_of request (tx_failed (not_completed n)) = plain
cause_of request (unexpected_status code reason) = with_status code
cause_of request (invite_failed code reason) = with_status code

-- What happens around the INVITE: the errors of the offer, of the request, of the answer and of the tones,
-- and the local SDP that the answer constrains.
pub record Media : Type 0 where
  pub hangup : Hangup
  pub offer_error : Option InviteCause
  pub request_error : InviteCause
  pub answer_error : Option InviteCause
  pub local_sdp : Bytes
  pub tones_error : Option InviteCause

-- How a step of the dialing comes out: the dialog, and an error or none, or a wait.
abbrev pub Signal : Type 0 → Type 0
Signal S = (S × SipOutbound) × Option (Option InviteCause)

abbrev pub after_ack : {S : Type 0} → S → Media → SipOutbound × Bool → Signal S
after_ack s m (c, true) = ((s, c), some m.tones_error)
after_ack s m (c, false) = ((s, c), some (some plain))

abbrev pub after_answer : {S : Type 0} → S → Media → Option InviteCause → SipOutbound → Signal S
after_answer s m (some e) c = ((s, c), some (some e))
after_answer s m none c = after_ack s m (Dialog.ack_invite_ok (Dialog.set_local_sdp m.local_sdp c))

-- A refused INVITE closes the dialog before the call is.
abbrev pub after_invite : {S : Type 0} → Media → InviteRun S → Signal S
after_invite m ((s, c), none) = ((s, c), none)
after_invite m ((s, c), some (some e)) = (
  (s, Dialog.close m.hangup.client_closing m.hangup.events c),
  some (some (cause_of m.request_error e)),
)
after_invite m ((s, c), some none) = after_answer s m m.answer_error c

-- How a dialed call comes out: it waits, it is active, it is closed, or the bridge panics.
pub data Dialed : Type 0 where
  dialing active closed : OutboundCall → Dialed
  panicked : Dialed

abbrev pub connected : OutboundCall → OutboundCall
connected c = record c { started = true; info = record c.info { status = status_active } }

abbrev pub closed_or_panicked : Option OutboundCall → Dialed
closed_or_panicked none = panicked
closed_or_panicked (some c) = closed (ensure_closed c)

abbrev pub report_of : InviteFailure → InviteCause → Option CallError
report_of f e = if f.reported then some (invite_error e) else none

-- `connectSIP` and the rest of `Dial`.
unfoldable pub after_signal : Hangup → OutboundCall → Option (Option InviteCause) → Dialed
after_signal h c none = dialing c
after_signal h c (some none) = active (connected c)
after_signal h c (some (some e)) =
    let f = classify_invite_error e in
    closed_or_panicked (close h (report_of f e) f.term f.reason c)

-- What `waitClose` selects on; `stopped_by` is a close from elsewhere, with its termination.
pub data CloseEvent : Type 0 where
  ticked media_timeout : CloseEvent
  stopped_by : Termination → DisconnectReason → CloseEvent
  disconnected : DisconnectReason → CloseEvent

abbrev pub timed_out : Option OutboundCall → Option OutboundCall
timed_out none = none
timed_out (some c) = some (set_err_status (some media_deadline) c)

unfoldable pub wait_close : Hangup → List CloseEvent → OutboundCall → Dialed
wait_close h [] c = active c
wait_close h (ticked ∷ es) c = wait_close h es c
wait_close h (disconnected reason ∷ es) c =
    closed_or_panicked (close h none (termination_from_room_disconnect reason) client_initiated c)
wait_close h (media_timeout ∷ es) c = closed_or_panicked (timed_out (close_with_timeout h c))
wait_close h (stopped_by t reason ∷ es) c = closed_or_panicked (close h none t reason c)

-- `DialAsync`: the wait follows a call that is active.
abbrev pub then_wait : Hangup → List CloseEvent → Dialed → Dialed
then_wait h es (dialing c) = dialing c
then_wait h es (active c) = wait_close h es c
then_wait h es (closed c) = closed c
then_wait h es panicked = panicked

module _ {Challenge : Type 0} (parse_challenge : Bytes → Option Challenge)
    (digest : Challenge → Bytes → Account → Option Bytes) {S : Type 0}
    (transact : S → OutInvite → S × Option (List TxEvent)) where
  abbrev pub signal_after : Account → Media → S → Option InviteCause → SipOutbound → Signal S
  signal_after account m s (some e) c = ((s, c), some (some e))
  signal_after account m s none c =
      after_invite m (make_invite parse_challenge digest transact account s c)

  unfoldable pub sip_signal : Account → Media → S → SipOutbound → Signal S
  sip_signal account m s c = signal_after account m s m.offer_error c

  unfoldable pub dial : Account → Media → S → OutboundCall → S × Dialed
  unfolding sip_signal
  dial account m s c =
      let r = sip_signal account m s c.cc in
      (r.0.0, after_signal m.hangup (record c { cc = r.0.1 }) r.1)

  unfoldable pub dial_async : Account → Media → List CloseEvent → S → OutboundCall → S × Dialed
  unfolding dial
  dial_async account m es s c = let (s', d) = dial account m s c in (s', then_wait m.hangup es d)
