-- ===== src/Client/Call/Ended.antt =====
-- How a call of pkg/sip/outbound.go comes to its end.
use sip_video.Prelude.{
  ◌≡◌, refl, Option, none, some, true, false, List, [], ◌∷◌, length, arith, if◌then◌else◌,
}
use sip_video.Text.{Bytes, bytes}
use sip_video.Calls.Monitor.{Termination}
use sip_video.Calls.Status.{
  DisconnectReason, client_initiated, server_error, unknown_reason,
  termination_from_room_disconnect,
}
use sip_video.Client.Response.{TxEvent}
use sip_video.Client.Invite.{OutInvite, Account}
use sip_video.Client.Failure.{InviteCause, classify_invite_error}
use sip_video.Client.Call.{
  status_error, status_disconnected, CallError, media_timed_out, no_error, OutboundCall, Hangup,
  close, close_with_timeout, set_err_status, ensure_closed,
}
use sip_video.Client.Call.Dialing as Dialing
use sip_video.Client.Call.Dialing.{
  Media, Dialed, dialing, active, closed, connected, closed_or_panicked, report_of, after_signal,
  CloseEvent, ticked, media_timeout, stopped_by, disconnected, timed_out, wait_close, then_wait,
  sip_signal, dial, dial_async,
}

-- A call that has a media port and was not closed yet.
pub record IsOpen (c : OutboundCall) : Type 0 where
  pub has_media : c.media ≡ true
  pub not_stopped : c.stopped ≡ false
  pub not_terminated : c.terminations ≡ []
  pub no_session_end : c.sessions_ended ≡ 0

-- A call that was closed, once, and whose record tells so.
pub record IsOver (c : OutboundCall) : Type 0 where
  pub is_stopped : c.stopped ≡ true
  pub one_termination : length c.terminations ≡ 1
  pub one_session_end : c.sessions_ended ≡ 1
  pub not_active : c.active ≡ false

-- The record is final: an error when one was written, and otherwise disconnected.
pub record IsFinal (c : OutboundCall) : Type 0 where
  pub has_ended : c.info.ended ≡ true
  pub has_status :
      c.info.status ≡ (if no_error c.info.error then status_disconnected else status_error)

abbrev pub IsOutcome : Dialed → Type 0
IsOutcome (dialing c) = IsOpen c
IsOutcome (active c) = IsOpen c
IsOutcome (closed c) = IsOver c × IsFinal c
IsOutcome Dialing.panicked = ⊥

abbrev IsClosed : Option OutboundCall → Type 0
IsClosed none = ⊥
IsClosed (some c) = IsOver c

close-IsClosed :
    (h : Hangup) (err : Option CallError) (t : Termination) (reason : DisconnectReason)
    (c : OutboundCall)
    → IsOpen c
    → IsClosed (close h err t reason c)
unfolding close
close-IsClosed h err t reason c v =
    rw (v.not_stopped, v.has_media)
      (record {
        is_stopped = refl;
        one_termination = ground (arith, v.not_terminated);
        one_session_end = ground (arith, v.no_session_end);
        not_active = refl;
      })

ensure_closed-IsFinal : (c : OutboundCall) → IsFinal (ensure_closed c)
unfolding ensure_closed
ensure_closed-IsFinal c = record { has_ended = refl; has_status = refl }

IsOver-ensure_closed : (c : OutboundCall) → IsOver c → IsOver (ensure_closed c)
unfolding ensure_closed
IsOver-ensure_closed c v = record {
  is_stopped = v.is_stopped;
  one_termination = v.one_termination;
  one_session_end = v.one_session_end;
  not_active = v.not_active;
}

closed-IsOutcome : (r : Option OutboundCall) → IsClosed r → IsOutcome (closed_or_panicked r)
closed-IsOutcome none v = v
closed-IsOutcome (some c) v = (IsOver-ensure_closed c v, ensure_closed-IsFinal c)

timed_out-IsClosed : (r : Option OutboundCall) → IsClosed r → IsClosed (timed_out r)
unfolding set_err_status
timed_out-IsClosed none v = v
timed_out-IsClosed (some c) v = record {
  is_stopped = v.is_stopped;
  one_termination = v.one_termination;
  one_session_end = v.one_session_end;
  not_active = v.not_active;
}

wait_close-IsOutcome :
    (h : Hangup) (es : List CloseEvent) (c : OutboundCall)
    → IsOpen c
    → IsOutcome (wait_close h es c)
unfolding wait_close close_with_timeout
wait_close-IsOutcome h [] c v = v
wait_close-IsOutcome h (ticked ∷ es) c v = wait_close-IsOutcome h es c v
wait_close-IsOutcome h (disconnected reason ∷ es) c v =
    let t = termination_from_room_disconnect reason in
    closed-IsOutcome (close h none t client_initiated c)
      (close-IsClosed h none t client_initiated c v)
wait_close-IsOutcome h (media_timeout ∷ es) c v =
    closed-IsOutcome (timed_out (close_with_timeout h c)) (
      timed_out-IsClosed (close_with_timeout h c) (
        close-IsClosed h (some media_timed_out) (server_error (bytes "media-timeout"))
          unknown_reason c v))
wait_close-IsOutcome h (stopped_by t reason ∷ es) c v =
    closed-IsOutcome (close h none t reason c) (close-IsClosed h none t reason c v)

after_signal-IsOutcome :
    (h : Hangup) (c : OutboundCall) (r : Option (Option InviteCause))
    → IsOpen c
    → IsOutcome (after_signal h c r)
unfolding after_signal
after_signal-IsOutcome h c none v = v
after_signal-IsOutcome h c (some none) v = record {
  has_media = v.has_media;
  not_stopped = v.not_stopped;
  not_terminated = v.not_terminated;
  no_session_end = v.no_session_end;
}
after_signal-IsOutcome h c (some (some e)) v =
    let f = classify_invite_error e in
    closed-IsOutcome (close h (report_of f e) f.term f.reason c)
      (close-IsClosed h (report_of f e) f.term f.reason c v)

then_wait-IsOutcome :
    (h : Hangup) (es : List CloseEvent) (d : Dialed) → IsOutcome d → IsOutcome (then_wait h es d)
then_wait-IsOutcome h es (dialing c) v = v
then_wait-IsOutcome h es (active c) v = wait_close-IsOutcome h es c v
then_wait-IsOutcome h es (closed c) v = v
then_wait-IsOutcome h es Dialing.panicked v = v

module _ {Challenge : Type 0} (parse_challenge : Bytes → Option Challenge)
    (digest : Challenge → Bytes → Account → Option Bytes) {S : Type 0}
    (transact : S → OutInvite → S × Option (List TxEvent)) where
  -- A call that has its media port is dialed and waited for without a panic. While it rings or is active
  -- nothing of it is closed. Once it is closed, for whatever reason, it was reported terminated once,
  -- ended its session once and is not active any more, and its record is final: in error exactly when
  -- an error was written, and disconnected otherwise.
  pub dial_async-IsOutcome :
      (account : Account) (m : Media) (es : List CloseEvent) (s : S) (c : OutboundCall)
      → IsOpen c
      → IsOutcome (dial_async parse_challenge digest transact account m es s c).1
  unfolding dial_async dial
  dial_async-IsOutcome account m es s c v =
      let r = sip_signal parse_challenge digest transact account m s c.cc in
      let d : OutboundCall = record c { cc = r.0.1 } in
      then_wait-IsOutcome m.hangup es (after_signal m.hangup d r.1) (
        after_signal-IsOutcome m.hangup d r.1 (record {
          has_media = v.has_media;
          not_stopped = v.not_stopped;
          not_terminated = v.not_terminated;
          no_session_end = v.no_session_end;
        }))
