-- ===== src/Server/Call.antt =====
-- An inbound call in pkg/sip/inbound.go: `inboundCall` with the ways to close it. Times, tracing and the
-- status attribute in the room are left out; the media port and the room are there by whether they are
-- open. The text of an error in the call's record is a value of this file.
pub mod Waiting
pub mod Handling
pub mod Closing
pub mod Kept
pub mod Answers
pub mod Handled
use sip_video.Prelude.{
  ℕ, ◌+◌, Option, none, some, Bool, true, false, not, List, [], ◌∷◌, ◌++◌, if◌then◌else◌,
}
use sip_video.Text.{Bytes, bytes, to_lower, itoa}
use sip_video.Protocol.Reason.{ReasonHeader, no_reason, is_normal, reason_string}
use sip_video.Calls.Monitor.{Termination}
use sip_video.Calls.Status.{
  DisconnectReason, client_initiated, CallStatus, call_dropped, call_hangup, call_cancelled,
  call_no_ack, call_hangup_media, success, server_error, sip_status_of,
}
use sip_video.Server.Inbound.{SipInbound, close_with_status}

pub data InfoError : Type 0 where
  media_timeout_error : InfoError
  bye_error : Bytes → InfoError

-- The parts of the call's record that a close sets.
pub record CallInfo : Type 0 where
  pub error : Option InfoError
  pub disconnect : Option DisconnectReason

-- `registered` is the entry in the server's `byLocalTag`, `transferable` the topic for transfers. The
-- terminations are those that the monitor is told, the newest first; `sessions_ended` counts the calls
-- of `OnSessionEnd`.
pub record InboundCall : Type 0 where
  pub cc : SipInbound
  pub done : Bool
  pub cancelled : Bool
  pub got_ack : Bool
  pub close_reason : Option ReasonHeader
  pub info : CallInfo
  pub media_open : Bool
  pub registered : Bool
  pub transferable : Bool
  pub terminations : List Termination
  pub sessions_ended : ℕ

abbrev pub new_inbound_call : SipInbound → InboundCall
new_inbound_call cc = record {
  cc = cc;
  done = false;
  cancelled = false;
  got_ack = false;
  close_reason = none;
  info = record { error = none; disconnect = none };
  media_open = true;
  registered = true;
  transferable = false;
  terminations = [];
  sessions_ended = 0;
}

-- The close that happens once, after its test.
abbrev pub closed : CallStatus → Termination → InboundCall → InboundCall
closed status t c = record c {
  done = true;
  cc = close_with_status (sip_status_of status).0 (sip_status_of status).1 c.cc;
  media_open = false;
  registered = false;
  transferable = false;
  cancelled = true;
  terminations = t ∷ c.terminations;
  sessions_ended = c.sessions_ended + 1;
}

unfoldable pub close : CallStatus → Termination → InboundCall → InboundCall
close status t c = if c.done then c else closed status t c

abbrev pub or_error : InfoError → Option InfoError → Option InfoError
or_error e none = some e
or_error e (some old) = some old

abbrev pub set_error : InfoError → CallInfo → CallInfo
set_error e info = record info { error = or_error e info.error }

unfoldable pub close_with_timeout : Bool → InboundCall → InboundCall
unfolding close
close_with_timeout is_error c =
    if is_error
    then close call_dropped (server_error (bytes "media-timeout")) c
    else close call_hangup_media (server_error (bytes "media-timeout"))
        (record c { info = set_error media_timeout_error c.info })

unfoldable pub close_with_no_ack : InboundCall → InboundCall
unfolding close
close_with_no_ack c = close call_no_ack (server_error (bytes "no-ack")) c

abbrev pub is_empty : Bytes → Bool
is_empty [] = true
is_empty (c ∷ s) = false

abbrev pub with_reason : ReasonHeader → Termination → Termination
with_reason r t =
    if not (is_empty r.kind)
    then if not (is_normal r)
      then record t { reason = bytes "bye-" ++ to_lower r.kind ++ bytes "-" ++ itoa r.cause }
      else t
    else t

abbrev pub reason_info : ReasonHeader → CallInfo → CallInfo
reason_info r info =
    record (if is_normal r then info else set_error (bye_error (reason_string r)) info) {
      disconnect = some client_initiated;
    }

unfoldable pub close_with_reason :
    CallStatus → Termination → ReasonHeader → InboundCall → InboundCall
unfolding close
close_with_reason status t r c =
    close status (with_reason r t) (record c { info = reason_info r c.info })

abbrev pub reason_or : Option ReasonHeader → ReasonHeader
reason_or none = no_reason
reason_or (some r) = r

unfoldable pub close_with_cancelled : InboundCall → InboundCall
unfolding close_with_reason
close_with_cancelled c =
    close_with_reason call_cancelled (success (bytes "cancelled")) (reason_or c.close_reason) c

unfoldable pub close_with_hangup : InboundCall → InboundCall
unfolding close_with_reason
close_with_hangup c =
    close_with_reason call_hangup (success (bytes "hangup")) (reason_or c.close_reason) c

-- A BYE from the remote stores its reason and cancels the call's context.
unfoldable pub bye_from_remote : ReasonHeader → InboundCall → InboundCall
bye_from_remote r c = record c { close_reason = some r; cancelled = true }

unfoldable pub shutdown : InboundCall → InboundCall
unfolding close
shutdown c = close call_dropped (server_error (bytes "shutdown")) c

-- By whether the ACK came; what is returned is an error for a missing one only.
unfoldable pub timeout_for : Bool → InboundCall → InboundCall × Bool
unfolding close_with_no_ack close_with_timeout
timeout_for false c = (close_with_no_ack c, true)
timeout_for true c = (close_with_timeout false c, false)

unfoldable pub media_timeout : InboundCall → InboundCall × Bool
unfolding timeout_for
media_timeout c = timeout_for c.got_ack c
