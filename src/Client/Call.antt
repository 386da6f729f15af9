-- ===== src/Client/Call.antt =====
-- `outboundCall` of pkg/sip/outbound.go: a call that the bridge makes, from its creation to its close. The
-- media port, the room and the dial tone are there by whether they are; what the media library says of
-- the answer is an argument. Times, statistics and the attributes in the room are left out.
pub mod Dialing
pub mod Ended
use sip_video.Prelude.{ℕ, ◌+◌, Option, none, some, Bool, true, false, List, [], ◌∷◌, if◌then◌else◌}
use sip_video.Text.{Bytes, bytes}
use sip_video.Calls.Monitor.{Termination}
use sip_video.Calls.Status.{
  CallStatus, call_dropped, DisconnectReason, unknown_reason, server_error,
}
use sip_video.Client.Response.{TxEvent}
use sip_video.Client.Invite.{SipOutbound}
use sip_video.Client.Dialog as Dialog
use sip_video.Client.Failure.{InviteCause}

-- What is written into the call's record as its error.
pub data CallError : Type 0 where
  media_failed join_failed media_timed_out media_deadline : CallError
  invite_error : InviteCause → CallError

pub data CallState : Type 0 where
  status_dialing status_active status_error status_disconnected : CallState

pub record CallInfo : Type 0 where
  pub error : Option CallError
  pub status : CallState
  pub disconnect : Option DisconnectReason
  pub ended : Bool

-- `media` and `room` tell whether they are there; `active` is the entry in the client's `activeCalls`.
pub record OutboundCall : Type 0 where
  pub cc : SipOutbound
  pub closing : Bool
  pub stopped : Bool
  pub started : Bool
  pub media : Bool
  pub room : Bool
  pub active : Bool
  pub info : CallInfo
  pub terminations : List Termination
  pub sessions_ended : ℕ

abbrev pub no_error : Option CallError → Bool
no_error none = true
no_error (some e) = false

abbrev pub report : CallError → CallInfo → CallInfo
report e info =
    if no_error info.error then record info { error = some e; status = status_error } else info

abbrev pub report_if : Option CallError → CallInfo → CallInfo
report_if none info = info
report_if (some e) info = report e info

unfoldable pub set_err_status : Option CallError → OutboundCall → OutboundCall
set_err_status err c = record c { info = report_if err c.info }

unfoldable pub ensure_closed : OutboundCall → OutboundCall
ensure_closed c = record c {
  info = record c.info {
    status = if no_error c.info.error then status_disconnected else status_error;
    ended = true;
  };
}

-- The client that closes, and what the BYE brings.
pub record Hangup : Type 0 where
  pub client_closing : Bool
  pub events : Option (List TxEvent)

-- The close that happens once, after its test. Without a media port it panics.
abbrev pub stop :
    Hangup → Option CallError → Termination → DisconnectReason → OutboundCall → OutboundCall
stop h err t reason c = record c {
  closing = true;
  stopped = true;
  info = record (report_if err c.info) { disconnect = some reason };
  cc = Dialog.close h.client_closing h.events c.cc;
  active = false;
  terminations = t ∷ c.terminations;
  sessions_ended = c.sessions_ended + 1;
}

-- `none` is a panic.
unfoldable pub close :
    Hangup → Option CallError → Termination → DisconnectReason → OutboundCall → Option OutboundCall
close h err t reason c =
    if c.stopped
    then some (record c { closing = true })
    else if c.media
    then some (stop h err t reason c)
    else none

unfoldable pub close_with_timeout : Hangup → OutboundCall → Option OutboundCall
unfolding close
close_with_timeout h c =
    close h (some media_timed_out) (server_error (bytes "media-timeout")) unknown_reason c

-- A call that is made with a media port or without one, and joins its room or not.
pub data NewCall : Type 0 where
  made failed : OutboundCall → NewCall
  panicked : NewCall

abbrev pub fresh : Bool → OutboundCall
fresh media = record {
  cc = Dialog.new_dialog;
  closing = false;
  stopped = false;
  started = false;
  media = media;
  room = false;
  active = false;
  info = record { error = none; status = status_dialing; disconnect = none; ended = false };
  terminations = [];
  sessions_ended = 0;
}

abbrev pub failed_or_panicked : Option OutboundCall → NewCall
failed_or_panicked none = panicked
failed_or_panicked (some c) = failed c

unfoldable pub new_call : Hangup → Bool → Bool → NewCall
unfolding close
new_call h media_ok joined =
    if media_ok
    then if joined
      then made (record (fresh true) { room = true; active = true })
      else failed_or_panicked (
          close h (some join_failed) (server_error (bytes "join-failed")) unknown_reason
            (fresh true))
    else failed_or_panicked (
        close h (some media_failed) (server_error (bytes "media-failed")) unknown_reason
          (fresh false))
