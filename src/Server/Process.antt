-- ===== src/Server/Process.antt =====
-- `processInvite` of pkg/sip/inbound.go up to the call, and the dispatch of ACK, BYE and NOTIFY to a call.
-- The tables of calls are lookups by tag; what the handler answers, and what the digest check of
-- Server/Invites returns, are arguments. Metrics and the call's own record are left out but for how the
-- record ends.
pub mod Final
use sip_video.Prelude.{
  ℕ, Option, none, some, Bool, true, false, ◌&&◌, not, List, [], ◌∷◌, ltb, if◌then◌else◌,
}
use sip_video.Text.{Bytes, bytes}
use sip_video.Client.Invite.{SipOutbound}
use sip_video.Client.Dialog.{record_invite, set_local_sdp}
use sip_video.Protocol.Status.{GoError, sip_code_and_message_from_error}
use sip_video.Protocol.Notify.{
  Parsed, parsed, rejected, NotifyRequest, Notification, NotifyError, handle_notify,
}
use sip_video.Protocol.Reason.{ReasonHeader}
use sip_video.Server.Inbound.{SipInbound, drop, respond, respond_and_drop, processing, accept_bye}
use sip_video.Server.Call.{InboundCall, bye_from_remote}

pub data AuthResult : Type 0 where
  auth_not_found auth_drop auth_password auth_accept auth_quota_exceeded auth_no_trunk_found :
      AuthResult

-- What `prepareReinviteOffer` brings: an error, or an SDP, which is empty when nothing changes.
pub data Reinvite : Type 0 where
  not_prepared : Reinvite
  prepared : Bytes → Reinvite

-- An INVITE that comes in, and what is known of it. `replay` is the refusal in the server's cache, and
-- `cached` whether there is a cache; the CSeq and the SDP of an existing call come together. An
-- authentication that failed is `none`; the check of credentials says whether they are right, and
-- otherwise whether a challenge was sent.
pub record Incoming : Type 0 where
  pub source_ok : Bool
  pub valid : Bool
  pub hide_inbound_port : Bool
  pub cached : Bool
  pub replay : Option (ℕ × Bytes)
  pub cseq : ℕ
  pub existing : Option (ℕ × Bytes)
  pub outbound : Option SipOutbound
  pub reinvite : Reinvite
  pub auth : Option AuthResult
  pub credentials_ok : Bool
  pub challenge_sent : Bool

pub data InviteError : Type 0 where
  bad_source bad_invite auth_failed not_authorized no_trunk quota_exceeded bad_credentials :
      InviteError

-- What comes of an INVITE. `replied` is the 400 to one that is not valid, and `kept_alive` a re-INVITE that
-- was accepted with an SDP; with `to_call` the call goes on to handle it.
pub data Processed : Type 0 where
  replied : Bool → Processed
  kept_alive : Bytes → Processed
  replayed to_call : Processed
  failed : InviteError → Processed

-- How the call's record is left: there is none, it was ended in error, it waits for the timer of the
-- challenge, or the call ends it.
pub data Record : Type 0 where
  no_record ended_in_error left_to_timer left_to_call : Record

-- The inbound dialog, the outbound one that a re-INVITE is for, and the outcome.
pub record Result : Type 0 where
  pub cc : SipInbound
  pub outbound : Option SipOutbound
  pub outcome : Processed
  pub call_record : Record

abbrev pub result : Incoming → SipInbound → Processed → Record → Result
result i cc outcome left = record {
  cc = cc;
  outbound = i.outbound;
  outcome = outcome;
  call_record = left;
}

abbrev pub is_empty : Bytes → Bool
is_empty [] = true
is_empty (c ∷ s) = false

-- An INVITE that is new for the call with a CSeq and an SDP.
abbrev pub is_newer : ℕ → Option (ℕ × Bytes) → Bool
is_newer cseq none = false
is_newer cseq (some (old, sdp)) = ltb old cseq

abbrev pub sdp_of : Option (ℕ × Bytes) → Bytes
sdp_of none = []
sdp_of (some (old, sdp)) = sdp

abbrev pub accept_as_keep_alive : SipInbound → SipInbound
accept_as_keep_alive cc = respond 200 (bytes "OK") cc

-- A re-INVITE for an outbound call: its SDP gives way to a new one, and its CSeq is recorded.
unfoldable pub reinvite_outbound : ℕ → Reinvite → SipOutbound → SipOutbound × Bytes
reinvite_outbound cseq not_prepared c = (record_invite cseq c, c.local_sdp)
reinvite_outbound cseq (prepared []) c = (record_invite cseq c, c.local_sdp)
reinvite_outbound cseq (prepared (b ∷ sdp)) c =
    (record_invite cseq (set_local_sdp (b ∷ sdp) c), b ∷ sdp)

abbrev pub is_reinvite : ℕ → Option SipOutbound → Bool
is_reinvite cseq none = false
is_reinvite cseq (some c) = ltb c.latest_invite_cseq cseq && not (is_empty c.local_sdp)

abbrev pub keep_outbound_alive : Incoming → SipInbound → Option SipOutbound → Result
keep_outbound_alive i cc none = result i cc to_call no_record
keep_outbound_alive i cc (some c) =
    let (c', sdp) = reinvite_outbound i.cseq i.reinvite c in
    record {
      cc = accept_as_keep_alive cc;
      outbound = some c';
      outcome = kept_alive sdp;
      call_record = no_record;
    }

-- The answer to the credentials, after the dialog is told that it makes progress.
abbrev pub on_password : Incoming → SipInbound → Result
on_password i cc =
    let tried = if i.hide_inbound_port then processing cc else cc in
    if i.credentials_ok
    then result i tried to_call left_to_call
    else result i tried (failed bad_credentials)
        (if i.challenge_sent then left_to_timer else ended_in_error)

abbrev pub reject : Incoming → ℕ → Bytes → InviteError → SipInbound → Result
reject i code reason e cc =
    result i (respond_and_drop i.cached code reason cc) (failed e) ended_in_error

unfoldable pub on_auth : Incoming → SipInbound → Option AuthResult → Result
on_auth i cc none =
    result i (respond_and_drop i.cached 503 (bytes "Try again later") cc) (failed auth_failed)
      no_record
on_auth i cc (some auth_drop) = result i (drop cc) (failed not_authorized) ended_in_error
on_auth i cc (some auth_not_found) =
    reject i 404 (bytes "Does not match any SIP Trunks") no_trunk cc
on_auth i cc (some auth_quota_exceeded) =
    reject i 503 (bytes "Service temporarily unavailable") quota_exceeded cc
on_auth i cc (some auth_no_trunk_found) = reject i 404 (bytes "No trunk found") no_trunk cc
on_auth i cc (some auth_password) = on_password i cc
on_auth i cc (some auth_accept) = result i cc to_call left_to_call

abbrev pub new_invite : Incoming → SipInbound → Result
new_invite i cc = on_auth i (if i.hide_inbound_port then cc else processing cc) i.auth

abbrev pub or_replay : Incoming → SipInbound → Option (ℕ × Bytes) → Result
or_replay i cc (some (status, reason)) =
    result i (respond_and_drop i.cached status reason cc) replayed no_record
or_replay i cc none =
    if is_newer i.cseq i.existing
    then result i (accept_as_keep_alive cc) (kept_alive (sdp_of i.existing)) no_record
    else if is_reinvite i.cseq i.outbound
    then keep_outbound_alive i cc i.outbound
    else new_invite i cc

-- The refusal is looked for where there is a cache.
abbrev pub replay_of : Incoming → Option (ℕ × Bytes)
replay_of i = if i.cached then i.replay else none

unfoldable pub process_invite : Incoming → SipInbound → Result
process_invite i cc =
    if not i.source_ok
    then result i cc (failed bad_source) no_record
    else if not i.valid
    then result i cc (replied (not i.hide_inbound_port)) no_record
    else or_replay i cc (replay_of i)

-- The other requests: no tag in the request, a tag without a call, which another handler may take, or a
-- call.
pub data Target : Type 0 where
  no_tag : Target
  no_call : Bool → Target
  for_call : InboundCall → Target

-- The reply, and the call if there is one.
abbrev pub Dispatched : Type 0
Dispatched = Option InboundCall × Option (ℕ × Bytes)

unfoldable pub on_ack : Target → Option InboundCall
on_ack no_tag = none
on_ack (no_call taken) = none
on_ack (for_call c) = some (record c { got_ack = true })

abbrev pub unhandled : Bool → Dispatched
unhandled taken = (none, if taken then none else some (481, bytes "Call does not exist"))

-- The Reason header comes parsed; one that is absent or cannot be read is empty.
unfoldable pub on_bye : ReasonHeader → Target → Dispatched
on_bye reason no_tag = (none, some (400, []))
on_bye reason (no_call taken) = unhandled taken
on_bye reason (for_call c) =
    (some (bye_from_remote reason (record c { cc = accept_bye c.cc })), some (200, bytes "OK"))

abbrev pub notify_error : (NotifyError → GoError) → Parsed Notification → Option GoError
notify_error error_of (parsed n) = none
notify_error error_of (rejected e) = some (error_of e)

-- The errors of a NOTIFY are made by the psrpc library.
unfoldable pub on_notify : (NotifyError → GoError) → NotifyRequest → Target → Dispatched
on_notify error_of req no_tag = (none, some (400, []))
on_notify error_of req (no_call taken) = unhandled taken
on_notify error_of req (for_call c) =
    (some c, some (sip_code_and_message_from_error (notify_error error_of (handle_notify req))))
