-- ===== src/Client/Failure.antt =====
-- The verdict on a failed INVITE: pkg/sip/errors.go. An error comes as what `errors.Is` and
-- `errors.AsType` find in it.
pub mod Buckets
use sip_video.Prelude.{
  ℕ, Option, none, some, Bool, true, false, ◌&&◌, ◌||◌, not, List, [], ◌∷◌, ◌++◌, ◌==◌, ltb, leb,
  if◌then◌else◌,
}
use sip_video.Prelude.Int.{ℤ, pos, negsuc}
use sip_video.Text.{Bytes, bytes, itoa}
use sip_video.Calls.Monitor.{Termination}
use sip_video.Calls.Status.{
  CallStatus, call_dropped, call_unavailable, call_rejected, DisconnectReason, unknown_reason,
  media_failure, user_rejected, user_unavailable, sip_trunk_failure, server_error, client_error,
}
use sip_video.Protocol.Status.{
  ErrorCode, deadline_exceeded, canceled, invalid_argument, unavailable,
}

-- The errors of the SDP library that `SDPError` looks for in its own.
pub data SdpFailure : Type 0 where
  no_common_media no_common_crypto other_sdp : SdpFailure

-- `auth` is one of the three errors of a failed authentication.
pub record InviteCause : Type 0 where
  pub sdp : Option SdpFailure
  pub sip_status : Option ℤ
  pub request_timeout : Bool
  pub deadline : Bool
  pub cancelled : Bool
  pub addr : Bool
  pub dns : Bool
  pub op : Bool
  pub auth : Bool

-- `reported` tells whether the error is handed on to be reported, `returned` the code that the
-- error is wrapped in, if it is.
pub record InviteFailure : Type 0 where
  pub status : CallStatus
  pub term : Termination
  pub reason : DisconnectReason
  pub reported : Bool
  pub returned : Option ErrorCode

abbrev pub failure :
    CallStatus → Termination → DisconnectReason → Bool → Option ErrorCode → InviteFailure
failure status term reason reported returned = record {
  status = status;
  term = term;
  reason = reason;
  reported = reported;
  returned = returned;
}

abbrev pub unreported : CallStatus → Bytes → DisconnectReason → InviteFailure
unreported status reason disconnect = failure status (client_error reason) disconnect false none

abbrev pub other_failure : InviteFailure
other_failure = failure call_dropped (server_error (bytes "invite-failed")) unknown_reason true none

unfoldable pub classify_sdp : SdpFailure → InviteFailure
classify_sdp no_common_media =
    failure call_rejected (client_error (bytes "no-common-codec")) media_failure true none
classify_sdp no_common_crypto =
    failure call_rejected (client_error (bytes "encryption-required")) media_failure true none
classify_sdp other_sdp =
    failure call_rejected (client_error (bytes "sdp-error")) media_failure true none

-- The statuses that have no case of their own.
abbrev pub by_class : ℕ → InviteFailure
by_class code =
    if leb 400 code && ltb code 500
    then unreported call_rejected (bytes "client-error-" ++ itoa (pos code)) user_unavailable
    else if leb 500 code && ltb code 600
    then failure call_dropped (server_error (bytes "upstream-server-error-" ++ itoa (pos code)))
        sip_trunk_failure true none
    else if leb 600 code && ltb code 700
    then unreported call_rejected (bytes "global-decline-" ++ itoa (pos code)) user_rejected
    else other_failure

unfoldable pub classify_status : ℤ → InviteFailure
classify_status (negsuc n) = other_failure
classify_status (pos code) =
    if code == 401 || code == 407
    then unreported call_rejected (bytes "auth-required") user_rejected
    else if code == 403
    then unreported call_rejected (bytes "forbidden") user_rejected
    else if code == 404
    then unreported call_unavailable (bytes "not-found") user_unavailable
    else if code == 408
    then unreported call_unavailable (bytes "request-timeout") user_unavailable
    else if code == 480
    then unreported call_unavailable (bytes "unavailable") user_unavailable
    else if code == 486
    then unreported call_rejected (bytes "busy") user_rejected
    else if code == 488
    then unreported call_rejected (bytes "not-acceptable") user_rejected
    else by_class code

abbrev pub classify_other : InviteCause → InviteFailure
classify_other e =
    if e.request_timeout
    then unreported call_unavailable (bytes "no-answer") user_unavailable
    else if e.deadline
    then failure call_dropped (server_error (bytes "deadline-exceeded")) unknown_reason true
        (some deadline_exceeded)
    else if e.cancelled
    then failure call_rejected (client_error (bytes "canceled")) user_unavailable false
        (some canceled)
    else if e.addr
    then failure call_dropped (client_error (bytes "address-error")) sip_trunk_failure true
        (some invalid_argument)
    else if e.dns
    then failure call_dropped (client_error (bytes "dns-resolution")) sip_trunk_failure true
        (some invalid_argument)
    else if e.op
    then failure call_dropped (server_error (bytes "network-error")) sip_trunk_failure true
        (some unavailable)
    else if e.auth
    then failure call_rejected (client_error (bytes "auth-failed")) user_rejected true none
    else other_failure

abbrev pub classify_found : Option SdpFailure → Option ℤ → InviteCause → InviteFailure
classify_found (some f) status e = classify_sdp f
classify_found none (some code) e = classify_status code
classify_found none none e = classify_other e

unfoldable pub classify_invite_error : InviteCause → InviteFailure
unfolding classify_sdp classify_status
classify_invite_error e = classify_found e.sdp e.sip_status e
