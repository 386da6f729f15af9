-- ===== src/Client/Tests.antt =====
-- Runs of the client side on small dialogs.
use sip_video.Prelude.{ℕ, zero, suc, ◌≡◌, refl, ◌↔◌, Option, none, some, true, false, List, [], ◌∷◌}
use sip_video.Prelude.Int.{ℤ}
use sip_video.Text.{Bytes, bytes}
use sip_video.Client.Response.{
  ToHeader, Response, TxEvent, ctx_done, responded, sip_response, response_loop,
}
use sip_video.Client.Response.First.{outcome, sip_response-outcome}
use sip_video.Client.Invite.{
  OutInvite, invite, bye, ack, refer, Account, on_response, authenticate, attempt_invite, auth_loop,
  make_invite,
}
use sip_video.Client.Invite.Attempts.{IsAttempted, make_invite-IsAttempted}
use sip_video.Client.Invite.Success.{Established, make_invite-Established}
use sip_video.Client.Dialog.{
  new_dialog, drop, ack_invite_ok, send_and_ack, bye_for, send_bye, close_for, close,
}
use sip_video.Client.Dialog.Refinement.{dial, acks_invite, transfers, closes, step, run}
use sip_video.Client.Refer.{transfer_for, transfer_call}
use sip_video.Protocol.Status.{ErrorCode, unknown}
use sip_video.Client.Failure.{classify_invite_error}
use sip_video.Client.Failure.Buckets.{is_server_error, IsCalleeStatus, classify_invite_error-bucket}
use sip_video.Client.Call.{OutboundCall, Hangup, fresh, new_call}
use sip_video.Client.Call.Dialing.{plain, with_status, Media, ticked, media_timeout, dial_async}
use sip_video.Client.Call.Ended.{IsOpen, IsOutcome, dial_async-IsOutcome}
use sip_video.Text.{has_prefix}
use sip_video.Client.Failure.{classify_status}
use sip_video.Client.Call.{close as close_call}
use sip_video.Client.Call.Dialing.{dial as dial_call, sip_signal, after_signal, cause_of}
use sip_video.Client.Participant.{
  CreateRequest, Created, created, Written, participant_error, contains, contains_any, has_byte,
  check_request, start_call, create_sip_participant,
}
use sip_video.Client.Participant.Address.{IsWellFormed, check_request-IsWellFormed}

abbrev response : ℕ → Option ToHeader → Option Bytes → Response
response status to challenge = record {
  status_code = status;
  reason = bytes "reason";
  body = [];
  to = to;
  www_authenticate = challenge;
  proxy_authenticate = none;
  twilio_error = none;
}

abbrev callee : ToHeader
callee = record { address = bytes "sip:bob@host"; tag = some (bytes "b1") }

abbrev ringing : Response
ringing = response 180 none none

abbrev unauthorized : Response
unauthorized = response 401 (some callee) (some (bytes "Digest"))

abbrev accepting : Response
accepting = response 200 (some callee) none

abbrev alice : Account
alice = record { user = bytes "alice"; pass = bytes "secret" }

-- A server that asks for credentials once; the number of requests is its state.
abbrev server : ℕ → OutInvite → ℕ × Option (List TxEvent)
server zero m = (1, some (responded ringing ∷ responded unauthorized ∷ []))
server (suc n) m = (suc (suc n), some (responded accepting ∷ []))

abbrev parses : Bytes → Option Bytes
parses s = some s

abbrev digests : Bytes → Bytes → Account → Option Bytes
digests challenge uri account = some account.pass

abbrev all_unknown : ℤ → Bytes → ErrorCode
all_unknown status reason = unknown

sip_response-outcome_example :
    sip_response (responded ringing ∷ ctx_done ∷ []) ≡ outcome 1 (ringing ∷ []) ctx_done
sip_response-outcome_example = sip_response-outcome (ringing ∷ []) ctx_done [] (refl, tt) tt

make_invite-IsAttempted_example :
    (ms : List OutInvite) × IsAttempted 5 none new_dialog
      (make_invite parses digests server alice 0 new_dialog).0.1
      ms
make_invite-IsAttempted_example = make_invite-IsAttempted parses digests server alice 0 new_dialog

-- The two INVITEs of a call that is accepted at the second.
dial_test :
    (make_invite parses digests server alice 0 new_dialog).0.1.sent
    ≡ invite (record { cseq = 2; auth = some (bytes "Authorization", bytes "secret") })
      ∷ invite (record { cseq = 1; auth = none })
      ∷ []
unfolding make_invite auth_loop attempt_invite on_response authenticate sip_response response_loop
dial_test = refl

dial_succeeds : (make_invite parses digests server alice 0 new_dialog).1 ≡ some none
unfolding make_invite auth_loop attempt_invite on_response authenticate sip_response response_loop
dial_succeeds = refl

make_invite-Established_example :
    Established (make_invite parses digests server alice 0 new_dialog).0.1
make_invite-Established_example =
    make_invite-Established parses digests server alice 0 new_dialog dial_succeeds

-- A call that is dialled, acknowledged, transferred and closed.
run_test :
    (run parses digests server all_unknown
      (closes false none ∷ transfers false none [] ∷ acks_invite ∷ dial alice ∷ [])
      0).1.sent
    ≡ bye (some 4)
      ∷ refer 3
      ∷ ack
      ∷ invite (record { cseq = 2; auth = some (bytes "Authorization", bytes "secret") })
      ∷ invite (record { cseq = 1; auth = none })
      ∷ []
unfolding run step close close_for send_bye bye_for drop send_and_ack ack_invite_ok transfer_call
    transfer_for make_invite auth_loop attempt_invite on_response authenticate sip_response
    response_loop
run_test = refl

abbrev hangs_up : Hangup
hangs_up = record { client_closing = false; events = none }

abbrev answered : Media
answered = record {
  hangup = hangs_up;
  offer_error = none;
  request_error = plain;
  answer_error = none;
  local_sdp = [];
  tones_error = none;
}

abbrev call : OutboundCall
call = record (fresh true) { room = true; active = true }

call-IsOpen : IsOpen call
call-IsOpen = record {
  has_media = refl;
  not_stopped = refl;
  not_terminated = refl;
  no_session_end = refl;
}

dial_async-IsOutcome_example :
    IsOutcome
      (dial_async parses digests server alice answered (ticked ∷ media_timeout ∷ []) 0 call).1
dial_async-IsOutcome_example =
    dial_async-IsOutcome parses digests server alice answered (ticked ∷ media_timeout ∷ []) 0 call
      call-IsOpen

classify_invite_error-bucket_example :
    ((is_server_error (classify_invite_error (with_status 503)) ≡ false) ↔ IsCalleeStatus 503)
    × ((classify_invite_error (with_status 503)).reported
        ≡ is_server_error (classify_invite_error (with_status 503)))
classify_invite_error-bucket_example = classify_invite_error-bucket (with_status 503) 503 refl refl

abbrev request : CreateRequest
request = record {
  call_to = bytes "+1555";
  address = bytes "host";
  number = bytes "+1666";
  room_name = bytes "room";
  wait_until_answered = true;
}

check_request-IsWellFormed_example : (check_request request ≡ none) ↔ IsWellFormed request
check_request-IsWellFormed_example = check_request-IsWellFormed request

-- A callee that is busy, and what is written of the call.
abbrev busy : ℕ → OutInvite → ℕ × Option (List TxEvent)
busy n m = (n, some (responded (response 486 (some callee) none) ∷ []))

abbrev written : Created → Option Written
written (created d w) = some w
written other = none

create_test :
    written
      (create_sip_participant parses digests busy true true true true request alice answered 0).1
    ≡ some participant_error
unfolding create_sip_participant check_request contains contains_any has_byte has_prefix new_call
    start_call dial_call sip_signal after_signal close_call make_invite auth_loop attempt_invite
    on_response sip_response response_loop classify_invite_error classify_status cause_of
create_test = refl
