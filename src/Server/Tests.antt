-- ===== src/Server/Tests.antt =====
-- The theorems on the server at concrete inputs.
use sip_video.Prelude.{
  Bool, if◌then◌else◌, zero, suc, replicate, All, ℕ, List, ◌+◌, ◌≡◌, refl, Option, none, some, true,
  false, ◌&&◌, [], ◌∷◌, arith, if◌then◌else◌,
}
use sip_video.Text.{Bytes, bytes, bytes_eq}
use sip_video.Server.Invites.{
  Challenge, InProgressInvite, Invites, find, get_invite, Timers, schedule_auth_challenge_timeout,
  Request, InboundAuth, Credentials, DigestOptions, handle_invite_auth,
}
use sip_video.Server.Invites.Cache.{IsValid, get_all, get_invite-remembered}
use sip_video.Server.Invites.Digest.{
  Answers, statuses, final, handle_invite_auth-Answers, handle_invite_auth-replies,
}
use sip_video.Server.Invites.Timeout.{fire_all, timers_of, fire_all-schedule}
use sip_video.Server.Inbound.{
  SipInbound, response, bye, Try, timed_out, acknowledged, AcceptConf, accept, accept_loop,
  close_with_status, send_bye, drop, start_ringing, respond,
}
use sip_video.Calls.Status.{sip_status_of}
use sip_video.Server.Call.{new_inbound_call, close, close_with_reason, close_with_hangup}
use sip_video.Server.Call.Waiting.{
  arrived, ticked, end_ctx_done, wait_media, wait_subscribe, wait_for_call_end,
}
use sip_video.Server.Call.Handling.{
  Surroundings, on_dispatch, run_media, accept_call, handle_body, handle_invite,
}
use sip_video.Server.Call.Closing.{IsConsistent}
use sip_video.Server.Call.Handled.{IsDone, handle_invite-IsDone}
use sip_video.Server.Inbound.Once.{
  Op, processed, rang, accepting, closing, closing_with, hung_up, run, IsOnce, run-IsOnce,
}
use sip_video.Server.Inbound.Retries.{Bounded, accept-Bounded}
use sip_video.Server.Pin.{CallDispatch, dispatch_accept, dispatch_no_rule_reject, closed_wrong_pin}
use sip_video.Server.Pin.Gathering.{IsPinTone}
use sip_video.Server.Process.{
  Incoming, not_prepared, auth_password, to_call, on_auth, process_invite,
}

abbrev challenge : Challenge
challenge = record { realm = bytes "LiveKit"; nonce = bytes "7-abc"; algorithm = bytes "MD5" }

abbrev entry : InProgressInvite
entry = record { sip_call_id = bytes "abc"; challenge = challenge; auth_resolved = true }

abbrev invites : Invites
invites = record { heap = entry ∷ []; in_progress = 0 ∷ [] }

invites-IsValid : IsValid invites
invites-IsValid = record { allocated = (omega arith, tt); bounded = omega arith }

new_call_id : find invites.heap (bytes "xyz") invites.in_progress ≡ none
unfolding find
new_call_id = refl

get_invite-remembered_example :
    let (p, s') = get_invite invites (bytes "xyz") in
    (get_invite (get_all s' (bytes "abc" ∷ bytes "new" ∷ [])) (bytes "xyz")).0 ≡ p
get_invite-remembered_example =
    get_invite-remembered invites (bytes "xyz") (bytes "abc" ∷ bytes "new" ∷ []) invites-IsValid
      new_call_id (omega arith)

abbrev request : Request
request = record {
  method = bytes "INVITE";
  call_id = some (bytes "abc");
  cseq = some 2;
  proxy_authorization = some (bytes "secret");
  authorization = none;
}

abbrev auth : InboundAuth
auth = record { realm = []; username = bytes "user"; password = bytes "secret" }

-- Credentials that carry the response alone, and a digest that is the password.
abbrev user_credentials : Bytes → Option Credentials
user_credentials h = some (record { uri = []; username = bytes "user"; response = h })

abbrev password_digest : Challenge → DigestOptions → Option Bytes
password_digest c options = some options.password

request_accepted :
    (handle_invite_auth user_credentials password_digest false invites request auth []).ok ≡ true
unfolding handle_invite_auth
request_accepted = refl

handle_invite_auth-Answers_example :
    (h : Bytes) × (cred : Credentials) × Answers user_credentials password_digest invites request
      auth h cred
handle_invite_auth-Answers_example =
    handle_invite_auth-Answers user_credentials password_digest false invites request auth [] refl
      request_accepted

handle_invite_auth-replies_example :
    let r = handle_invite_auth user_credentials password_digest true invites request auth [] in
    (statuses user_credentials password_digest r.replies
      ≡ 100 ∷ final user_credentials password_digest r.ok r.challenge)
    × ((r.ok && r.challenge) ≡ false)
handle_invite_auth-replies_example =
    handle_invite_auth-replies user_credentials password_digest true invites request auth []

abbrev timers : Timers
timers = record { invites = invites; pending = []; timed_out = [] }

fire_all-schedule_example :
    (fire_all (schedule_auth_challenge_timeout timers 0 5) (timers_of 0 (4 ∷ 5 ∷ []))).timed_out
    ≡ 4 ∷ []
fire_all-schedule_example = fire_all-schedule timers 0 5 4 (5 ∷ []) (omega arith)

abbrev dialog : SipInbound
dialog = record {
  invite = true;
  invite_tx = true;
  invite_ok = false;
  ringing = false;
  next_request_cseq = 1;
  has_call_id = true;
  rejected = none;
  sent = [];
}

-- Every try times out.
abbrev no_answer : ℕ → Try
no_answer n = timed_out

abbrev udp : AcceptConf
udp = record { is_udp = true; inbound_wait_ack = true }

abbrev ops : List Op
ops = processed ∷ rang ∷ accepting udp no_answer ∷ closing ∷ closing_with 500 [] ∷ hung_up ∷ []

run-IsOnce_example : IsOnce (run ops dialog)
run-IsOnce_example = run-IsOnce ops dialog (record { ends = omega arith; apart = refl })

accept-Bounded_example : Bounded udp dialog 6 (accept udp no_answer dialog)
accept-Bounded_example = accept-Bounded udp no_answer dialog refl

-- A handler that counts its calls and accepts the PIN 12.
abbrev dispatch : ℕ → Bytes → Bool → ℕ × CallDispatch
dispatch n pin no_pin = (
  n + 1,
  record {
    result = if bytes_eq pin (bytes "12") then dispatch_accept else dispatch_no_rule_reject;
    room_name = bytes "room";
  },
)

abbrev tones : List ℕ
tones = 49 ∷ 0 ∷ 50 ∷ []

abbrev many_tones : List ℕ
many_tones = replicate 17 49

many_tones-IsPinTone : All IsPinTone many_tones
many_tones-IsPinTone = every 17
  where
    every : (n : ℕ) → All IsPinTone (replicate n 49)
    every zero = tt
    every (suc n) = (refl, every n)

abbrev plain_request : Request
plain_request = record request { proxy_authorization = none }

abbrev answer : Credentials
answer = record { uri = []; username = bytes "user"; response = bytes "secret" }

-- A call that is accepted after a subscription, and hung up by the caller.
abbrev answered : Surroundings
answered = record {
  cache = true;
  media_config_ok = true;
  dispatched = some dispatch_accept;
  media_error = none;
  conf = udp;
  try = λ n. acknowledged;
  acked = true;
  first_media = some arrived;
  pin = closed_wrong_pin;
  joined = true;
  published = true;
  subscribed = some arrived;
  end_events = ticked ∷ end_ctx_done ∷ [];
}

handle_invite-IsDone_example :
    IsConsistent (handle_invite answered (new_inbound_call dialog)).0
    × IsDone (handle_invite answered (new_inbound_call dialog))
handle_invite-IsDone_example =
    handle_invite-IsDone answered dialog (record { ends = omega arith; apart = refl }) refl

-- The caller hears 180 and 200, and then a BYE, which answers no BYE of its own.
handle_invite_test :
    (handle_invite answered (new_inbound_call dialog)).0.cc.sent
    ≡ bye 1 ∷ response 200 (bytes "OK") ∷ response 180 (bytes "Ringing") ∷ []
unfolding handle_invite handle_body on_dispatch run_media accept_call accept accept_loop wait_media
    wait_subscribe wait_for_call_end close_with_hangup close_with_reason close close_with_status
    send_bye drop start_ringing respond sip_status_of
handle_invite_test = refl

-- An INVITE with the right credentials on a trunk that asks for them.
abbrev incoming : Incoming
incoming = record {
  source_ok = true;
  valid = true;
  hide_inbound_port = false;
  cached = true;
  replay = none;
  cseq = 2;
  existing = none;
  outbound = none;
  reinvite = not_prepared;
  auth = some auth_password;
  credentials_ok = true;
  challenge_sent = false;
}

process_invite_test : (process_invite incoming dialog).outcome ≡ to_call
unfolding process_invite on_auth
process_invite_test = refl
