-- ===== src/Server/Invites.antt =====
-- Authentication of inbound INVITEs in pkg/sip/inbound.go: `getInvite`, `handleInviteAuth`,
-- `scheduleAuthChallengeTimeout` and `countInvite`. An `*inProgressInvite` is an index into a heap,
-- since timers and handlers keep it when the server has forgotten it. The digest library and the
-- nonce, which holds the time, are parameters. Each operation is one step.
pub mod Cache
pub mod Digest
pub mod Timeout
pub mod Handshake
use sip_video.Prelude.{
  ℕ, zero, suc, ◌+◌, ◌^◌, ◌%◌, Option, none, some, Bool, true, false, ◌&&◌, ◌||◌, not, List, [],
  ◌∷◌, ◌++◌, length, drop, get_elem?, set, ltb, leb, ◌==◌, if◌then◌else◌,
}
use sip_video.Text.{Bytes, bytes, bytes_eq}

-- `digest.Challenge`, as far as the server fills it in.
pub record Challenge : Type 0 where
  pub realm : Bytes
  pub nonce : Bytes
  pub algorithm : Bytes

pub record InProgressInvite : Type 0 where
  pub sip_call_id : Bytes
  pub challenge : Challenge
  pub auth_resolved : Bool

-- The heap of entries, and `inProgressInvites`, the oldest first.
pub record Invites : Type 0 where
  pub heap : List InProgressInvite
  pub in_progress : List ℕ

abbrev pub digest_limit : ℕ
digest_limit = 500

abbrev pub no_challenge : Challenge
no_challenge = record { realm = []; nonce = []; algorithm = [] }

abbrev pub has_call_id : Bytes → Option InProgressInvite → Bool
has_call_id id none = false
has_call_id id (some invite) = bytes_eq invite.sip_call_id id

unfoldable pub find : List InProgressInvite → Bytes → List ℕ → Option ℕ
find heap id [] = none
find heap id (p ∷ ps) =
    let rest = find heap id ps in if has_call_id id (get_elem? heap p) then some p else rest

abbrev pub make_room : List ℕ → List ℕ
make_room ps = if leb digest_limit (length ps) then drop 1 ps else ps

abbrev pub add_invite : Invites → Bytes → ℕ × Invites
add_invite s id = (
  length s.heap,
  record {
    heap =
        s.heap
        ++ (record { sip_call_id = id; challenge = no_challenge; auth_resolved = false } ∷ []);
    in_progress = make_room s.in_progress ++ (length s.heap ∷ []);
  },
)

abbrev pub or_add : Option ℕ → Invites → Bytes → ℕ × Invites
or_add (some p) s id = (p, s)
or_add none s id = add_invite s id

unfoldable pub get_invite : Invites → Bytes → ℕ × Invites
unfolding find
get_invite s id = or_add (find s.heap id s.in_progress) s id

abbrev pub update_heap :
    (InProgressInvite → InProgressInvite)
    → ℕ
    → Option InProgressInvite
    → List InProgressInvite
    → List InProgressInvite
update_heap f p none heap = heap
update_heap f p (some invite) heap = set heap p (f invite)

-- A write through a pointer to an entry.
unfoldable pub update : (InProgressInvite → InProgressInvite) → ℕ → Invites → Invites
update f p s = record s { heap = update_heap f p (get_elem? s.heap p) s.heap }

abbrev pub set_challenge : Challenge → InProgressInvite → InProgressInvite
set_challenge c invite = record invite { challenge = c }

abbrev pub set_resolved : Bool → InProgressInvite → InProgressInvite
set_resolved b invite = record invite { auth_resolved = b }

pub record Request : Type 0 where
  pub method : Bytes
  pub call_id : Option Bytes
  pub cseq : Option ℕ
  pub proxy_authorization : Option Bytes
  pub authorization : Option Bytes

pub record InboundAuth : Type 0 where
  pub realm : Bytes
  pub username : Bytes
  pub password : Bytes

-- The fields of `digest.Credentials` that the server reads.
pub record Credentials : Type 0 where
  pub uri : Bytes
  pub username : Bytes
  pub response : Bytes

pub record DigestOptions : Type 0 where
  pub method : Bytes
  pub uri : Bytes
  pub username : Bytes
  pub password : Bytes

-- The responses of `handleInviteAuth`: 100, 407 with its challenge, and the two texts of 401.
pub data Reply : Type 0 where
  processing : Reply
  challenged : Challenge → Reply
  bad_credentials unauthorized : Reply

pub record AuthResult : Type 0 where
  pub ok : Bool
  pub challenge : Bool
  pub replies : List Reply
  pub invites : Invites

abbrev pub user_agent : Bytes
user_agent = bytes "LiveKit"

abbrev pub realm_or_default : Bytes → Bytes
realm_or_default [] = user_agent
realm_or_default (c ∷ realm) = c ∷ realm

abbrev pub is_empty : Bytes → Bool
is_empty [] = true
is_empty (c ∷ s) = false

abbrev pub call_id_of : Option Bytes → Bytes
call_id_of none = []
call_id_of (some id) = id

abbrev pub challenge_of : Option InProgressInvite → Challenge
challenge_of none = no_challenge
challenge_of (some invite) = invite.challenge

abbrev pub refuse : Invites → List Reply → Reply → AuthResult
refuse s replies reply = record {
  ok = false;
  challenge = false;
  replies = replies ++ (reply ∷ []);
  invites = s;
}

module _ (parse_credentials : Bytes → Option Credentials)
    (digest : Challenge → DigestOptions → Option Bytes) where
  abbrev pub check_response : Invites → List Reply → Bytes → Option Bytes → AuthResult
  check_response s replies response none = refuse s replies bad_credentials
  check_response s replies response (some expected) =
      if bytes_eq response expected
      then record { ok = true; challenge = false; replies = replies; invites = s }
      else refuse s replies unauthorized

  abbrev pub options_for : Request → InboundAuth → Credentials → DigestOptions
  options_for req auth cred = record {
    method = req.method;
    uri = cred.uri;
    username = cred.username;
    password = auth.password;
  }

  -- What follows a header that is there, with the entry's challenge.
  abbrev pub check_credentials :
      Invites → List Reply → Request → InboundAuth → Challenge → Option Credentials → AuthResult
  check_credentials s replies req auth c none = refuse s replies bad_credentials
  check_credentials s replies req auth c (some cred) =
      if not (bytes_eq cred.username auth.username)
      then refuse s replies unauthorized
      else if is_empty c.realm
      then refuse s replies bad_credentials
      else check_response s replies cred.response (digest c (options_for req auth cred))

  abbrev pub new_challenge : InboundAuth → Bytes → Challenge
  new_challenge auth nonce = record {
    realm = realm_or_default auth.realm;
    nonce = nonce;
    algorithm = bytes "MD5";
  }

  abbrev pub check_header :
      ℕ × Invites → List Reply → Request → InboundAuth → Bytes → Option Bytes → AuthResult
  check_header (p, s) replies req auth nonce none = record {
    ok = false;
    challenge = true;
    replies = replies ++ (challenged (new_challenge auth nonce) ∷ []);
    invites = update (set_challenge (new_challenge auth nonce)) p s;
  }
  check_header (p, s) replies req auth nonce (some h) =
      check_credentials s replies req auth (challenge_of (get_elem? s.heap p)) (parse_credentials h)

  abbrev pub first_replies : Bool → List Reply
  first_replies hide_inbound_port = if hide_inbound_port then processing ∷ [] else []

  -- `nonce` is what `generateNonce` gives for the request's Call-ID.
  unfoldable pub handle_invite_auth : Bool → Invites → Request → InboundAuth → Bytes → AuthResult
  unfolding get_invite update
  handle_invite_auth hide_inbound_port s req auth nonce =
      if is_empty auth.username || is_empty auth.password
      then record { ok = true; challenge = false; replies = []; invites = s }
      else check_header (get_invite s (call_id_of req.call_id)) (first_replies hide_inbound_port)
          req auth nonce req.proxy_authorization

-- A pending `time.AfterFunc`: the entry it checks, and the call that it ends as an error.
pub record Timer : Type 0 where
  pub invite : ℕ
  pub call : ℕ

pub record Timers : Type 0 where
  pub invites : Invites
  pub pending : List Timer
  pub timed_out : List ℕ

unfoldable pub schedule_auth_challenge_timeout : Timers → ℕ → ℕ → Timers
unfolding update
schedule_auth_challenge_timeout s p call = record s {
  invites = update (set_resolved false) p s.invites;
  pending = s.pending ++ (record { invite = p; call = call } ∷ []);
}

abbrev pub is_resolved : Option InProgressInvite → Bool
is_resolved none = true
is_resolved (some invite) = invite.auth_resolved

-- The function of a timer: the compare-and-swap, and the update of the call.
unfoldable pub fire : Timers → Timer → Timers
unfolding update
fire s t = if is_resolved (get_elem? s.invites.heap t.invite) then s else record s {
  invites = update (set_resolved true) t.invite s.invites;
  timed_out = s.timed_out ++ (t.call ∷ []);
}

-- The line of `processInvite` that an INVITE with credentials or without starts with.
unfoldable pub resolve : Timers → ℕ → Timers
unfolding update
resolve s p = record s { invites = update (set_resolved true) p s.invites }

-- The counters of `inboundCallInfo`, of 32 bits.
pub record InboundCallInfo : Type 0 where
  pub cseq : ℕ
  pub cseq_auth : ℕ
  pub invites : ℕ
  pub invites_auth : ℕ

abbrev pub is_some : Option Bytes → Bool
is_some none = false
is_some (some h) = true

abbrev pub invite_has_auth : Request → Bool
invite_has_auth r = is_some r.proxy_authorization || is_some r.authorization

-- One pair of counters: the CSeq of the first INVITE, and how often it came.
abbrev pub count_one : ℕ → ℕ → ℕ → ℕ × ℕ
count_one seq_no cseq count =
    let first = if cseq == 0 then seq_no else cseq in
    if ltb first seq_no then (first, count) else (first, (count + 1) % 2 ^ 32)

abbrev pub count_seq : Bool → ℕ → InboundCallInfo → InboundCallInfo
count_seq true seq_no c =
    let (cseq, count) = count_one seq_no c.cseq_auth c.invites_auth in
    record c { cseq_auth = cseq; invites_auth = count }
count_seq false seq_no c =
    let (cseq, count) = count_one seq_no c.cseq c.invites in
    record c { cseq = cseq; invites = count }

abbrev pub count_cseq : Bool → Option ℕ → InboundCallInfo → InboundCallInfo
count_cseq has_auth none c = c
count_cseq has_auth (some seq_no) c = count_seq has_auth seq_no c

unfoldable pub count_invite : InboundCallInfo → Request → InboundCallInfo
count_invite c req = count_cseq (invite_has_auth req) req.cseq c
