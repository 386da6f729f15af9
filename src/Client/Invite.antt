-- ===== src/Client/Invite.antt =====
-- `Invite` and `attemptInvite` of pkg/sip/outbound.go: an INVITE, and again with credentials when the
-- other side asks for them. The client's transactions are a parameter on a state of their own, and
-- so is the digest library. Header fields that only pass through, such as routes, are left out.
pub mod Attempts
pub mod Success
use sip_video.Prelude.{
  ℕ, zero, suc, ◌+◌, ◌%◌, ◌^◌, Option, none, some, Bool, true, false, ◌||◌, List, [], ◌∷◌, ◌++◌,
  ◌==◌, if◌then◌else◌,
}
use sip_video.Text.{Bytes, bytes}
use sip_video.Client.Response.{
  ToHeader, Response, TxEvent, TxError, TxResult, waiting, final, failed, sip_response,
}

-- The header with credentials, by its name and value; the first INVITE has none.
pub record OutInvite : Type 0 where
  pub cseq : ℕ
  pub auth : Option (Bytes × Bytes)

-- A BYE's CSeq is `none` where the code leaves it as the library makes it.
pub data Message : Type 0 where
  invite : OutInvite → Message
  bye : Option ℕ → Message
  refer : ℕ → Message
  cancel ack bye_ok : Message

-- The fields of `sipOutbound` that change, and what is sent, the newest first.
pub record SipOutbound : Type 0 where
  pub invite_req : Option OutInvite
  pub invite_ok : Option Response
  pub tag : Bytes
  pub local_sdp : Bytes
  pub next_cseq : ℕ
  pub refer_cseq : ℕ
  pub latest_invite_cseq : ℕ
  pub sent : List Message

pub data InviteError : Type 0 where
  auth_max_retry request_failed missing_creds no_auth_header invalid_challenge no_to_header
        digest_failed no_to_in_ok no_tag_in_ok :
      InviteError
  tx_failed : TxError → InviteError
  unexpected_status invite_failed : ℕ → Bytes → InviteError

-- Whether an attempt is over with a 200, is refused, is cancelled by the client, is to be made again
-- with credentials, or waits.
pub data Verdict : Type 0 where
  accepted : Response → Verdict
  refused : InviteError → Verdict
  cancelled : TxError → Verdict
  again : Bytes × Bytes → Verdict
  pending : Verdict

pub record Account : Type 0 where
  pub user : Bytes
  pub pass : Bytes

abbrev pub is_empty : Bytes → Bool
is_empty [] = true
is_empty (c ∷ s) = false

-- The statuses whose text is looked for in the body and in a header of Twilio's.
abbrev pub is_refusal : ℕ → Bool
is_refusal status =
    status == 400 || status == 404 || status == 480 || status == 488 || status == 486

abbrev pub header_or : Option Bytes → Bytes → Bytes
header_or none other = other
header_or (some value) other = value

abbrev pub refusal_text : Response → Bytes
refusal_text r = if is_empty r.body then header_or r.twilio_error r.reason else r.body

abbrev pub max_tries : ℕ
max_tries = 5

abbrev pub set_cseq : SipOutbound → SipOutbound
set_cseq c = record c { next_cseq = (c.next_cseq + 1) % 2 ^ 32 }

-- The end of `Invite`, after a 200: the dialog is stored before its tag is looked for.
abbrev pub store : SipOutbound → Option (Bytes × Bytes) → ℕ → Response → SipOutbound
store c auth cseq r = record c {
  invite_req = some (record { cseq = cseq; auth = auth });
  invite_ok = some r;
}

abbrev pub set_tag : SipOutbound → Option Bytes → SipOutbound × Option InviteError
set_tag c none = (record c { tag = [] }, some no_tag_in_ok)
set_tag c (some tag) = (record c { tag = tag }, none)

abbrev pub set_tag_from : SipOutbound → Option ToHeader → SipOutbound × Option InviteError
set_tag_from c none = (c, some no_to_in_ok)
set_tag_from c (some to) = set_tag c to.tag

-- `none` is a wait that goes on; otherwise there is an error or none.
abbrev pub InviteRun : Type 0 → Type 0
InviteRun S = (S × SipOutbound) × Option (Option InviteError)

-- The CANCEL with which `sipResponse` gives a transaction up.
abbrev pub push_cancel : SipOutbound → SipOutbound
push_cancel c = record c { sent = cancel ∷ c.sent }

-- What follows an attempt with a CSeq and an answer; `rest` makes the next one.
abbrev pub after_attempt :
    {S : Type 0}
    → ℕ
    → Option (Bytes × Bytes)
    → S × SipOutbound
    → Verdict
    → (Bytes × Bytes → InviteRun S)
    → InviteRun S
after_attempt cseq auth s pending rest = (s, none)
after_attempt cseq auth s (refused e) rest = (s, some (some e))
after_attempt cseq auth (s, c) (cancelled e) rest = ((s, push_cancel c), some (some (tx_failed e)))
after_attempt cseq auth s (again auth') rest = rest auth'
after_attempt cseq auth (s, c) (accepted resp) rest =
    let (c', err) = set_tag_from (store c auth cseq resp) resp.to in ((s, c'), some err)

abbrev pub answer_with : Bytes → Option Bytes → Verdict
answer_with name none = refused digest_failed
answer_with name (some cred) = again (name, cred)

module _ {Challenge : Type 0} (parse_challenge : Bytes → Option Challenge)
    (digest : Challenge → Bytes → Account → Option Bytes) where
  abbrev pub answer : Account → Bytes → Option Challenge → Option ToHeader → Verdict
  answer account name none to = refused invalid_challenge
  answer account name (some challenge) none = refused no_to_header
  answer account name (some challenge) (some to) =
      answer_with name (digest challenge to.address account)

  abbrev pub answer_header : Account → Bytes → Option Bytes → Option ToHeader → Verdict
  answer_header account name none to = refused no_auth_header
  answer_header account name (some value) to = answer account name (parse_challenge value) to

  -- What follows a request for credentials; the first name is that of the header to answer with.
  unfoldable pub authenticate : Account → Bytes → Option Bytes → Option ToHeader → Verdict
  authenticate account name header to =
      if is_empty account.user || is_empty account.pass
      then refused missing_creds
      else answer_header account name header to

  unfoldable pub on_response : Account → Response → Verdict
  unfolding authenticate
  on_response account r =
      if r.status_code == 200
      then accepted r
      else if is_refusal r.status_code
      then refused (invite_failed r.status_code (refusal_text r))
      else if r.status_code == 401
      then authenticate account (bytes "Authorization") r.www_authenticate r.to
      else if r.status_code == 407
      then authenticate account (bytes "Proxy-Authorization") r.proxy_authenticate r.to
      else refused (unexpected_status r.status_code r.reason)

  -- With whether the transaction was cancelled.
  abbrev pub on_result : Account → Bool → TxResult → Verdict
  on_result account gives_up waiting = pending
  on_result account true (failed e) = cancelled e
  on_result account false (failed e) = refused (tx_failed e)
  on_result account gives_up (final r) = on_response account r

  -- A transaction that cannot be made is `none`.
  abbrev pub on_transaction : Account → Option (List TxEvent) → Verdict
  on_transaction account none = refused request_failed
  on_transaction account (some events) =
      let run = sip_response events in on_result account run.cancelled run.result

  module _ {S : Type 0} (transact : S → OutInvite → S × Option (List TxEvent)) where
    -- `attemptInvite`, up to the response: the CSeq is taken and the request is sent.
    unfoldable pub attempt_invite :
        Account → S → SipOutbound → Option (Bytes × Bytes) → (S × SipOutbound) × Verdict
    attempt_invite account s c auth =
        let req : OutInvite = record { cseq = c.next_cseq; auth = auth } in
        let (s', events) = transact s req in
        ((s', record (set_cseq c) { sent = invite req ∷ c.sent }), on_transaction account events)

    -- The loop, by the tries that are left.
    unfoldable pub auth_loop : ℕ → Account → S → SipOutbound → Option (Bytes × Bytes) → InviteRun S
    unfolding attempt_invite
    auth_loop zero account s c auth = ((s, c), some (some auth_max_retry))
    auth_loop (suc left) account s c auth =
        let r = attempt_invite account s c auth in
        after_attempt c.next_cseq auth r.0 r.1
          λ auth'. auth_loop left account r.0.0 r.0.1 (some auth')

    unfoldable pub make_invite : Account → S → SipOutbound → InviteRun S
    unfolding auth_loop
    make_invite account s c = auth_loop max_tries account s c none
