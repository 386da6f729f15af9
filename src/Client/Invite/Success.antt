-- ===== src/Client/Invite/Success.antt =====
-- What `Invite` of pkg/sip/outbound.go leaves in the dialog when it succeeds.
use sip_video.Prelude.{
  ℕ, zero, suc, ◌≡◌, refl, Option, none, some, Bool, true, false, List, ◌∷◌, arith,
}
use sip_video.Text.{Bytes, bytes}
use sip_video.Client.Response.{
  ToHeader, Response, TxEvent, TxResult, waiting, final, failed, sip_response,
}
use sip_video.Client.Invite.{
  OutInvite, Message, invite, SipOutbound, Verdict, accepted, refused, cancelled, again, pending,
  Account, max_tries, answer, answer_with, answer_header, authenticate, on_response, on_result,
  on_transaction, attempt_invite, store, set_tag, set_tag_from, InviteRun, after_attempt, auth_loop,
  make_invite,
}
use sip_video.Client.Invite.Attempts.{pushed_once}

-- The dialog after a success: the last INVITE, its 200, and the tag of its To header.
pub record IsEstablished (c : SipOutbound) (m : OutInvite) (r : Response) (to : ToHeader)
    : Type 0 where
  pub is_last : (sent : List Message) × (c.sent ≡ invite m ∷ sent)
  pub requested : c.invite_req ≡ some m
  pub answered : c.invite_ok ≡ some r
  pub is_ok : r.status_code ≡ 200
  pub addressed : r.to ≡ some to
  pub tagged : to.tag ≡ some c.tag

abbrev pub IsSuccess : {S : Type 0} → InviteRun S → Type 0
IsSuccess run = run.1 ≡ some none

-- The dialog of a success, from the stored one.
abbrev pub Established : SipOutbound → Type 0
Established c = (m : OutInvite) × (r : Response) × (to : ToHeader) × IsEstablished c m r to

tagged-Established :
    (c : SipOutbound) (auth : Option (Bytes × Bytes)) (resp : Response) (to : ToHeader)
    (tag : Option Bytes)
    → resp.status_code ≡ 200
    → resp.to ≡ some to
    → to.tag ≡ tag
    → (set_tag (store (pushed_once c auth) auth c.next_cseq resp) tag).1 ≡ none
    → Established (set_tag (store (pushed_once c auth) auth c.next_cseq resp) tag).0
tagged-Established c auth resp to none ok has tagged e = ground arith
tagged-Established c auth resp to (some tag) ok has tagged e = (
  record { cseq = c.next_cseq; auth = auth },
  resp,
  to,
  record {
    is_last = (c.sent, refl);
    requested = refl;
    answered = refl;
    is_ok = ok;
    addressed = has;
    tagged = tagged;
  },
)

addressed-Established :
    (c : SipOutbound) (auth : Option (Bytes × Bytes)) (resp : Response) (to : Option ToHeader)
    → resp.status_code ≡ 200
    → resp.to ≡ to
    → (set_tag_from (store (pushed_once c auth) auth c.next_cseq resp) to).1 ≡ none
    → Established (set_tag_from (store (pushed_once c auth) auth c.next_cseq resp) to).0
addressed-Established c auth resp none ok has e = ground arith
addressed-Established c auth resp (some to) ok has e =
    tagged-Established c auth resp to to.tag ok has refl e

-- A verdict holds a response only when it is a 200.
abbrev pub IsSound : Verdict → Type 0
IsSound (accepted r) = r.status_code ≡ 200
IsSound _ = Unit {0}

module _ {S : Type 0} where
  after_attempt-Established :
      (auth : Option (Bytes × Bytes)) (c : SipOutbound) (s : S) (v : Verdict)
      (rest : Bytes × Bytes → InviteRun S)
      → IsSound v
      → ((auth' : Bytes × Bytes) → IsSuccess (rest auth') → Established (rest auth').0.1)
      → IsSuccess (after_attempt c.next_cseq auth (s, pushed_once c auth) v rest)
      → Established (after_attempt c.next_cseq auth (s, pushed_once c auth) v rest).0.1
  after_attempt-Established auth c s pending rest ok ih e = ground arith
  after_attempt-Established auth c s (refused x) rest ok ih e = ground arith
  after_attempt-Established auth c s (cancelled x) rest ok ih e = ground arith
  after_attempt-Established auth c s (again auth') rest ok ih e = ih auth' e
  after_attempt-Established auth c s (accepted resp) rest ok ih e =
      addressed-Established c auth resp resp.to ok refl (ground (arith, e))

-- The verdicts that are no success.
abbrev pub IsUnfinished : Verdict → Type 0
IsUnfinished (accepted r) = ⊥
IsUnfinished _ = Unit {0}

answer_with-IsUnfinished :
    (name : Bytes) (cred : Option Bytes) → IsUnfinished (answer_with name cred)
answer_with-IsUnfinished name none = tt
answer_with-IsUnfinished name (some cred) = tt

module _ {Challenge : Type 0} (parse_challenge : Bytes → Option Challenge)
    (digest : Challenge → Bytes → Account → Option Bytes) where
  answer-IsUnfinished :
      (account : Account) (name : Bytes) (ch : Option Challenge) (to : Option ToHeader)
      → IsUnfinished (answer parse_challenge digest account name ch to)
  answer-IsUnfinished account name none to = tt
  answer-IsUnfinished account name (some ch) none = tt
  answer-IsUnfinished account name (some ch) (some to) =
      answer_with-IsUnfinished name (digest ch to.address account)

  answer_header-IsUnfinished :
      (account : Account) (name : Bytes) (header : Option Bytes) (to : Option ToHeader)
      → IsUnfinished (answer_header parse_challenge digest account name header to)
  answer_header-IsUnfinished account name none to = tt
  answer_header-IsUnfinished account name (some value) to =
      answer-IsUnfinished account name (parse_challenge value) to

  authenticate-IsUnfinished :
      (account : Account) (name : Bytes) (header : Option Bytes) (to : Option ToHeader)
      → IsUnfinished (authenticate parse_challenge digest account name header to)
  unfolding authenticate
  authenticate-IsUnfinished account name header to =
      ground (arith, answer_header-IsUnfinished account name header to)

  on_response-accepted :
      (account : Account) (x r : Response)
      → on_response parse_challenge digest account x ≡ accepted r
      → r.status_code ≡ 200
  unfolding on_response
  on_response-accepted account x r e = ground (
    arith,
    authenticate-IsUnfinished account (bytes "Authorization") x.www_authenticate x.to,
    authenticate-IsUnfinished account (bytes "Proxy-Authorization") x.proxy_authenticate x.to,
  )

  on_response-IsSound :
      (account : Account) (r : Response) → IsSound (on_response parse_challenge digest account r)
  on_response-IsSound account r = sound (on_response parse_challenge digest account r) refl
    where
      sound : (v : Verdict) → on_response parse_challenge digest account r ≡ v → IsSound v
      sound (accepted x) e = on_response-accepted account r x e
      sound (refused x) e = tt
      sound (cancelled x) e = tt
      sound (again x) e = tt
      sound pending e = tt

  on_result-IsSound :
      (account : Account) (gives_up : Bool) (r : TxResult)
      → IsSound (on_result parse_challenge digest account gives_up r)
  on_result-IsSound account gives_up waiting = tt
  on_result-IsSound account true (failed e) = tt
  on_result-IsSound account false (failed e) = tt
  on_result-IsSound account gives_up (final r) = on_response-IsSound account r

  on_transaction-IsSound :
      (account : Account) (events : Option (List TxEvent))
      → IsSound (on_transaction parse_challenge digest account events)
  on_transaction-IsSound account none = tt
  on_transaction-IsSound account (some events) =
      let run = sip_response events in on_result-IsSound account run.cancelled run.result

  module _ {S : Type 0} (transact : S → OutInvite → S × Option (List TxEvent)) where
    auth_loop-Established :
        (left : ℕ) (account : Account) (s : S) (c : SipOutbound) (auth : Option (Bytes × Bytes))
        → IsSuccess (auth_loop parse_challenge digest transact left account s c auth)
        → Established (auth_loop parse_challenge digest transact left account s c auth).0.1
    unfolding auth_loop attempt_invite
    auth_loop-Established zero account s c auth e = ground arith
    auth_loop-Established (suc left) account s c auth e =
        let r = attempt_invite parse_challenge digest transact account s c auth in
        after_attempt-Established auth c r.0.0 r.1
          (λ auth'. auth_loop parse_challenge digest transact left account r.0.0 r.0.1 (some auth'))
          (on_transaction-IsSound account
            (transact s (record { cseq = c.next_cseq; auth = auth })).1)
          (λ auth'. auth_loop-Established left account r.0.0 (pushed_once c auth) (some auth')) e

    -- When `Invite` returns without an error the dialog is established: the last INVITE that was sent
    -- is stored with the response to it, which is a 200 with a To header whose tag is the dialog's.
    pub make_invite-Established :
        (account : Account) (s : S) (c : SipOutbound)
        → IsSuccess (make_invite parse_challenge digest transact account s c)
        → Established (make_invite parse_challenge digest transact account s c).0.1
    unfolding make_invite
    make_invite-Established account s c e = auth_loop-Established max_tries account s c none e
