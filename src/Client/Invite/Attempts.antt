-- ===== src/Client/Invite/Attempts.antt =====
-- The INVITEs that `Invite` of pkg/sip/outbound.go sends, and the dialog that it leaves.
use sip_video.Prelude.{
  ℕ, zero, suc, ◌+◌, ◌%◌, ◌^◌, ◌≤◌, ◌≡◌, refl, Option, none, some, List, [], ◌∷◌, ◌++◌, length, All,
  arith,
}
use sip_video.Text.{Bytes}
use sip_video.Client.Response.{ToHeader, TxEvent}
use sip_video.Client.Invite.{
  OutInvite, Message, invite, cancel, SipOutbound, Verdict, accepted, refused, cancelled, again,
  pending, Account, max_tries, set_cseq, attempt_invite, push_cancel, store, set_tag, set_tag_from,
  InviteRun, after_attempt, auth_loop, make_invite,
}

-- The messages after some INVITEs, in their order.
abbrev pub pushed : List OutInvite → List Message → List Message
pushed [] sent = sent
pushed (m ∷ ms) sent = pushed ms (invite m ∷ sent)

abbrev pub HasAuth : OutInvite → Type 0
HasAuth m = (auth : Bytes × Bytes) × (m.auth ≡ some auth)

-- The CSeqs of some INVITEs count on from `n`, and `n'` is the next one.
abbrev pub IsCounted : ℕ → List OutInvite → ℕ → Type 0
IsCounted n [] n' = n' ≡ n
IsCounted n (m ∷ ms) n' = (m.cseq ≡ n) × IsCounted ((n + 1) % 2 ^ 32) ms n'

-- The first INVITE has the credentials `auth`, and the others have some.
abbrev pub IsAnswering : Option (Bytes × Bytes) → List OutInvite → Type 0
IsAnswering auth [] = Unit {0}
IsAnswering auth (m ∷ ms) = (m.auth ≡ auth) × All HasAuth ms

-- What may follow the last INVITE: nothing, or a CANCEL.
abbrev pub IsEnding : List Message → Type 0
IsEnding [] = Unit {0}
IsEnding (m ∷ ms) = (m ≡ cancel) × (ms ≡ [])

-- What the loop adds to the dialog `c` with INVITEs `ms`.
pub record IsAttempted (left : ℕ) (auth : Option (Bytes × Bytes)) (c c' : SipOutbound)
    (ms : List OutInvite) : Type 0 where
  pub ending : List Message
  pub is_ending : IsEnding ending
  pub is_sent : c'.sent ≡ ending ++ pushed ms c.sent
  pub is_counted : IsCounted c.next_cseq ms c'.next_cseq
  pub is_answering : IsAnswering auth ms
  pub is_few : length ms ≤ left

-- The dialog after an INVITE is sent.
abbrev pub pushed_once : SipOutbound → Option (Bytes × Bytes) → SipOutbound
pushed_once c auth = record (set_cseq c) {
  sent = invite (record { cseq = c.next_cseq; auth = auth }) ∷ c.sent;
}

IsAnswering-All :
    (auth : Bytes × Bytes) (ms : List OutInvite) → IsAnswering (some auth) ms → All HasAuth ms
IsAnswering-All auth [] v = tt
IsAnswering-All auth (m ∷ ms) v = ((auth, v.0), v.1)

pub set_tag_from-sent :
    (c : SipOutbound) (to : Option ToHeader)
    → ((set_tag_from c to).0.sent ≡ c.sent) × ((set_tag_from c to).0.next_cseq ≡ c.next_cseq)
set_tag_from-sent c none = (refl, refl)
set_tag_from-sent c (some to) = set_tag_sent to.tag
  where
    set_tag_sent :
        (tag : Option Bytes)
        → ((set_tag c tag).0.sent ≡ c.sent) × ((set_tag c tag).0.next_cseq ≡ c.next_cseq)
    set_tag_sent none = (refl, refl)
    set_tag_sent (some tag) = (refl, refl)

-- One INVITE, and then an end of the loop that sends nothing or a CANCEL.
sent_once :
    (left : ℕ) (auth : Option (Bytes × Bytes)) (c c' : SipOutbound) (ending : List Message)
    → IsEnding ending
    → c'.sent ≡ ending ++ (pushed_once c auth).sent
    → c'.next_cseq ≡ (pushed_once c auth).next_cseq
    → (ms : List OutInvite) × IsAttempted (suc left) auth c c' ms
sent_once left auth c c' ending v e d = (
  record { cseq = c.next_cseq; auth = auth } ∷ [],
  record {
    ending = ending;
    is_ending = v;
    is_sent = e;
    is_counted = (refl, d);
    is_answering = (refl, tt);
    is_few = omega arith;
  },
)

-- One INVITE, and then those of the rest of the loop.
sent_more :
    (left : ℕ) (auth : Option (Bytes × Bytes)) (auth' : Bytes × Bytes) (c c' : SipOutbound)
    (ms : List OutInvite)
    → IsAttempted left (some auth') (pushed_once c auth) c' ms
    → (ms : List OutInvite) × IsAttempted (suc left) auth c c' ms
sent_more left auth auth' c c' ms v = (
  record { cseq = c.next_cseq; auth = auth } ∷ ms,
  record {
    ending = v.ending;
    is_ending = v.is_ending;
    is_sent = v.is_sent;
    is_counted = (refl, v.is_counted);
    is_answering = (refl, IsAnswering-All auth' ms v.is_answering);
    is_few = omega (arith, v.is_few);
  },
)

module _ {S : Type 0} where
  after_attempt-IsAttempted :
      (left : ℕ) (auth : Option (Bytes × Bytes)) (c : SipOutbound) (s : S) (v : Verdict)
      (rest : Bytes × Bytes → InviteRun S)
      → ((auth' : Bytes × Bytes)
          → (ms : List OutInvite) × IsAttempted left
              (some auth')
              (pushed_once c auth)
              (rest auth').0.1
              ms)
      → (ms : List OutInvite) × IsAttempted
          (suc left)
          auth
          c
          (after_attempt c.next_cseq auth (s, pushed_once c auth) v rest).0.1
          ms
  after_attempt-IsAttempted left auth c s pending rest ih =
      sent_once left auth c (pushed_once c auth) [] tt refl refl
  after_attempt-IsAttempted left auth c s (refused e) rest ih =
      sent_once left auth c (pushed_once c auth) [] tt refl refl
  after_attempt-IsAttempted left auth c s (cancelled e) rest ih =
      sent_once left auth c (push_cancel (pushed_once c auth)) (cancel ∷ []) (refl, refl) refl refl
  after_attempt-IsAttempted left auth c s (again auth') rest ih =
      sent_more left auth auth' c (rest auth').0.1 (ih auth').0 (ih auth').1
  after_attempt-IsAttempted left auth c s (accepted resp) rest ih =
      let stored = store (pushed_once c auth) auth c.next_cseq resp in
      let kept = set_tag_from-sent stored resp.to in
      sent_once left auth c (set_tag_from stored resp.to).0 [] tt kept.0 kept.1

module _ {Challenge : Type 0} (parse_challenge : Bytes → Option Challenge)
    (digest : Challenge → Bytes → Account → Option Bytes) {S : Type 0}
    (transact : S → OutInvite → S × Option (List TxEvent)) where
  auth_loop-IsAttempted :
      (left : ℕ) (account : Account) (s : S) (c : SipOutbound) (auth : Option (Bytes × Bytes))
      → (ms : List OutInvite) × IsAttempted left auth c
          (auth_loop parse_challenge digest transact left account s c auth).0.1
          ms
  unfolding auth_loop attempt_invite
  auth_loop-IsAttempted zero account s c auth = (
    [],
    record {
      ending = [];
      is_ending = tt;
      is_sent = refl;
      is_counted = refl;
      is_answering = tt;
      is_few = omega arith;
    },
  )
  auth_loop-IsAttempted (suc left) account s c auth =
      let r = attempt_invite parse_challenge digest transact account s c auth in
      after_attempt-IsAttempted left auth c r.0.0 r.1
        (λ auth'. auth_loop parse_challenge digest transact left account r.0.0 r.0.1 (some auth'))
        λ auth'. auth_loop-IsAttempted left account r.0.0 (pushed_once c auth) (some auth')

  -- `Invite` sends at most five INVITEs whatever the other side answers. Their CSeqs count on, by one
  -- and wrapping at 32 bits, from the dialog's next one, which ends past the last of them. The first
  -- has no credentials and each later one has some. Nothing else is sent but, after the last of them, at
  -- most one CANCEL.
  pub make_invite-IsAttempted :
      (account : Account) (s : S) (c : SipOutbound)
      → (ms : List OutInvite) × IsAttempted 5 none c
          (make_invite parse_challenge digest transact account s c).0.1
          ms
  unfolding make_invite
  make_invite-IsAttempted account s c = auth_loop-IsAttempted max_tries account s c none
