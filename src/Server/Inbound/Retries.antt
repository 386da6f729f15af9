-- ===== src/Server/Inbound/Retries.antt =====
-- How often `Accept` of pkg/sip/inbound.go sends the 200, and how it leaves the dialog.
use sip_video.Prelude.{
  ℕ, zero, suc, ◌+◌, ◌≤◌, ◌≡◌, refl, Option, none, some, Bool, true, false, ◌&&◌, not, List, [],
  ◌∷◌, ◌==◌, if◌then◌else◌, arith, Bool-cases, inl, inr,
}
use sip_video.Server.Inbound.{
  Message, response, bye, SipInbound, Try, not_sent, acknowledged, timed_out, AcceptError,
  already_rejected, send_failed, no_ack, AcceptConf, max_retries, accepted, send_ok, missing_ack,
  after_try, accept_loop, accept,
}

abbrev pub count_ok : List Message → ℕ
count_ok [] = 0
count_ok (response code reason ∷ ms) = (if code == 200 then 1 else 0) + count_ok ms
count_ok (bye cseq ∷ ms) = count_ok ms

-- After an accepted call the transaction is over, also without an ACK; when a try cannot be sent
-- the INVITE is still open, so that it can be refused.
abbrev pub IsLeft : SipInbound → Option AcceptError → Type 0
IsLeft c none = (c.invite_ok ≡ true) × (c.invite_tx ≡ false)
IsLeft c (some no_ack) = (c.invite_ok ≡ true) × (c.invite_tx ≡ false)
IsLeft c (some send_failed) = (c.invite_ok ≡ false) × (c.invite_tx ≡ true)
IsLeft c (some already_rejected) = c.invite_tx ≡ false

abbrev pub Bounded : AcceptConf → SipInbound → ℕ → SipInbound × Option AcceptError → Type 0
Bounded conf c n (d, err) = (count_ok d.sent ≤ count_ok c.sent + n) × IsLeft d err

Bounded-either :
    (conf : AcceptConf) (c : SipInbound) (n : ℕ) (b : Bool) (r s : SipInbound × Option AcceptError)
    → Bounded conf c n r
    → Bounded conf c n s
    → Bounded conf c n (if b then r else s)
Bounded-either conf c n true r s x y = x
Bounded-either conf c n false r s x y = y

missing_ack-Bounded :
    (conf : AcceptConf) (c : SipInbound) → Bounded conf c 0 (accepted c, missing_ack conf)
missing_ack-Bounded conf c = elim (Bool-cases conf.inbound_wait_ack) [
  | inl waits ↦ rw waits (omega arith, (refl, refl))
  | inr goes ↦ rw goes (omega arith, (refl, refl))
]

after_try-Bounded :
    (conf : AcceptConf) (c : SipInbound) (t : Try) (n : ℕ) (r : SipInbound × Option AcceptError)
    → c.invite_tx ≡ true
    → c.invite_ok ≡ false
    → Bounded conf (send_ok c) n r
    → Bounded conf c (suc n) (after_try conf c t r)
after_try-Bounded conf c not_sent n r pending fresh b = (omega arith, (fresh, pending))
after_try-Bounded conf c acknowledged n r pending fresh b = (omega arith, (refl, refl))
after_try-Bounded conf c timed_out n (d, err) pending fresh b =
    Bounded-either conf c (suc n) (not conf.is_udp && not conf.inbound_wait_ack)
      (accepted (send_ok c), none) (d, err) (omega arith, (refl, refl)) (omega (arith, b.0), b.1)

accept_loop-Bounded :
    (conf : AcceptConf) (try : ℕ → Try) (left : ℕ) (c : SipInbound)
    → c.invite_tx ≡ true
    → c.invite_ok ≡ false
    → Bounded conf c (suc left) (accept_loop conf try left c)
unfolding accept_loop
accept_loop-Bounded conf try zero c pending fresh =
    after_try-Bounded conf c (try zero) 0 (accepted (send_ok c), missing_ack conf) pending fresh
      (missing_ack-Bounded conf (send_ok c))
accept_loop-Bounded conf try (suc left) c pending fresh =
    after_try-Bounded conf c (try (suc left)) (suc left) (accept_loop conf try left (send_ok c))
      pending fresh (accept_loop-Bounded conf try left (send_ok c) pending fresh)

abbrev pub limit : AcceptConf → ℕ
limit conf = if not conf.is_udp then 2 else if conf.inbound_wait_ack then 6 else 3

limit-max_retries : (conf : AcceptConf) → limit conf ≡ suc (max_retries conf)
limit-max_retries conf = ground arith

accept-pending :
    (conf : AcceptConf) (try : ℕ → Try) (c : SipInbound)
    → c.invite_tx ≡ true
    → accept conf try c ≡ accept_loop conf try (max_retries conf) (record c { ringing = false })
unfolding accept
accept-pending conf try c pending = simp pending refl

accept-gone :
    (conf : AcceptConf) (try : ℕ → Try) (c : SipInbound)
    → c.invite_tx ≡ false
    → accept conf try c ≡ (c, some already_rejected)
unfolding accept
accept-gone conf try c gone = simp gone refl

-- Whatever becomes of each try, the 200 is sent at most 6 times over UDP when the server waits for
-- the ACK, 3 times when it does not, and twice over any other transport; and the dialog is left
-- accepted, with or without an ACK, unless a try could not be sent, which leaves the INVITE open.
pub accept-Bounded :
    (conf : AcceptConf) (try : ℕ → Try) (c : SipInbound)
    → c.invite_ok ≡ false
    → Bounded conf c (limit conf) (accept conf try c)
accept-Bounded conf try c fresh = elim (Bool-cases c.invite_tx) [
  | inl pending ↦
      let looped =
        accept_loop-Bounded conf try (max_retries conf) (record c { ringing = false }) pending
          fresh in
      rw (accept-pending conf try c pending, limit-max_retries conf) looped
  | inr gone ↦ rw (accept-gone conf try c gone) (omega arith, gone)
]
