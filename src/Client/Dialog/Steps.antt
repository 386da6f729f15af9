-- ===== src/Client/Dialog/Steps.antt =====
-- Each operation of `sipOutbound` of pkg/sip/outbound.go but `Invite` is a step of the protocol.
use sip_video.Prelude.{
  ℕ, ◌≡◌, refl, sym, ◌∙◌, Option, none, some, Bool, true, false, List, [], ◌∷◌, arith, ◌==◌, ltb,
  inl, inr, Bool-cases,
}
use sip_video.Prelude.Int.{ℤ}
use sip_video.Text.{Bytes}
use sip_video.Client.Response.{Response, TxEvent, TxResult, waiting, final, failed, sip_response}
use sip_video.Client.Invite.{OutInvite, bye, refer, ack, bye_ok, SipOutbound}
use sip_video.Client.Dialog.{
  write, record_invite, drop, accept_bye, ack_for, ack_result, send_and_ack, bye_for, send_bye,
  send_cancel, close_for,
}
use sip_video.Client.Dialog.Phases.{
  Phase, down, up, phase_of, phase, stay, hang_up, answer_bye, send_ack, send_refer, end_bye,
  end_bye_acked, closing_bye, Refines,
}
use sip_video.Client.Refer.{refer_sent, transfer_for}
use sip_video.Protocol.Status.{ErrorCode}
use sip_video.Protocol.Refer.{ReferEvent}

pub stay-Refines :
    (p : Phase) (c c' : SipOutbound) → phase c' ≡ some p → c'.sent ≡ c.sent → Refines p c c'
stay-Refines p c c' e d = record {
  to = p;
  messages = [];
  in_phase = e;
  is_sent = d;
  is_step = stay;
}

pub hang_up-Refines : (p : Phase) (c : SipOutbound) → Refines p c (drop c)
unfolding drop
hang_up-Refines p c = record {
  to = down;
  messages = [];
  in_phase = refl;
  is_sent = refl;
  is_step = hang_up;
}

pub accept_bye-Refines : (p : Phase) (c : SipOutbound) → Refines p c (accept_bye c)
unfolding accept_bye drop
accept_bye-Refines p c = record {
  to = down;
  messages = bye_ok ∷ [];
  in_phase = refl;
  is_sent = refl;
  is_step = answer_bye;
}

-- The phase that a step starts from is the one there is.
from_phase : (x p : Phase) (c c' : SipOutbound) → some x ≡ some p → Refines x c c' → Refines p c c'
from_phase x p c c' e v = let same : x ≡ p = ground (arith, e) in rw⁻¹ same v

pub record_invite-Refines :
    (p : Phase) (c : SipOutbound) (cseq : ℕ) → phase c ≡ some p → Refines p c (record_invite cseq c)
unfolding record_invite
record_invite-Refines p c cseq e = elim (Bool-cases (ltb c.latest_invite_cseq cseq)) [
  | inl t ↦ rw t (stay-Refines p c (record c { latest_invite_cseq = cseq }) e refl)
  | inr t ↦ rw t (stay-Refines p c c e refl)
]

up_ack-Refines :
    (m : OutInvite) (r : Response) (c : SipOutbound)
    → phase c ≡ some (up m r)
    → Refines (up m r) c (write ack c)
up_ack-Refines m r c e = record {
  to = up m r;
  messages = ack ∷ [];
  in_phase = e;
  is_sent = refl;
  is_step = send_ack;
}

pub ack_for-Refines :
    (p : Phase) (m : Option OutInvite) (r : Option Response) (c : SipOutbound)
    → phase_of m r ≡ some p
    → phase c ≡ some p
    → Refines p c (ack_for m r c).0
ack_for-Refines p none r c d e = stay-Refines p c c e refl
ack_for-Refines p (some m) none c d e = stay-Refines p c c e refl
ack_for-Refines p (some m) (some r) c d e =
    from_phase (up m r) p c (write ack c) d (up_ack-Refines m r c (e ∙ sym d))

sent_bye-Refines :
    (m : OutInvite) (r : Response) (c : SipOutbound) (n : ℕ)
    → Refines (up m r) c (write (bye (some n)) (drop c))
unfolding drop
sent_bye-Refines m r c n = record {
  to = down;
  messages = bye (some n) ∷ [];
  in_phase = refl;
  is_sent = refl;
  is_step = end_bye;
}

acked_bye-Refines :
    (m : OutInvite) (r : Response) (c : SipOutbound) (n : ℕ)
    → Refines (up m r) c (write ack (write (bye (some n)) (drop c)))
unfolding drop
acked_bye-Refines m r c n = record {
  to = down;
  messages = ack ∷ bye (some n) ∷ [];
  in_phase = refl;
  is_sent = refl;
  is_step = end_bye_acked;
}

ack_result-Refines :
    (m : OutInvite) (r : Response) (c : SipOutbound) (n : ℕ) (res : TxResult)
    → Refines (up m r) c (ack_result res (write (bye (some n)) (drop c)))
unfolding drop
ack_result-Refines m r c n waiting = sent_bye-Refines m r c n
ack_result-Refines m r c n (failed x) = sent_bye-Refines m r c n
ack_result-Refines m r c n (final x) = elim (Bool-cases (x.status_code == 200)) [
  | inl e ↦ rw e (acked_bye-Refines m r c n)
  | inr e ↦ rw e (sent_bye-Refines m r c n)
]

send_and_ack-Refines :
    (m : OutInvite) (r : Response) (c : SipOutbound) (n : ℕ) (events : Option (List TxEvent))
    → Refines (up m r) c (send_and_ack (bye (some n)) events (drop c))
unfolding send_and_ack
send_and_ack-Refines m r c n none = sent_bye-Refines m r c n
send_and_ack-Refines m r c n (some events) = ack_result-Refines m r c n (sip_response events).result

bye_for-Refines :
    (p : Phase) (closing : Bool) (events : Option (List TxEvent)) (m : Option OutInvite)
    (r : Option Response) (c : SipOutbound)
    → phase_of m r ≡ some p
    → phase c ≡ some p
    → Refines p c (bye_for closing events m r c)
unfolding bye_for drop
bye_for-Refines p closing events none r c d e = stay-Refines p c c e refl
bye_for-Refines p closing events (some m) none c d e = stay-Refines p c c e refl
bye_for-Refines p true events (some m) (some r) c d e =
    from_phase (up m r) p c (write (bye none) c) d (record {
      to = up m r;
      messages = bye none ∷ [];
      in_phase = e ∙ sym d;
      is_sent = refl;
      is_step = closing_bye;
    })
bye_for-Refines p false events (some m) (some r) c d e =
    from_phase (up m r) p c (send_and_ack (bye (some c.next_cseq)) events (drop c)) d
      (send_and_ack-Refines m r c c.next_cseq events)

pub close-Refines :
    (p : Phase) (closing : Bool) (events : Option (List TxEvent)) (m : Option OutInvite)
    (r : Option Response) (c : SipOutbound)
    → phase_of m r ≡ some p
    → phase c ≡ some p
    → Refines p c (close_for closing events m r c)
unfolding close_for send_bye send_cancel
close-Refines p closing events none none c d e = hang_up-Refines p c
close-Refines p closing events (some m) none c d e = ground (arith, d)
close-Refines p closing events m (some r) c d e =
    bye_for-Refines p closing events c.invite_req c.invite_ok c e e

module _ (get_error_code : ℤ → Bytes → ErrorCode) where
  pub transfer_for-Refines :
      (p : Phase) (closing : Bool) (events : Option (List TxEvent)) (es : List ReferEvent)
      (m : Option OutInvite) (r : Option Response) (c : SipOutbound)
      → phase_of m r ≡ some p
      → phase c ≡ some p
      → Refines p c (transfer_for get_error_code closing events es m r c).0
  unfolding transfer_for
  transfer_for-Refines p closing events es none r c d e = stay-Refines p c c e refl
  transfer_for-Refines p closing events es (some m) none c d e = stay-Refines p c c e refl
  transfer_for-Refines p true events es (some m) (some r) c d e = stay-Refines p c c e refl
  transfer_for-Refines p false events es (some m) (some r) c d e =
      from_phase (up m r) p c (refer_sent c) d (record {
        to = up m r;
        messages = refer c.next_cseq ∷ [];
        in_phase = e ∙ sym d;
        is_sent = refl;
        is_step = send_refer;
      })
