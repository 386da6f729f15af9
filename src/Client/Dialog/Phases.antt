-- ===== src/Client/Dialog/Phases.antt =====
-- The dialog of an outbound call against a protocol of two phases: what each operation of `sipOutbound`
-- of pkg/sip/outbound.go may send, and where it leads.
use sip_video.Prelude.{
  ℕ, ◌≡◌, refl, sym, ◌∙◌, Option, none, some, List, [], ◌∷◌, ◌++◌, append_assoc, All, ◌⊎◌, inl, inr,
}
use sip_video.Text.{Bytes}
use sip_video.Client.Response.{ToHeader, Response}
use sip_video.Client.Invite.{
  OutInvite, Message, invite, bye, refer, cancel, ack, bye_ok, SipOutbound, Verdict, accepted,
  refused, cancelled, again, pending, InviteRun, store, set_tag, set_tag_from, after_attempt,
}
use sip_video.Client.Invite.Attempts.{pushed_once, set_tag_from-sent}

-- No call, or one that is established by an INVITE and its 200.
pub data Phase : Type 0 where
  down : Phase
  up : OutInvite → Response → Phase

abbrev pub phase_of : Option OutInvite → Option Response → Option Phase
phase_of none none = some down
phase_of (some m) (some r) = some (up m r)
phase_of none (some r) = none
phase_of (some m) none = none

abbrev pub phase : SipOutbound → Option Phase
phase c = phase_of c.invite_req c.invite_ok

abbrev pub IsInvite : Message → Type 0
IsInvite (invite m) = Unit {0}
IsInvite _ = ⊥

-- INVITEs, of which the last one may be cancelled, the newest first.
abbrev pub IsCancelled : List Message → Type 0
IsCancelled [] = Unit {0}
IsCancelled (cancel ∷ ms) = All IsInvite ms
IsCancelled (m ∷ ms) = IsInvite m × All IsInvite ms

-- The steps of the protocol, with what they send, the newest first. A BYE or a REFER is sent in an
-- established call only, and a CANCEL at the end of a dialing that fails; a BYE ends the call unless the client is closing.
pub data Step : Phase → List Message → Phase → Type 0 where
  dial_fails : {p : Phase} {ms : List Message} → IsCancelled ms → Step p ms p
  dialled :
      {p : Phase} {ms : List Message} {m : OutInvite} {r : Response}
      → All IsInvite ms
      → Step p ms (up m r)
  stay : {p : Phase} → Step p [] p
  hang_up : {p : Phase} → Step p [] down
  answer_bye : {p : Phase} → Step p (bye_ok ∷ []) down
  send_ack : {m : OutInvite} {r : Response} → Step (up m r) (ack ∷ []) (up m r)
  send_refer : {m : OutInvite} {r : Response} {n : ℕ} → Step (up m r) (refer n ∷ []) (up m r)
  end_bye : {m : OutInvite} {r : Response} {n : ℕ} → Step (up m r) (bye (some n) ∷ []) down
  end_bye_acked :
      {m : OutInvite} {r : Response} {n : ℕ} → Step (up m r) (ack ∷ bye (some n) ∷ []) down
  closing_bye : {m : OutInvite} {r : Response} → Step (up m r) (bye none ∷ []) (up m r)

-- The dialog `c'` after a step from `c`.
pub record Refines (p : Phase) (c c' : SipOutbound) : Type 0 where
  pub to : Phase
  pub messages : List Message
  pub in_phase : phase c' ≡ some to
  pub is_sent : c'.sent ≡ messages ++ c.sent
  pub is_step : Step p messages to

-- How a dialog comes out of the attempts of `Invite`, which sent some messages.
abbrev pub Dialled : List Message → SipOutbound → SipOutbound → Type 0
Dialled ms c c' =
    ((phase c' ≡ phase c) × IsCancelled ms)
    ⊎ ((m : OutInvite) × (r : Response) × (phase c' ≡ some (up m r)) × All IsInvite ms)

pub record Dials (c c' : SipOutbound) : Type 0 where
  pub messages : List Message
  pub is_sent : c'.sent ≡ messages ++ c.sent
  pub is_dialled : Dialled messages c c'

All-append : (ms ns : List Message) → All IsInvite ms → All IsInvite ns → All IsInvite (ms ++ ns)
All-append [] ns v w = w
All-append (m ∷ ms) ns v w = (v.0, All-append ms ns v.1 w)

IsCancelled-append :
    (ms : List Message) (m : OutInvite) → IsCancelled ms → IsCancelled (ms ++ invite m ∷ [])
IsCancelled-append [] m v = (tt, tt)
IsCancelled-append (cancel ∷ ms) m v = All-append ms (invite m ∷ []) v (tt, tt)
IsCancelled-append (invite x ∷ ms) m v = (tt, All-append ms (invite m ∷ []) v.1 (tt, tt))
IsCancelled-append (bye n ∷ ms) m v = absurd v.0
IsCancelled-append (refer n ∷ ms) m v = absurd v.0
IsCancelled-append (ack ∷ ms) m v = absurd v.0
IsCancelled-append (bye_ok ∷ ms) m v = absurd v.0

Dialled-append :
    (ms : List Message) (m : OutInvite) (auth : Option (Bytes × Bytes)) (c c' : SipOutbound)
    → Dialled ms (pushed_once c auth) c'
    → Dialled (ms ++ invite m ∷ []) c c'
Dialled-append ms m auth c c' (inl (same, v)) = inl (same, IsCancelled-append ms m v)
Dialled-append ms m auth c c' (inr (x, r, there, v)) =
    inr (x, r, there, All-append ms (invite m ∷ []) v (tt, tt))

-- A failed attempt, and then the rest.
pub attempt-Dials :
    (c c' : SipOutbound) (auth : Option (Bytes × Bytes))
    → Dials (pushed_once c auth) c'
    → Dials c c'
attempt-Dials c c' auth v =
    let m : OutInvite = record { cseq = c.next_cseq; auth = auth } in
    record {
      messages = v.messages ++ invite m ∷ [];
      is_sent = v.is_sent ∙ sym (append_assoc v.messages (invite m ∷ []) c.sent);
      is_dialled = Dialled-append v.messages m auth c c' v.is_dialled;
    }

pub still-Dials : (c c' : SipOutbound) → c'.sent ≡ c.sent → Dialled [] c c' → Dials c c'
still-Dials c c' e d = record { messages = []; is_sent = e; is_dialled = d }

set_tag_from-phase :
    (c : SipOutbound) (to : Option ToHeader) → phase (set_tag_from c to).0 ≡ phase c
set_tag_from-phase c none = refl
set_tag_from-phase c (some to) = set_tag-phase to.tag
  where
    set_tag-phase : (tag : Option Bytes) → phase (set_tag c tag).0 ≡ phase c
    set_tag-phase none = refl
    set_tag-phase (some tag) = refl

pub after_attempt-Dials :
    {S : Type 0} (auth : Option (Bytes × Bytes)) (c : SipOutbound) (s : S) (v : Verdict)
    (rest : Bytes × Bytes → InviteRun S)
    → ((auth' : Bytes × Bytes) → Dials (pushed_once c auth) (rest auth').0.1)
    → Dials (pushed_once c auth) (after_attempt c.next_cseq auth (s, pushed_once c auth) v rest).0.1
after_attempt-Dials auth c s pending rest ih =
    still-Dials (pushed_once c auth) (pushed_once c auth) refl (inl (refl, tt))
after_attempt-Dials auth c s (refused e) rest ih =
    still-Dials (pushed_once c auth) (pushed_once c auth) refl (inl (refl, tt))
after_attempt-Dials auth c s (cancelled e) rest ih = record {
  messages = cancel ∷ [];
  is_sent = refl;
  is_dialled = inl (refl, tt);
}
after_attempt-Dials auth c s (again auth') rest ih = ih auth'
after_attempt-Dials auth c s (accepted resp) rest ih =
    let m : OutInvite = record { cseq = c.next_cseq; auth = auth } in
    let stored = store (pushed_once c auth) auth c.next_cseq resp in
    still-Dials (pushed_once c auth) (set_tag_from stored resp.to).0
      (set_tag_from-sent stored resp.to).0 (inr (m, resp, set_tag_from-phase stored resp.to, tt))
