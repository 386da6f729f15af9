-- ===== src/Server/Call/Closing.antt =====
-- An inbound call of pkg/sip/inbound.go is closed exactly once, whatever it runs into.
use sip_video.Prelude.{
  ℕ, zero, suc, ◌≡◌, refl, Bool, true, false, ◌&&◌, not, List, length, arith, Bool-cases, inl, inr,
}
use sip_video.Text.{Bytes}
use sip_video.Calls.Monitor.{Termination}
use sip_video.Calls.Status.{CallStatus, sip_status_of}
use sip_video.Server.Inbound.{
  SipInbound, drop, respond, processing, accept_bye, send_ok, max_retries, respond_and_drop,
  start_ringing, AcceptConf, Try, accept, accept_loop, send_bye, send_status, close_with_status,
}
use sip_video.Server.Inbound as Dialog
use sip_video.Server.Inbound.Once.{
  IsOnce, is_open, Op, processed, hung_up, closing, closing_with, refusing, dropping, accepting,
  rang, step, step-IsOnce,
}
use sip_video.Server.Call.{InboundCall, CallInfo, closed, close}

-- A dialog that is open has its INVITE.
abbrev pub IsLinked : SipInbound → Type 0
IsLinked d = (is_open d && not d.invite) ≡ false

-- A call that is done was terminated once, its session ended once, it has left the server's table and
-- its dialog is over; before, nothing of that has happened.
abbrev pub Counted : Bool → List Termination → ℕ → Bool → SipInbound → Type 0
Counted true ts ended registered d =
    (length ts ≡ 1) × (ended ≡ 1) × (registered ≡ false) × (is_open d ≡ false)
Counted false ts ended registered d = (length ts ≡ 0) × (ended ≡ 0) × (registered ≡ true)

-- The counts of a call that is done or not.
abbrev pub CountedAt : Bool → InboundCall → Type 0
CountedAt done c = Counted done c.terminations c.sessions_ended c.registered c.cc

pub record IsConsistent (c : InboundCall) : Type 0 where
  pub once : IsOnce c.cc
  pub linked : IsLinked c.cc
  pub counted : CountedAt c.done c

accept_loop-invite :
    (conf : AcceptConf) (try : ℕ → Try) (left : ℕ) (d : SipInbound)
    → (accept_loop conf try left d).0.invite ≡ d.invite
unfolding accept_loop
accept_loop-invite conf try zero d = ground arith
accept_loop-invite conf try (suc left) d =
    ground (arith, accept_loop-invite conf try left (send_ok d))

step-IsLinked : (op : Op) (d : SipInbound) → IsLinked d → IsLinked (step op d)
unfolding drop respond respond_and_drop processing start_ringing accept accept_bye send_bye
    send_status close_with_status Dialog.close
step-IsLinked dropping d v = ground arith
step-IsLinked processed d v = ground arith
step-IsLinked rang d v = ground arith
step-IsLinked hung_up d v = ground arith
step-IsLinked closing d v = ground arith
step-IsLinked (refusing cache status reason) d v = ground arith
step-IsLinked (accepting conf try) d v =
    ground (arith, accept_loop-invite conf try (max_retries conf) (record d { ringing = false }))
step-IsLinked (closing_with code status) d v = ground arith

closed_dialog :
    (code : ℕ) (reason : Bytes) (d : SipInbound)
    → IsLinked d
    → is_open (close_with_status code reason d) ≡ false
unfolding close_with_status send_bye send_status drop
closed_dialog code reason d v = ground arith

close-true :
    (status : CallStatus) (t : Termination) (c : InboundCall) → c.done ≡ true → close status t c ≡ c
unfolding close
close-true status t c e = rw e refl

close-false :
    (status : CallStatus) (t : Termination) (c : InboundCall)
    → c.done ≡ false
    → close status t c ≡ closed status t c
unfolding close
close-false status t c e = rw e refl

Counted-closed :
    (status : CallStatus) (t : Termination) (c : InboundCall)
    → IsLinked c.cc
    → CountedAt false c
    → CountedAt true (closed status t c)
Counted-closed status t c linked v = (
  ground (arith, v.0),
  ground (arith, v.1),
  refl,
  closed_dialog (sip_status_of status).0 (sip_status_of status).1 c.cc linked,
)

counted_at : (b : Bool) (c : InboundCall) → c.done ≡ b → CountedAt c.done c → CountedAt b c
counted_at b c e v = rw⁻¹ e v

pub close-IsConsistent :
    (status : CallStatus) (t : Termination) (c : InboundCall)
    → IsConsistent c
    → IsConsistent (close status t c)
close-IsConsistent status t c v = elim (Bool-cases c.done) [
  | inl e ↦ rw (close-true status t c e) v
  | inr e ↦ rw (close-false status t c e) (record {
    once = step-IsOnce (closing_with (sip_status_of status).0 (sip_status_of status).1) c.cc v.once;
    linked =
        step-IsLinked (closing_with (sip_status_of status).0 (sip_status_of status).1) c.cc
          v.linked;
    counted = Counted-closed status t c v.linked (counted_at false c e v.counted);
  })
]

pub close-done :
    (status : CallStatus) (t : Termination) (c : InboundCall) → (close status t c).done ≡ true
close-done status t c = elim (Bool-cases c.done) [
  | inl e ↦ rw (close-true status t c e) e
  | inr e ↦ rw (close-false status t c e) refl
]

step-over : (op : Op) (d : SipInbound) → is_open d ≡ false → is_open (step op d) ≡ false
unfolding drop respond respond_and_drop processing start_ringing accept accept_bye send_bye
    send_status close_with_status Dialog.close
step-over dropping d v = ground arith
step-over processed d v = ground arith
step-over rang d v = ground arith
step-over hung_up d v = ground arith
step-over closing d v = ground arith
step-over (refusing cache status reason) d v = ground arith
step-over (accepting conf try) d v = ground arith
step-over (closing_with code status) d v = ground arith

Counted-step :
    (b : Bool) (op : Op) (ts : List Termination) (ended : ℕ) (registered : Bool) (d : SipInbound)
    → Counted b ts ended registered d
    → Counted b ts ended registered (step op d)
Counted-step true op ts ended registered d v = (v.0, v.1, v.2, step-over op d v.3)
Counted-step false op ts ended registered d v = v

-- An operation on the dialog keeps a call consistent.
pub dialog-IsConsistent :
    (op : Op) (c : InboundCall) → IsConsistent c → IsConsistent (record c { cc = step op c.cc })
dialog-IsConsistent op c v = record {
  once = step-IsOnce op c.cc v.once;
  linked = step-IsLinked op c.cc v.linked;
  counted = Counted-step c.done op c.terminations c.sessions_ended c.registered c.cc v.counted;
}

-- What is set beside the dialog and the counts does not matter.
pub info-IsConsistent :
    (c : InboundCall) (info : CallInfo) → IsConsistent c → IsConsistent (record c { info = info })
info-IsConsistent c info v = record { once = v.once; linked = v.linked; counted = v.counted }
