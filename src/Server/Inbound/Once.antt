-- ===== src/Server/Inbound/Once.antt =====
-- How an inbound dialog of pkg/sip/inbound.go can end, over any sequence of its operations.
use sip_video.Prelude.{
  ℕ, zero, suc, ◌+◌, ◌≤◌, ◌≡◌, Option, none, some, Bool, true, false, ◌&&◌, ◌||◌, List, [], ◌∷◌,
  leb, if◌then◌else◌, arith, Bool-cases, inl, inr,
}
use sip_video.Text.{Bytes, bytes}
use sip_video.Server.Inbound.{
  Message, response, bye, SipInbound, drop, respond, respond_and_drop, processing, start_ringing,
  Try, AcceptConf, max_retries, accept_loop, accept, accept_bye, send_bye, send_status,
  close_with_status, close,
}

pub data Op : Type 0 where
  dropping processed rang hung_up closing : Op
  refusing : Bool → ℕ → Bytes → Op
  accepting : AcceptConf → (ℕ → Try) → Op
  closing_with : ℕ → Bytes → Op

abbrev pub or_same : SipInbound → Option SipInbound → SipInbound
or_same c none = c
or_same c (some d) = d

abbrev pub step : Op → SipInbound → SipInbound
step dropping c = drop c
step processed c = processing c
step rang c = or_same c (start_ringing c)
step hung_up c = accept_bye c
step closing c = close c
step (refusing cache status reason) c = respond_and_drop cache status reason c
step (accepting conf try) c = (accept conf try c).0
step (closing_with code status) c = close_with_status code status c

abbrev pub run : List Op → SipInbound → SipInbound
run [] c = c
run (op ∷ ops) c = run ops (step op c)

-- The refusals and the BYEs among the messages.
abbrev pub endings : List Message → ℕ
endings [] = 0
endings (response code reason ∷ ms) = (if leb 300 code then 1 else 0) + endings ms
endings (bye cseq ∷ ms) = 1 + endings ms

-- Before and after the 200 there is no ending yet; a dialog that is over has at most one.
abbrev pub is_open : SipInbound → Bool
is_open c = c.invite_tx || c.invite_ok

pub record IsOnce (c : SipInbound) : Type 0 where
  pub ends : endings c.sent ≤ (if is_open c then 0 else 1)
  pub apart : (c.invite_tx && c.invite_ok) ≡ false

accept_loop-IsOnce :
    (conf : AcceptConf) (try : ℕ → Try) (left : ℕ) (c : SipInbound)
    → c.invite_tx ≡ true
    → IsOnce c
    → IsOnce (accept_loop conf try left c).0
unfolding accept_loop
accept_loop-IsOnce conf try zero c open_tx v = ground arith
accept_loop-IsOnce conf try (suc left) c open_tx v =
    let d : SipInbound = record c { sent = response 200 (bytes "OK") ∷ c.sent } in
    let rest = accept_loop-IsOnce conf try left d open_tx (ground arith) in ground (arith, rest)

pub step-IsOnce : (op : Op) (c : SipInbound) → IsOnce c → IsOnce (step op c)
unfolding drop respond respond_and_drop processing start_ringing accept accept_bye send_bye
    send_status close_with_status close
step-IsOnce dropping c v = ground arith
step-IsOnce processed c v = ground arith
step-IsOnce rang c v = ground arith
step-IsOnce hung_up c v = ground arith
step-IsOnce closing c v = ground arith
step-IsOnce (refusing cache status reason) c v = ground arith
step-IsOnce (accepting conf try) c v = elim (Bool-cases c.invite_tx) [
  | inl pending ↦
      let started : SipInbound = record c { ringing = false } in
      let looped =
        accept_loop-IsOnce conf try (max_retries conf) started pending
          (record { ends = v.ends; apart = v.apart }) in
      ground (arith, looped, pending)
  | inr gone ↦ ground arith
]
step-IsOnce (closing_with code status) c v = ground arith

-- Whatever operations run on a dialog, in any order and any number of times, and however the tries
-- to send the 200 go, it ends at most once: at most one message in all is a refusal or a BYE, and
-- none while the INVITE is open or accepted.
pub run-IsOnce : (ops : List Op) (c : SipInbound) → IsOnce c → IsOnce (run ops c)
run-IsOnce [] c v = v
run-IsOnce (op ∷ ops) c v = run-IsOnce ops (step op c) (step-IsOnce op c v)
