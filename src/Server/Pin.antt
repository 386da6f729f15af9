-- ===== src/Server/Pin.antt =====
-- `pinPrompt` of pkg/sip/inbound.go: the digits of a PIN, gathered until `#`. What the prompt waits
-- for comes as a list of events. The dispatch handler is a parameter on a state of its own. Prompts
-- played to the caller are left out; a digit is an ASCII byte.
pub mod Gathering
use sip_video.Prelude.{
  ℕ, suc, ◌+◌, Option, none, some, Bool, true, false, ◌||◌, not, List, [], ◌∷◌, ◌++◌, length, ltb,
  ◌==◌, if◌then◌else◌,
}
use sip_video.Text.{Bytes}

-- What the loop selects on; `closed` is the end of the channel of digits.
pub data Event : Type 0 where
  cancelled call_done media_timeout closed : Event
  digit : ℕ → Event

pub data DispatchResult : Type 0 where
  dispatch_accept dispatch_request_pin dispatch_no_rule_reject dispatch_no_rule_drop
        dispatch_service_unavailable :
      DispatchResult

pub record CallDispatch : Type 0 where
  pub result : DispatchResult
  pub room_name : Bytes

-- How the prompt returns: it closed the call for one of the reasons, joins a room, or still waits
-- with the digits so far.
pub data Outcome : Type 0 where
  closed_cancelled closed_hangup closed_media_timeout closed_dtmf : Outcome
  closed_dispatch_error closed_wrong_pin : Outcome
  joins : CallDispatch → Outcome
  waiting : Bytes → Outcome

abbrev pub pin_limit : ℕ
pin_limit = 16

abbrev pub is_empty : Bytes → Bool
is_empty [] = true
is_empty (c ∷ s) = false

abbrev pub verdict_of : DispatchResult → CallDispatch → Outcome
verdict_of dispatch_service_unavailable disp = closed_dispatch_error
verdict_of dispatch_accept disp = if is_empty disp.room_name then closed_wrong_pin else joins disp
verdict_of dispatch_request_pin disp = closed_wrong_pin
verdict_of dispatch_no_rule_reject disp = closed_wrong_pin
verdict_of dispatch_no_rule_drop disp = closed_wrong_pin

abbrev pub verdict : CallDispatch → Outcome
verdict disp = verdict_of disp.result disp

module _ {S : Type 0} (dispatch : S → Bytes → Bool → S × CallDispatch) where
  -- The check at `#`, with the PIN and whether it is missing.
  abbrev pub check_pin : S → Bytes → S × Outcome
  check_pin s pin = let (s', disp) = dispatch s pin (is_empty pin) in (s', verdict disp)

  -- The loop, with the PIN so far.
  unfoldable pub gather : S → Bytes → List Event → S × Outcome
  gather s pin [] = (s, waiting pin)
  gather s pin (cancelled ∷ events) = (s, closed_cancelled)
  gather s pin (call_done ∷ events) = (s, closed_hangup)
  gather s pin (media_timeout ∷ events) = (s, closed_media_timeout)
  gather s pin (closed ∷ events) = (s, closed_dtmf)
  gather s pin (digit d ∷ events) =
      let ignored = gather s pin events in
      let longer = gather s (pin ++ (d ∷ [])) events in
      if d == 0
      then ignored
      else if d == b'#'
      then check_pin s pin
      else if ltb pin_limit (length (pin ++ (d ∷ [])))
      then (s, closed_wrong_pin)
      else longer

  unfoldable pub pin_prompt : S → List Event → S × Outcome
  unfolding gather
  pin_prompt s events = gather s [] events
