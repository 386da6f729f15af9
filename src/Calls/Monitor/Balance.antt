-- ===== src/Calls/Monitor/Balance.antt =====
-- The gauge of active calls and the counter of ended calls of pkg/stats/monitor.go, over any calls.
use sip_video.Prelude.{
  ℕ, ◌+◌, ◌≡◌, Option, none, some, Bool, true, false, List, [], ◌∷◌, ◌++◌, get_elem?, set,
}
use sip_video.Calls.Monitor.{Metric, calls_active, Event, inc, dec, CallMonitor, Op, apply}

-- The calls and everything sent to the metrics library, the newest first.
pub record Monitored : Type 0 where
  pub calls : List CallMonitor
  pub events : List Event

abbrev pub add_result : Monitored → ℕ → CallMonitor × List Event → Monitored
add_result s i (c, es) = record { calls = set s.calls i c; events = es ++ s.events }

abbrev pub apply_found : Op → Monitored → ℕ → Option CallMonitor → Monitored
apply_found op s i none = s
apply_found op s i (some c) = add_result s i (apply op c)

-- A method of the `i`-th call.
abbrev pub step : Monitored → ℕ × Op → Monitored
step s (i, op) = apply_found op s i (get_elem? s.calls i)

abbrev pub run : Monitored → List (ℕ × Op) → Monitored
run s [] = s
run s (x ∷ xs) = run (step s x) xs

abbrev pub is_active : Metric → ℕ
is_active calls_active = 1
is_active _ = 0

-- How often the gauge of active calls went up, and down, over all its labels.
abbrev pub ups : List Event → ℕ
ups [] = 0
ups (inc m l ∷ es) = is_active m + ups es
ups (dec m l ∷ es) = ups es

abbrev pub downs : List Event → ℕ
downs [] = 0
downs (inc m l ∷ es) = downs es
downs (dec m l ∷ es) = is_active m + downs es

abbrev pub bit : Bool → ℕ
bit true = 1
bit false = 0

abbrev pub count_started : List CallMonitor → ℕ
count_started [] = 0
count_started (c ∷ cs) = bit c.started + count_started cs

abbrev pub IsBalanced : Monitored → Type 0
IsBalanced s = ups s.events ≡ downs s.events + count_started s.calls
