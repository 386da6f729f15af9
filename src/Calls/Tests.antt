-- ===== src/Calls/Tests.antt =====
-- The theorems on the reports of a call at concrete inputs.
use sip_video.Prelude.{ℕ, zero, suc, Option, none, some, Bool, true, false, List, [], ◌∷◌}
use sip_video.Text.{bytes}
use sip_video.Calls.State.{UpdateRequest, CallState}
use sip_video.Calls.State.Sync.{Op, deferring, updating, flushing}
use sip_video.Calls.Monitor.{CallMonitor}
use sip_video.Calls.Monitor.Balance.{Monitored}

-- A client that counts requests and refuses the first.
abbrev refuse_first : ℕ → UpdateRequest ℕ ℕ → ℕ × Bool
refuse_first zero req = (1, false)
refuse_first (suc n) req = (suc (suc n), true)

abbrev new_state : CallState ℕ ℕ (ℕ × Option ℕ)
new_state = record { cli = some (0, none); info = 4; transfer_infos = []; dirty = true }

abbrev ops : List (Op ℕ)
ops = updating suc ∷ deferring suc ∷ flushing ∷ []

abbrev call : CallState ℕ ℕ ℕ
call = record { cli = some 1; info = 4; transfer_infos = []; dirty = false }

abbrev monitor : CallMonitor
monitor = record { dir = bytes "inbound"; to_host = bytes "a"; started = false; terminated = false }

abbrev monitored : Monitored
monitored = record { calls = monitor ∷ monitor ∷ []; events = [] }
