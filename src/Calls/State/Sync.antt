-- ===== src/Calls/State/Sync.antt =====
-- When the record that `CallState` of pkg/sip/analytics.go holds has reached its client.
use sip_video.Prelude.{
  ◌≡◌, ◌⊎◌, Option, none, some, Bool, true, false, List, [], ◌∷◌, if◌then◌else◌,
}
use sip_video.Calls.State.{
  UpdateRequest, call_info, transfer_info, CallState, defer_update, force_flush, flush, update,
}

-- A client that also keeps the last record that it accepted.
abbrev pub kept : {Info Code : Type 0} → Bool → UpdateRequest Info Code → Option Info → Option Info
kept ok (call_info info) last = if ok then some info else last
kept ok (transfer_info ti) last = last

abbrev pub tracked :
    {Info Code C : Type 0}
    → (C → UpdateRequest Info Code → C × Bool)
    → C × Option Info
    → UpdateRequest Info Code
    → (C × Option Info) × Bool
tracked send (c, last) req = let (c', ok) = send c req in ((c', kept ok req last), ok)

-- The operations on the record.
pub data Op (Info : Type 0) : Type 0 where
  deferring : (Info → Info) → Op Info
  updating : (Info → Info) → Op Info
  flushing forcing : Op Info

module _ {Info Code C : Type 0} (send : C → UpdateRequest Info Code → C × Bool) where
  abbrev pub apply :
      Op Info → CallState Info Code (C × Option Info) → CallState Info Code (C × Option Info)
  apply (deferring f) s = defer_update (tracked send) f s
  apply (updating f) s = update (tracked send) f s
  apply flushing s = flush (tracked send) s
  apply forcing s = force_flush (tracked send) s

  abbrev pub apply_all :
      List (Op Info) → CallState Info Code (C × Option Info) → CallState Info Code (C × Option Info)
  apply_all [] s = s
  apply_all (op ∷ ops) s = apply_all ops (apply op s)

  abbrev pub last_of : Option (C × Option Info) → Option Info
  last_of none = none
  last_of (some (c, last)) = last

  abbrev pub has_client : Option (C × Option Info) → Bool
  has_client none = false
  has_client (some c) = true

  -- The record is marked as changed, or it is the one that the client accepted last.
  pub record IsSynced (s : CallState Info Code (C × Option Info)) : Type 0 where
    pub connected : has_client s.cli ≡ true
    pub known : (s.dirty ≡ true) ⊎ (last_of s.cli ≡ some s.info)
