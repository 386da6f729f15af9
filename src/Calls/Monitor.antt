-- ===== src/Calls/Monitor.antt =====
-- `CallMonitor` and `Monitor.Health` of pkg/stats/monitor.go. The metrics library keeps a value for
-- each metric and set of labels: a model of what is sent to it is the list of its increments and
-- decrements, the newest first. Durations and sizes, which are only observed, are left out.
pub mod Balance
use sip_video.Prelude.{
  ℕ, zero, suc, ◌+◌, Option, none, some, Bool, true, false, not, List, [], ◌∷◌, get_elem?, set,
  if◌then◌else◌,
}
use sip_video.Text.{Bytes, bytes}

pub data Metric : Type 0 where
  invite_req_raw invite_req invite_accept invite_err calls_active calls_terminated
        calls_termination_failures packets_rtp transfers_total transfers_active transfers_succeeded
        transfers_failed :
      Metric

abbrev pub Labels : Type 0
Labels = List (Bytes × Bytes)

pub data Event : Type 0 where
  inc dec : Metric → Labels → Event

-- The result and the reason of the end of a call.
pub record Termination : Type 0 where
  pub result : Bytes
  pub reason : Bytes

pub record CallMonitor : Type 0 where
  pub dir : Bytes
  pub to_host : Bytes
  pub started : Bool
  pub terminated : Bool

unfoldable pub new_call : Bytes → Bytes → CallMonitor
new_call dir to_host = record { dir = dir; to_host = to_host; started = false; terminated = false }

abbrev pub labels_short : CallMonitor → Labels → Labels
labels_short c l = (bytes "dir", c.dir) ∷ l

abbrev pub labels : CallMonitor → Labels → Labels
labels c l = (bytes "dir", c.dir) ∷ (bytes "to", c.to_host) ∷ l

abbrev pub ended_labels : Termination → Labels
ended_labels t = (bytes "result", t.result) ∷ (bytes "reason", t.reason) ∷ []

-- The methods of a call's monitor.
pub data Op : Type 0 where
  invite_requested invite_accepted call_start call_end call_termination_failed : Op
  invite_error_short call_terminate : Termination → Op
  invite_error rtp_packet_send rtp_packet_recv : Bytes → Op

abbrev pub packet_labels : CallMonitor → Bytes → Bytes → Labels
packet_labels c op payload_type = labels c ((bytes "op", op) ∷ (bytes "payload", payload_type) ∷ [])

-- The monitor after a method, and what it sends, the newest first.
unfoldable pub apply : Op → CallMonitor → CallMonitor × List Event
apply invite_requested c = (c, inc invite_req (labels_short c []) ∷ [])
apply invite_accepted c = (c, inc invite_accept (labels c []) ∷ [])
apply call_start c =
    if c.started
    then (c, [])
    else (record c { started = true }, inc calls_active (labels c []) ∷ [])
apply call_end c =
    if not c.started
    then (c, [])
    else (record c { started = false }, dec calls_active (labels c []) ∷ [])
apply call_termination_failed c = (c, inc calls_termination_failures (labels_short c []) ∷ [])
apply (invite_error_short t) c =
    let unknown : Bytes × Bytes = (bytes "to", bytes "unknown") in
    (
      c,
      inc calls_terminated (labels_short c (unknown ∷ ended_labels t))
          ∷ inc invite_err (labels_short c ((bytes "reason", t.reason) ∷ unknown ∷ []))
          ∷ [],
    )
apply (call_terminate t) c =
    if c.terminated
    then (c, [])
    else (record c { terminated = true }, inc calls_terminated (labels c (ended_labels t)) ∷ [])
apply (invite_error reason) c = (c, inc invite_err (labels c ((bytes "reason", reason) ∷ [])) ∷ [])
apply (rtp_packet_send payload_type) c =
    (c, inc packets_rtp (packet_labels c (bytes "send") payload_type) ∷ [])
apply (rtp_packet_recv payload_type) c =
    (c, inc packets_rtp (packet_labels c (bytes "recv") payload_type) ∷ [])

-- The methods for transfers, by the direction of the call.
unfoldable pub transfer_started : Bytes → List Event
transfer_started dir =
    inc transfers_active ((bytes "dir", dir) ∷ [])
    ∷ inc transfers_total ((bytes "dir", dir) ∷ [])
    ∷ []

unfoldable pub transfer_succeeded : Bytes → List Event
transfer_succeeded dir =
    dec transfers_active ((bytes "dir", dir) ∷ [])
    ∷ inc transfers_succeeded ((bytes "dir", dir) ∷ [])
    ∷ []

unfoldable pub transfer_failed : Bytes → Bytes → Bool → List Event
transfer_failed dir reason change_active =
    let failure = inc transfers_failed ((bytes "dir", dir) ∷ (bytes "reason", reason) ∷ []) in
    if change_active
    then dec transfers_active ((bytes "dir", dir) ∷ []) ∷ failure ∷ []
    else failure ∷ []

pub data HealthStatus : Type 0 where
  health_ok health_not_started health_stopped health_under_load health_disabled : HealthStatus

-- `under_load` is the comparison of floating-point numbers of processors.
unfoldable pub health : Bool → Bool → Bool → HealthStatus
health started shutdown under_load =
    if not started
    then health_not_started
    else if shutdown
    then health_stopped
    else if under_load
    then health_under_load
    else health_ok
