-- ===== src/Media/Latency.antt =====
-- `LatencyStats` of pkg/sip/media_latency.go, which many goroutines update without a lock. A
-- goroutine in `Record` is a thread that stands before one of its atomic operations, and a step
-- runs that operation.
pub mod Interleaving
use sip_video.Prelude.{
  ℕ, zero, suc, ◌+◌, ◌-◌, ◌/◌, ◌%◌, ◌^◌, Option, none, some, Bool, true, false, List, [], ◌∷◌,
  get_elem?, set, leb, ◌==◌, if◌then◌else◌,
}
use sip_video.Prelude.Int.{ℤ, pos, negsuc}

-- Atomic uint64 values.
pub record LatencyStats : Type 0 where
  pub count : ℕ
  pub sum_ns : ℕ
  pub max_ns : ℕ

-- `Record` for a number of nanoseconds: before the count, before the sum, before the load of the
-- maximum, before the comparison with what was loaded, and at the end.
pub data Thread : Type 0 where
  counting summing loading finished : ℕ → Thread
  comparing : ℕ → ℕ → Thread

-- The conversion of an int64 to a uint64.
abbrev pub uint64 : ℤ → ℕ
uint64 (pos n) = n % 2 ^ 64
uint64 (negsuc n) = 2 ^ 64 - 1 - n % 2 ^ 64

unfoldable pub record_latency : ℤ → Thread
record_latency d = counting (uint64 d)

unfoldable pub step_thread : LatencyStats → Thread → LatencyStats × Thread
step_thread s (counting ns) = (record s { count = (s.count + 1) % 2 ^ 64 }, summing ns)
step_thread s (summing ns) = (record s { sum_ns = (s.sum_ns + ns) % 2 ^ 64 }, loading ns)
step_thread s (loading ns) = (s, comparing ns s.max_ns)
step_thread s (comparing ns old) =
    if leb ns old
    then (s, finished ns)
    else if s.max_ns == old
    then (record s { max_ns = ns }, finished ns)
    else (s, loading ns)
step_thread s (finished ns) = (s, finished ns)

pub record LatencyStatsSnapshot : Type 0 where
  pub count : ℕ
  pub avg_ns : ℕ
  pub max_ns : ℕ

-- `Load`, with the three values read at once.
unfoldable pub load : LatencyStats → LatencyStatsSnapshot
load s = record {
  count = s.count;
  avg_ns = if leb 1 s.count then s.sum_ns / s.count else 0;
  max_ns = s.max_ns;
}
