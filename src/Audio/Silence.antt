-- ===== src/Audio/Silence.antt =====
-- pkg/sip/silence_filler.go: silence suppression seen in RTP timestamps, filled with silence.
-- The two sinks are code that the filler calls through interfaces: functions on states of their own.
pub mod Timeline
use sip_video.Prelude.{
  ℕ, zero, suc, ◌+◌, ◌-◌, ◌*◌, ◌/◌, ◌%◌, ◌^◌, Option, none, some, Bool, true, false, ◌&&◌, List, [],
  ◌∷◌, replicate, ltb, leb, ◌==◌, if◌then◌else◌, not,
}
use sip_video.Prelude.Int.{ℤ, pos, negsuc}

-- The fields of `rtp.Header` that the filler reads: a uint16 and a uint32.
pub record Header : Type 0 where
  pub sequence_number : ℕ
  pub timestamp : ℕ

-- Times are nanoseconds since the zero `time.Time`. The counters are atomic uint64.
pub record SilenceFiller : Type 0 where
  pub max_gap_size : ℕ
  pub rtp_samples_per_frame : ℕ
  pub pcm_samples_per_frame : ℕ
  pub last_ts : ℕ
  pub last_seq : ℕ
  pub packets : ℕ
  pub gap_count : ℕ
  pub gap_size_sum : ℕ
  pub last_print_time : ℕ

abbrev pub u16 : ℕ → ℕ
u16 n = n % 2 ^ 16

abbrev pub u32 : ℕ → ℕ
u32 n = n % 2 ^ 32

abbrev pub u64 : ℕ → ℕ
u64 n = n % 2 ^ 64

unfoldable pub with_max_gap_size : ℤ → SilenceFiller → SilenceFiller
with_max_gap_size (pos zero) h = h
with_max_gap_size (pos (suc n)) h = record h { max_gap_size = suc n }
with_max_gap_size (negsuc n) h = h

apply_options : List (SilenceFiller → SilenceFiller) → SilenceFiller → SilenceFiller
apply_options [] h = h
apply_options (option ∷ options) h = apply_options options (option h)

-- The first argument is `rtp.DefFramesPerSec` of the media SDK.
unfoldable pub new_silence_filler : ℕ → ℕ → ℕ → List (SilenceFiller → SilenceFiller) → SilenceFiller
unfolding apply_options
new_silence_filler frames_per_sec rtp_clock_rate pcm_sample_rate options =
    apply_options options (record {
      max_gap_size = 25;
      rtp_samples_per_frame = rtp_clock_rate / frames_per_sec;
      pcm_samples_per_frame = pcm_sample_rate / frames_per_sec;
      last_ts = 0;
      last_seq = 0;
      packets = 0;
      gap_count = 0;
      gap_size_sum = 0;
      last_print_time = 0;
    })

-- `currentSeq - (lastSeq + 1)` in uint16, and `currentTS - (lastTS + samples)` in uint32.
abbrev pub seq_diff : ℕ → ℕ → ℕ
seq_diff current last = u16 (current + 2 ^ 16 - u16 (last + 1))

abbrev pub ts_diff : ℕ → ℕ → ℕ → ℕ
ts_diff current last samples = u32 (current + 2 ^ 32 - u32 (last + u32 samples))

-- The verdict and the count of missed frames, beside the filler after the two swaps.
unfoldable pub is_silence_suppression : SilenceFiller → Header → (Bool × ℕ) × SilenceFiller
is_silence_suppression h header =
    let packets = u64 (h.packets + 1) in
    let h' = record h {
      packets = packets;
      last_seq = header.sequence_number;
      last_ts = header.timestamp;
    } in
    let missed =
      ts_diff header.timestamp (u32 h.last_ts) h.rtp_samples_per_frame / h.rtp_samples_per_frame in
    if packets == 1
    then ((false, 0), h')
    else if not (seq_diff header.sequence_number (u16 h.last_seq) == 0)
    then ((false, 0), h')
    else if missed == 0
    then ((false, 0), h')
    else ((true, missed), h')

-- 15 seconds
abbrev print_interval : ℕ
print_interval = 15 * 10 ^ 9

unfoldable pub count_gap : SilenceFiller → ℕ → ℕ → SilenceFiller
count_gap h missing now =
    let counted = record h {
      gap_count = u64 (h.gap_count + 1);
      gap_size_sum = u64 (h.gap_size_sum + missing);
    } in
    if ltb print_interval (now - h.last_print_time)
    then record counted { last_print_time = now }
    else counted

-- `pcmSink.WriteSample` on a state of its own.
module _ {P Err : Type 0} (write_sample : P → List ℕ → P × Option Err) where
  unfoldable pub fill_with_silence : ℕ → ℕ → P → P × Option Err
  fill_with_silence samples zero p = (p, none)
  fill_with_silence samples (suc frames) p = elim ((write_sample p (replicate samples 0)).1) [
    | some err ↦ ((write_sample p (replicate samples 0)).0, some err)
    | none ↦ fill_with_silence samples frames (write_sample p (replicate samples 0)).0
  ]

-- The filler beside its two sinks.
pub record Pipeline (P E : Type 0) : Type 0 where
  pub filler : SilenceFiller
  pub pcm : P
  pub encoded : E

-- `encodedSink.HandleRTP` on a state of its own, too.
module _ {P E Err : Type 0} (write_sample : P → List ℕ → P × Option Err)
    (sink_rtp : E → Header → List ℕ → E × Option Err) where
  -- The last step of `HandleRTP`.
  abbrev pub forward : SilenceFiller → P → E → Header → List ℕ → Pipeline P E × Option Err
  forward filler pcm encoded header payload =
      let (encoded', err) = sink_rtp encoded header payload in
      (record { filler = filler; pcm = pcm; encoded = encoded' }, err)

  -- What follows the silence: its error ends the call, and the packet is not forwarded.
  abbrev pub after_fill :
      SilenceFiller → P × Option Err → E → Header → List ℕ → Pipeline P E × Option Err
  after_fill filler (pcm, some err) encoded header payload =
      (record { filler = filler; pcm = pcm; encoded = encoded }, some err)
  after_fill filler (pcm, none) encoded header payload = forward filler pcm encoded header payload

  unfoldable pub handle_rtp : Pipeline P E → ℕ → Header → List ℕ → Pipeline P E × Option Err
  handle_rtp s now header payload =
      let ((is_silence, missing), filler) = is_silence_suppression s.filler header in
      if is_silence && leb missing (filler.max_gap_size * 100)
      then (if leb missing filler.max_gap_size
          then after_fill (count_gap filler missing now)
              (fill_with_silence write_sample filler.pcm_samples_per_frame missing s.pcm) s.encoded
              header payload
          else forward (count_gap filler missing now) s.pcm s.encoded header payload)
      else forward filler s.pcm s.encoded header payload
