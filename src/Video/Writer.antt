-- ===== src/Video/Writer.antt =====
-- `h264RTPWriter` and `gatedVideoWriter` of pkg/sip/video.go. The payloader, the RTP stream and the
-- floating-point product of a duration and the clock rate are parameters. Locks make each call one
-- step, so calls are a sequence.
pub mod Packets
use sip_video.Prelude.{
  ℕ, zero, suc, ◌+◌, ◌/◌, ◌%◌, ◌^◌, Option, none, some, Bool, true, false, not, List, [], ◌∷◌,
  length, ltb, leb, ◌==◌, if◌then◌else◌,
}
use sip_video.Prelude.Int.{ℤ, pos, negsuc}
use sip_video.Text.{Bytes}

-- `video.Sample`; the duration is in nanoseconds.
pub record Sample : Type 0 where
  pub payload : Bytes
  pub duration : ℤ
  pub key_frame : Bool

-- The fields of `rtp.Header` that the writer sets (the version is always 2).
pub record RtpHeader : Type 0 where
  pub payload_type : ℕ
  pub sequence_number : ℕ
  pub timestamp : ℕ
  pub ssrc : ℕ
  pub marker : Bool

-- The sent half of `VideoStats`, atomic uint64 counters.
pub record OutStats : Type 0 where
  pub out_frames : ℕ
  pub out_key_frames : ℕ
  pub out_packets : ℕ
  pub out_bytes : ℕ

-- The writer's fields, with the states of the stream and of the payloader.
pub record Writer (W P : Type 0) : Type 0 where
  pub w : W
  pub payloader : P
  pub pt : ℕ
  pub ssrc : ℕ
  pub clock_rate : ℕ
  pub frame_dur : ℕ
  pub stats : Option OutStats
  pub seq : ℕ
  pub ts : ℕ
  pub started : Bool

abbrev pub positive_or : ℕ → ℤ → ℕ
positive_or d (pos zero) = d
positive_or d (pos (suc n)) = suc n
positive_or d (negsuc n) = d

abbrev pub video_clock_rate : ℕ
video_clock_rate = 90000

abbrev pub default_fps : ℕ
default_fps = 30

-- `newH264RTPWriter`; the last three arguments are its random numbers.
unfoldable pub new_writer :
    {W P : Type 0} → W → P → ℕ → ℤ → ℤ → Option OutStats → ℕ → ℕ → ℕ → Writer W P
new_writer w payloader pt clock_rate fps stats ssrc seq ts =
    let rate = positive_or video_clock_rate clock_rate in
    record {
      w = w;
      payloader = payloader;
      pt = pt;
      ssrc = ssrc % 2 ^ 32;
      clock_rate = rate % 2 ^ 32;
      frame_dur = (rate / positive_or default_fps fps) % 2 ^ 32;
      stats = stats;
      seq = seq % 2 ^ 16;
      ts = ts % 2 ^ 32;
      started = false;
    }

abbrev pub u64 : ℕ → ℕ
u64 n = n % 2 ^ 64

abbrev pub count_packet : ℕ → Option OutStats → Option OutStats
count_packet n none = none
count_packet n (some s) =
    some (record s { out_packets = u64 (s.out_packets + 1); out_bytes = u64 (s.out_bytes + n) })

abbrev pub count_frame : Bool → Option OutStats → Option OutStats
count_frame key none = none
count_frame key (some s) = some (record s {
  out_frames = u64 (s.out_frames + 1);
  out_key_frames = if key then u64 (s.out_key_frames + 1) else s.out_key_frames;
})

pub data WriteResult (Err : Type 0) : Type 0 where
  written : ℕ → WriteResult Err
  failed : Err → WriteResult Err

abbrev pub header_of : {W P : Type 0} → Writer W P → Bool → RtpHeader
header_of h last = record {
  payload_type = h.pt;
  sequence_number = h.seq;
  timestamp = h.ts;
  ssrc = h.ssrc;
  marker = last;
}

abbrev pub is_empty : {A : Type 0} → List A → Bool
is_empty [] = true
is_empty (x ∷ xs) = false

abbrev pub video_mtu : ℕ
video_mtu = 1200

module _ {W P Err : Type 0} (write_rtp : W → RtpHeader → Bytes → W × WriteResult Err)
    (split : P → ℕ → Bytes → P × List Bytes) (ticks : ℕ → ℕ → ℕ) where
  -- `ticks d rate` is the rounded product of `d` nanoseconds and `rate`, as a uint32.
  abbrev pub duration_ticks : Writer W P → ℤ → ℕ
  duration_ticks h (pos zero) = h.frame_dur
  duration_ticks h (pos (suc d)) = ticks (suc d) h.clock_rate
  duration_ticks h (negsuc d) = h.frame_dur

  abbrev pub increment : Writer W P → ℤ → ℕ
  increment h d = let inc = duration_ticks h d in if inc == 0 then h.frame_dur else inc

  -- The timestamp moves on from the second sample on.
  unfoldable pub advance : Writer W P → ℤ → Writer W P
  advance h d =
      if h.started
      then record h { ts = (h.ts + increment h d) % 2 ^ 32 }
      else record h { started = true }

  abbrev pub after_write : Writer W P → W × WriteResult Err → Writer W P × Option Err
  after_write h (w', failed err) = (record h { w = w' }, some err)
  after_write h (w', written n) =
      (record h { w = w'; seq = (h.seq + 1) % 2 ^ 16; stats = count_packet n h.stats }, none)

  abbrev pub unless_failed :
      Writer W P × Option Err → Writer W P × Option Err → Writer W P × Option Err
  unless_failed (h, some err) rest = (h, some err)
  unless_failed (h, none) rest = rest

  -- The loop over the payloads; the last one has the marker.
  unfoldable pub write_packets : Writer W P → List Bytes → Writer W P × Option Err
  write_packets h [] = (h, none)
  write_packets h (pl ∷ pls) =
      let r = after_write h (write_rtp h.w (header_of h (is_empty pls)) pl) in
      let rest = write_packets r.0 pls in unless_failed r rest

  abbrev pub after_packets : Bool → Writer W P × Option Err → Writer W P × Option Err
  after_packets key (h, some err) = (h, some err)
  after_packets key (h, none) = (record h { stats = count_frame key h.stats }, none)

  unfoldable pub write_video_sample : Writer W P → Sample → Writer W P × Option Err
  unfolding advance write_packets
  write_video_sample h s =
      let h' = advance h s.duration in
      let (payloader', pls) = split h'.payloader video_mtu s.payload in
      if is_empty s.payload
      then (h, none)
      else after_packets s.key_frame (write_packets (record h' { payloader = payloader' }) pls)

-- The gate: a flag, and a writer that can be exchanged; the next writer's state is `w`.
pub record Gate (W : Type 0) : Type 0 where
  pub enabled : Bool
  pub w : Option W

module _ {W : Type 0} where
  unfoldable pub enable : Gate W → Gate W
  enable g = record g { enabled = true }

  unfoldable pub disable : Gate W → Gate W
  disable g = record g { enabled = false }

  unfoldable pub swap : Gate W → Option W → Gate W × Option W
  swap g w = (record g { w = w }, g.w)

  module _ {Err : Type 0} (write : W → Sample → W × Option Err) where
    abbrev pub write_through : Gate W → Option W → Sample → Gate W × Option Err
    write_through g none s = (g, none)
    write_through g (some w) s = let (w', err) = write w s in (record g { w = some w' }, err)

    unfoldable pub write_gated : Gate W → Sample → Gate W × Option Err
    write_gated g s = if not g.enabled then (g, none) else write_through g g.w s
