-- ===== src/Media/Stream.antt =====
-- `rtpStreamStats` and `Diff16` of pkg/sip/media.go: what arrives late, early or not at all. The
-- counters are atomic uint64; one goroutine reads a stream, so a packet is one step. The frame rate
-- `rtp.DefFramesPerSec` of the media SDK is a parameter.
pub mod Gaps
use sip_video.Prelude.{
  ℕ, zero, suc, ◌+◌, ◌-◌, ◌*◌, ◌/◌, ◌%◌, ◌^◌, Option, none, some, Bool, true, false, List, [], ◌∷◌,
  length, ltb, leb, ◌==◌, if◌then◌else◌,
}
use sip_video.Prelude.Int.{ℤ, pos, negsuc}
use sip_video.Text.{Bytes}

pub record RtpCountingStats : Type 0 where
  pub packets : ℕ
  pub bytes : ℕ
  pub resets : ℕ
  pub gaps : ℕ
  pub gaps_sum : ℕ
  pub late : ℕ
  pub late_sum : ℕ
  pub delayed_packets : ℕ
  pub delayed_sum : ℕ
  pub rapid_packets : ℕ

-- The time of the last packet is in milliseconds since 1970.
pub record RtpStreamStats : Type 0 where
  pub packets : ℕ
  pub last_seq : ℕ
  pub last_packet : ℕ
  pub stats : RtpCountingStats

abbrev pub u64 : ℕ → ℕ
u64 n = n % 2 ^ 64

abbrev pub no_stats : RtpCountingStats
no_stats = record {
  packets = 0;
  bytes = 0;
  resets = 0;
  gaps = 0;
  gaps_sum = 0;
  late = 0;
  late_sum = 0;
  delayed_packets = 0;
  delayed_sum = 0;
  rapid_packets = 0;
}

abbrev pub stats_or_new : Option RtpCountingStats → RtpCountingStats
stats_or_new none = no_stats
stats_or_new (some stats) = stats

unfoldable pub new_rtp_stream_stats : Option RtpCountingStats → RtpStreamStats
new_rtp_stream_stats stats = record {
  packets = 0;
  last_seq = 0;
  last_packet = 0;
  stats = stats_or_new stats;
}

-- The difference of two uint16, read as an int16.
unfoldable pub diff16 : ℕ → ℕ → ℤ
diff16 cur prev =
    let d = (cur + 2 ^ 16 - prev) % 2 ^ 16 in
    if ltb d (2 ^ 15) then pos d else negsuc (2 ^ 16 - d - 1)

module _ (frames_per_sec : ℕ) where
  abbrev pub max_positive_seq_diff : ℕ
  max_positive_seq_diff = 30 * frames_per_sec

  -- The constant is the negative of this one.
  abbrev pub max_negative_seq_diff : ℕ
  max_negative_seq_diff = 5 * frames_per_sec

  abbrev pub rapid_packet_threshold : ℕ
  rapid_packet_threshold = 1000 / frames_per_sec / 2

  abbrev pub delayed_packet_threshold : ℕ
  delayed_packet_threshold = 1000 / frames_per_sec * 3 / 2

  -- The order of the packets.
  abbrev pub count_seq : ℤ → RtpCountingStats → RtpCountingStats
  count_seq (pos d) s =
      if ltb max_positive_seq_diff d
      then record s { resets = u64 (s.resets + 1) }
      else if ltb 1 d
      then record s { gaps = u64 (s.gaps + 1); gaps_sum = u64 (s.gaps_sum + d) }
      else s
  count_seq (negsuc k) s =
      if ltb max_negative_seq_diff (k + 1)
      then record s { resets = u64 (s.resets + 1) }
      else record s { late = u64 (s.late + 1); late_sum = u64 (s.late_sum + (k + 1)) }

  -- Their timing: a clock that went back makes a rapid packet.
  abbrev pub count_time : ℕ → ℕ → RtpCountingStats → RtpCountingStats
  count_time now last s =
      if ltb now (last + rapid_packet_threshold)
      then record s { rapid_packets = u64 (s.rapid_packets + 1) }
      else if ltb (last + delayed_packet_threshold) now
      then record s {
        delayed_packets = u64 (s.delayed_packets + 1);
        delayed_sum = u64 (s.delayed_sum + (now - last));
      }
      else s

  -- `HandleRTP` up to the next handler, which gets the packet in any case.
  unfoldable pub count_rtp : RtpStreamStats → ℕ → ℕ → Bytes → RtpStreamStats
  unfolding diff16
  count_rtp h now sequence_number payload =
      let count = u64 (h.packets + 1) in
      let s = record h.stats {
        packets = u64 (h.stats.packets + 1);
        bytes = u64 (h.stats.bytes + length payload);
      } in
      let counted =
        if ltb 1 count
        then count_time now h.last_packet
            (count_seq (diff16 sequence_number (h.last_seq % 2 ^ 16)) s)
        else s in
      record { packets = count; last_seq = sequence_number; last_packet = now; stats = counted }
