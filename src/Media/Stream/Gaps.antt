-- ===== src/Media/Stream/Gaps.antt =====
-- What the counters of pkg/sip/media.go say of a stream with lost packets.
use sip_video.Prelude.{
  ℕ, suc, ◌+◌, ◌*◌, ◌%◌, ◌^◌, ◌≤◌, ◌<◌, ◌≡◌, refl, ◌∙◌, List, [], ◌∷◌, length, ltb, if◌then◌else◌,
  All, arith,
}
use sip_video.Prelude.Int.{pos}
use sip_video.Text.{Bytes}
use sip_video.Media.Stream.{RtpStreamStats, diff16, count_rtp}

diff16-forward :
    (seq d : ℕ) → d < 2 ^ 15 → diff16 ((seq + d) % 2 ^ 16) (seq % 2 ^ 16 % 2 ^ 16) ≡ pos d
unfolding diff16
diff16-forward seq d h = ground arith

-- An arrival: how far the number moves, the time and the payload.
pub record Arrival : Type 0 where
  pub ahead : ℕ
  pub now : ℕ
  pub payload : Bytes

module _ (frames_per_sec : ℕ) where
  abbrev pub arrive : RtpStreamStats → ℕ → List Arrival → RtpStreamStats
  arrive h seq [] = h
  arrive h seq (a ∷ arrivals) =
      arrive (count_rtp frames_per_sec h a.now ((seq + a.ahead) % 2 ^ 16) a.payload) (seq + a.ahead)
        arrivals

  -- Ahead by at least one, and by less than a reset.
  abbrev pub IsForward : Arrival → Type 0
  IsForward a = (1 ≤ a.ahead) × (a.ahead ≤ 30 * frames_per_sec)

  abbrev pub count_gaps : List Arrival → ℕ
  count_gaps [] = 0
  count_gaps (a ∷ arrivals) = (if ltb 1 a.ahead then 1 else 0) + count_gaps arrivals

  abbrev pub sum_gaps : List Arrival → ℕ
  sum_gaps [] = 0
  sum_gaps (a ∷ arrivals) = (if ltb 1 a.ahead then a.ahead else 0) + sum_gaps arrivals

  -- After a packet with number `seq`, with room for `n` more in the stream's counter.
  pub record Follows (seq n : ℕ) (h : RtpStreamStats) : Type 0 where
    pub at_seq : h.last_seq ≡ seq % 2 ^ 16
    pub seen : 1 ≤ h.packets
    pub room : h.packets + n < 2 ^ 64

  record Counted (h : RtpStreamStats) (seq n : ℕ) (a : Arrival) (k : RtpStreamStats) : Type 0 where
    follows : Follows (seq + a.ahead) n k
    gaps : k.stats.gaps % 2 ^ 64 ≡ (h.stats.gaps + (if ltb 1 a.ahead then 1 else 0)) % 2 ^ 64
    gaps_sum :
        k.stats.gaps_sum % 2 ^ 64
        ≡ (h.stats.gaps_sum + (if ltb 1 a.ahead then a.ahead else 0)) % 2 ^ 64
    late : k.stats.late ≡ h.stats.late
    resets : k.stats.resets ≡ h.stats.resets
    packets : k.stats.packets % 2 ^ 64 ≡ (h.stats.packets + 1) % 2 ^ 64

  count_rtp-Counted :
      (h : RtpStreamStats) (seq n : ℕ) (a : Arrival)
      → Follows seq (suc n) h
      → IsForward a
      → 30 * frames_per_sec < 2 ^ 15
      → Counted h seq n a (count_rtp frames_per_sec h a.now ((seq + a.ahead) % 2 ^ 16) a.payload)
  unfolding count_rtp
  count_rtp-Counted h seq n a f w small =
      ground (arith, diff16-forward seq a.ahead (omega arith), f.at_seq)

  -- Over any packets whose numbers move on, by less than a reset, across the wrap-around of 16 bits
  -- and at any times, every jump is counted as one gap and added to the sum of the gaps, and no
  -- packet is counted arrivals late or arrivals a reset.
  pub arrive-gaps :
      (arrivals : List Arrival) (h : RtpStreamStats) (seq : ℕ)
      → Follows seq (length arrivals) h
      → All IsForward arrivals
      → 30 * frames_per_sec < 2 ^ 15
      → let k = arrive h seq arrivals in
        (k.stats.gaps % 2 ^ 64 ≡ (h.stats.gaps + count_gaps arrivals) % 2 ^ 64)
        × (k.stats.gaps_sum % 2 ^ 64 ≡ (h.stats.gaps_sum + sum_gaps arrivals) % 2 ^ 64)
        × (k.stats.packets % 2 ^ 64 ≡ (h.stats.packets + length arrivals) % 2 ^ 64)
        × (k.stats.late ≡ h.stats.late)
        × (k.stats.resets ≡ h.stats.resets)
  arrive-gaps [] h seq f w small = (omega arith, omega arith, omega arith, refl, refl)
  arrive-gaps (a ∷ arrivals) h seq f w small =
      let k = count_rtp frames_per_sec h a.now ((seq + a.ahead) % 2 ^ 16) a.payload in
      let c = count_rtp-Counted h seq (length arrivals) a f w.0 small in
      let (gaps, gaps_sum, packets, late, resets) =
        arrive-gaps arrivals k (seq + a.ahead) c.follows w.1 small in
      (
        omega (arith, gaps, c.gaps),
        omega (arith, gaps_sum, c.gaps_sum),
        omega (arith, packets, c.packets),
        late ∙ c.late,
        resets ∙ c.resets,
      )
