-- ===== src/Audio/Silence/Timeline.antt =====
-- pkg/sip/silence_filler.go: what the filler does over a stream that skips frames.
use Prim.Native.Nat.add
use native.Mathlib.Nat.{mul-div_cancel}
use sip_video.Prelude.{
  ℕ, zero, suc, ◌+◌, ◌*◌, ◌/◌, ◌^◌, ◌≤◌, ◌<◌, ◌≡◌, refl, sym, ap, ◌∙◌, Option, none, ◌&&◌, List, [],
  ◌∷◌, length, replicate, ltb, leb, if◌then◌else◌, arith, All, sum,
}
use sip_video.Audio.Silence.{
  Header, SilenceFiller, u16, u32, seq_diff, ts_diff, is_silence_suppression, count_gap,
  fill_with_silence, Pipeline, handle_rtp,
}

ts_diff_of_gap : (last s x : ℕ) → x < 2 ^ 32 → ts_diff (u32 (last + (x + s))) (u32 last) s ≡ x
ts_diff_of_gap last s x h = omega arith

seq_diff_next : (n : ℕ) → seq_diff (u16 (n + 1)) (u16 n) ≡ 0
seq_diff_next n = omega arith

missed_of_gap :
    (last s gap : ℕ)
    → 0 < s
    → gap * s < 2 ^ 32
    → ts_diff (u32 (last + (gap * s + s))) (u32 last) s / s ≡ gap
missed_of_gap last s gap p h = rw (ts_diff_of_gap last s (gap * s) h) (mul-div_cancel gap p)

-- The next packet of a sender that left out `gap` frames.
abbrev pub next_header : ℕ → ℕ → ℕ → ℕ → Header
next_header seq ts s gap = record {
  sequence_number = u16 (seq + 1);
  timestamp = u32 (ts + (gap * s + s));
}

-- A filler whose last packet had number `seq` and timestamp `ts`; its counter has room for `n` more.
pub record Follows (seq ts s n : ℕ) (h : SilenceFiller) : Type 0 where
  pub at_seq : h.last_seq ≡ u16 seq
  pub at_ts : h.last_ts ≡ u32 ts
  pub samples : h.rtp_samples_per_frame ≡ s
  pub seen : 0 < h.packets
  pub room : h.packets + n < 2 ^ 64

-- After a packet with number `seq` and timestamp `ts`, a packet that continues the numbers and
-- leaves out `gap` frames is reported as exactly `gap` missed frames, across both wrap-arounds,
-- and as no silence when `gap` is 0.
pub is_silence_suppression-gap :
    (seq ts s gap n : ℕ) (h : SilenceFiller)
    → Follows seq ts s (suc n) h
    → 0 < s
    → gap * s < 2 ^ 32
    → (is_silence_suppression h (next_header seq ts s gap)).0 ≡ (ltb 0 gap, gap)
unfolding is_silence_suppression
is_silence_suppression-gap seq ts s gap n h f p q =
    ground (arith, missed_of_gap ts s gap p q, seq_diff_next seq)

-- The packets of a sender that leaves out the given numbers of frames, one before each packet.
abbrev pub stream : ℕ → ℕ → ℕ → List ℕ → List Header
stream seq ts s [] = []
stream seq ts s (gap ∷ gaps) =
    next_header seq ts s gap ∷ stream (seq + 1) (ts + (gap * s + s)) s gaps

module _ {P E Err : Type 0} (write_sample : P → List ℕ → P × Option Err)
    (sink_rtp : E → Header → List ℕ → E × Option Err) where
  -- The pipeline after a list of packets, each at its time and with its payload.
  abbrev pub handle_all : Pipeline P E → (Header → ℕ × List ℕ) → List Header → Pipeline P E
  handle_all p at [] = p
  handle_all p at (h ∷ hs) =
      handle_all (handle_rtp write_sample sink_rtp p (at h).0 h (at h).1).0 at hs

abbrev pub write_frames : {P Err : Type 0} → (P → List ℕ → P × Option Err) → ℕ → ℕ → P → P
write_frames write_sample samples zero p = p
write_frames write_sample samples (suc n) p =
    write_frames write_sample samples n (write_sample p (replicate samples 0)).0

abbrev pub deliver_all :
    {E Err : Type 0}
    → (E → Header → List ℕ → E × Option Err)
    → E
    → (Header → ℕ × List ℕ)
    → List Header
    → E
deliver_all sink_rtp e at [] = e
deliver_all sink_rtp e at (h ∷ hs) = deliver_all sink_rtp (sink_rtp e h (at h).1).0 at hs

write_frames-add :
    {P Err : Type 0} (write_sample : P → List ℕ → P × Option Err) (samples m n : ℕ) (p : P)
    → write_frames write_sample samples (m + n) p
      ≡ write_frames write_sample samples n (write_frames write_sample samples m p)
write_frames-add write_sample samples zero n p = rw add.zero
write_frames-add write_sample samples (suc m) n p =
    rw add.suc (write_frames-add write_sample samples m n (write_sample p (replicate samples 0)).0)

-- A gap that the filler fills, and that a uint32 timestamp can express.
abbrev pub IsFillable : ℕ → ℕ → ℕ → Type 0
IsFillable max s gap = (gap ≤ max) × (gap * s < 2 ^ 32)

module _ {P Err : Type 0} (write_sample : P → List ℕ → P × Option Err)
    (writes : (p : P) (frame : List ℕ) → (write_sample p frame).1 ≡ none) where
  fill-write_frames :
      (samples n : ℕ) (p : P)
      → fill_with_silence write_sample samples n p ≡ (write_frames write_sample samples n p, none)
  unfolding fill_with_silence
  fill-write_frames samples zero p = refl
  fill-write_frames samples (suc n) p = ground (
    arith,
    writes p (replicate samples 0),
    fill-write_frames samples n (write_sample p (replicate samples 0)).0,
  )

  module _ {E : Type 0} (sink_rtp : E → Header → List ℕ → E × Option Err) where
    -- One packet after a gap that is filled: where the filler stands, and what the sinks got.
    record Filled (seq ts s gap n : ℕ) (p : Pipeline P E) (payload : List ℕ) (q : Pipeline P E)
        : Type 0 where
      follows : Follows (seq + 1) (ts + (gap * s + s)) s n q.filler
      same_max : q.filler.max_gap_size ≡ p.filler.max_gap_size
      same_samples : q.filler.pcm_samples_per_frame ≡ p.filler.pcm_samples_per_frame
      filled : q.pcm ≡ write_frames write_sample p.filler.pcm_samples_per_frame gap p.pcm
      delivered : q.encoded ≡ (sink_rtp p.encoded (next_header seq ts s gap) payload).0

    handle_rtp-Filled :
        (seq ts s gap n now : ℕ) (payload : List ℕ) (p : Pipeline P E)
        → Follows seq ts s (suc n) p.filler
        → 0 < s
        → gap * s < 2 ^ 32
        → gap ≤ p.filler.max_gap_size
        → Filled seq ts s gap n p payload
            (handle_rtp write_sample sink_rtp p now (next_header seq ts s gap) payload).0
    unfolding handle_rtp is_silence_suppression count_gap
    handle_rtp-Filled seq ts s gap n now payload p f pos_s small fits = ground (
      arith,
      missed_of_gap ts s gap pos_s small,
      seq_diff_next seq,
      fill-write_frames p.filler.pcm_samples_per_frame gap p.pcm,
    )

    -- Over any stream of consecutive packets whose gaps are no longer than the maximum, when the
    -- PCM sink fails no write, that sink gets exactly as many frames of silence as the sender left
    -- out, and the other sink gets every packet in order, whatever it returns.
    pub handle_all-stream :
        (seq ts s : ℕ) (gaps : List ℕ) (at : Header → ℕ × List ℕ) (p : Pipeline P E)
        → Follows seq ts s (length gaps) p.filler
        → 0 < s
        → All (IsFillable p.filler.max_gap_size s) gaps
        → let q = handle_all write_sample sink_rtp p at (stream seq ts s gaps) in
          (q.pcm ≡ write_frames write_sample p.filler.pcm_samples_per_frame (sum gaps) p.pcm)
          × (q.encoded ≡ deliver_all sink_rtp p.encoded at (stream seq ts s gaps))
    handle_all-stream seq ts s [] at p f pos_s fits = (refl, refl)
    handle_all-stream seq ts s (gap ∷ gaps) at p f pos_s fits =
        let h = next_header seq ts s gap in
        let q : Pipeline P E = (handle_rtp write_sample sink_rtp p (at h).0 h (at h).1).0 in
        let step =
          handle_rtp-Filled seq ts s gap (length gaps) (at h).0 (at h).1 p f pos_s fits.0.1
            fits.0.0 in
        let rest =
          handle_all-stream (seq + 1) (ts + (gap * s + s)) s gaps at q step.follows pos_s
            (rw step.same_max fits.1) in
        (
          rest.0
              ∙ rw (step.same_samples, step.filled)
                  (sym (
                    write_frames-add write_sample p.filler.pcm_samples_per_frame gap (sum gaps)
                      p.pcm)),
          rest.1
              ∙ ap (λ e. deliver_all sink_rtp e at (stream (seq + 1) (ts + (gap * s + s)) s gaps))
                  step.delivered,
        )

    -- The frames of silence that a packet calls for.
    abbrev silence_for : SilenceFiller → Header → ℕ
    silence_for h header =
        let ((is_silence, missing), filler) = is_silence_suppression h header in
        if is_silence && leb missing h.max_gap_size then missing else 0

    silence_for-le : (h : SilenceFiller) (header : Header) → silence_for h header ≤ h.max_gap_size
    silence_for-le h header = ground arith

    handle_rtp-silence_for :
        (now : ℕ) (header : Header) (payload : List ℕ) (p : Pipeline P E)
        → ((handle_rtp write_sample sink_rtp p now header payload).0.pcm
            ≡ write_frames write_sample p.filler.pcm_samples_per_frame
                (silence_for p.filler header)
                p.pcm)
          × ((handle_rtp write_sample sink_rtp p now header payload).0.encoded
              ≡ (sink_rtp p.encoded header payload).0)
          × ((handle_rtp write_sample sink_rtp p now header payload).1
              ≡ (sink_rtp p.encoded header payload).1)
    unfolding handle_rtp is_silence_suppression count_gap
    handle_rtp-silence_for now header payload p = ground (
      arith,
      fill-write_frames p.filler.pcm_samples_per_frame (silence_for p.filler header) p.pcm,
    )

    -- Any packet at all, also one out of order or after a reset of the timestamps, is preceded by
    -- at most the maximum number of frames of silence, and reaches the other sink, whose result is
    -- the result of the call, when the PCM sink fails no write.
    pub handle_rtp_bounded :
        (now : ℕ) (header : Header) (payload : List ℕ) (p : Pipeline P E)
        → let (q, err) = handle_rtp write_sample sink_rtp p now header payload in
          ((k : ℕ) × (k ≤ p.filler.max_gap_size)
            × (q.pcm ≡ write_frames write_sample p.filler.pcm_samples_per_frame k p.pcm))
          × (q.encoded ≡ (sink_rtp p.encoded header payload).0)
          × (err ≡ (sink_rtp p.encoded header payload).1)
    handle_rtp_bounded now header payload p =
        let (pcm, encoded, err) = handle_rtp-silence_for now header payload p in
        ((silence_for p.filler header, silence_for-le p.filler header, pcm), encoded, err)
