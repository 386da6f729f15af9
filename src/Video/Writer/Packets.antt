-- ===== src/Video/Writer/Packets.antt =====
-- The packets that `WriteVideoSample` of pkg/sip/video.go sends: numbers, timestamps and markers.
use sip_video.Prelude.{
  ℕ, zero, suc, ◌==◌, ◌+◌, ◌%◌, ◌^◌, ◌<◌, ◌≡◌, refl, sym, ap, ◌∙◌, Option, none, some, Bool, true,
  false, List, [], ◌∷◌, length, if◌then◌else◌, arith,
}
use mathlib.Core.Path.{subst}
use sip_video.Prelude.Int.{ℤ, pos, negsuc}
use sip_video.Text.{Bytes}
use sip_video.Video.Writer.{
  Sample, RtpHeader, Writer, WriteResult, written, failed, count_packet, advance, header_of,
  is_empty, after_write, after_packets, write_packets, video_mtu, write_video_sample,
}

-- The packets of one sample, from the `i`-th on: consecutive numbers from `seq`, one timestamp, and
-- the marker on the last.
abbrev pub packets : ℕ → ℕ → ℕ → ℕ → ℕ → List Bytes → List (RtpHeader × Bytes)
packets pt ssrc seq ts i [] = []
packets pt ssrc seq ts i (pl ∷ pls) =
    (
      record {
        payload_type = pt;
        sequence_number = (seq + i) % 2 ^ 16;
        timestamp = ts;
        ssrc = ssrc;
        marker = elim pls [ [] ↦ true | x ∷ xs ↦ false ];
      },
      pl,
    )
    ∷ packets pt ssrc seq ts (i + 1) pls

packets_shift :
    (pt ssrc seq ts i : ℕ) (pls : List Bytes)
    → packets pt ssrc ((seq + 1) % 2 ^ 16) ts i pls ≡ packets pt ssrc seq ts (suc i) pls
packets_shift pt ssrc seq ts i [] = refl
packets_shift pt ssrc seq ts i (pl ∷ pls) = ground (arith, packets_shift pt ssrc seq ts (suc i) pls)

packets_next :
    {W P : Type 0} (h : Writer W P) (pl : Bytes) (pls : List Bytes)
    → h.seq < 2 ^ 16
    → packets h.pt h.ssrc h.seq h.ts 0 (pl ∷ pls)
      ≡ (header_of h (is_empty pls), pl) ∷ packets h.pt h.ssrc ((h.seq + 1) % 2 ^ 16) h.ts 0 pls
packets_next h pl [] v = ground arith
packets_next h pl (x ∷ pls) v = ground (arith, packets_shift h.pt h.ssrc h.seq h.ts 0 (x ∷ pls))

-- A stream that was offered packets: its state, how many it took, and its error.
pub record Delivered (W Err : Type 0) : Type 0 where
  pub stream : W
  pub taken : ℕ
  pub refused : Option Err

module _ {W P Err : Type 0} (write_rtp : W → RtpHeader → Bytes → W × WriteResult Err)
    (split : P → ℕ → Bytes → P × List Bytes) (ticks : ℕ → ℕ → ℕ) where
  -- The stream after the packets.
  abbrev pub send : W → List (RtpHeader × Bytes) → W
  send w [] = w
  send w ((header, pl) ∷ ps) = send (write_rtp w header pl).0 ps

  abbrev pub add_taken : W × WriteResult Err → Delivered W Err → Delivered W Err
  add_taken (w', failed err) rest = record { stream = w'; taken = 0; refused = some err }
  add_taken (w', written n) rest = record rest { taken = suc rest.taken }

  -- The packets are offered in order, up to the first that the stream refuses.
  abbrev pub deliver : W → List (RtpHeader × Bytes) → Delivered W Err
  deliver w [] = record { stream = w; taken = 0; refused = none }
  deliver w ((header, pl) ∷ ps) =
      add_taken (write_rtp w header pl) (deliver (write_rtp w header pl).0 ps)

  -- A writer's result, where its stream was offered packets.
  pub record Wrote (h : Writer W P) (d : Delivered W Err) (r : Writer W P × Option Err)
      : Type 0 where
    pub stream : r.0.w ≡ d.stream
    pub numbered : r.0.seq ≡ (h.seq + d.taken) % 2 ^ 16
    pub same_ts : r.0.ts ≡ h.ts
    pub error : r.1 ≡ d.refused

  Wrote-one :
      (pl : Bytes) (pls : List Bytes) (h : Writer W P) (r : W × WriteResult Err)
      → h.seq < 2 ^ 16
      → write_rtp h.w (header_of h (is_empty pls)) pl ≡ r
      → ((h' : Writer W P)
          → h'.seq < 2 ^ 16
          → Wrote h'
              (deliver h'.w (packets h'.pt h'.ssrc h'.seq h'.ts 0 pls))
              (write_packets write_rtp split ticks h' pls))
      → Wrote h
          (add_taken r (deliver r.0 (packets h.pt h.ssrc ((h.seq + 1) % 2 ^ 16) h.ts 0 pls)))
          (write_packets write_rtp split ticks h (pl ∷ pls))
  unfolding write_packets
  Wrote-one pl pls h (w', failed err) v e rest =
      rw e (record { stream = refl; numbered = omega (arith, v); same_ts = refl; error = refl })
  Wrote-one pl pls h (w', written n) v e rest =
      let h' : Writer W P = record h {
        w = w';
        seq = (h.seq + 1) % 2 ^ 16;
        stats = count_packet n h.stats;
      } in
      let tail = rest h' (omega arith) in
      rw e (record {
        stream = tail.stream;
        numbered = tail.numbered ∙ omega arith;
        same_ts = tail.same_ts;
        error = tail.error;
      })

  -- However the stream fails, a writer with a 16-bit sequence number offers it the numbered packets in order up to the first that
  -- is refused and none after it. Its sequence number advances modulo 2 ^ 16 by the number that the
  -- stream took, its timestamp stays, and the error is the stream's, or none if it took them all.
  pub write_packets-Wrote :
      (pls : List Bytes) (h : Writer W P)
      → h.seq < 2 ^ 16
      → Wrote h
          (deliver h.w (packets h.pt h.ssrc h.seq h.ts 0 pls))
          (write_packets write_rtp split ticks h pls)
  unfolding write_packets
  write_packets-Wrote [] h v = record {
    stream = refl;
    numbered = omega (arith, v);
    same_ts = refl;
    error = refl;
  }
  write_packets-Wrote (pl ∷ pls) h v =
      subst (λ ps. Wrote h (deliver h.w ps) (write_packets write_rtp split ticks h (pl ∷ pls)))
        (sym (packets_next h pl pls v))
        (Wrote-one pl pls h (write_rtp h.w (header_of h (is_empty pls)) pl) v refl
          (write_packets-Wrote pls))

  module _ (size : W → RtpHeader → Bytes → ℕ)
      (writes : (w : W) (header : RtpHeader) (pl : Bytes)
        → (write_rtp w header pl).1 ≡ written (size w header pl)) where
    record Sent (h : Writer W P) (pls : List Bytes) (r : Writer W P × Option Err) : Type 0 where
      stream : r.0.w ≡ send h.w (packets h.pt h.ssrc h.seq h.ts 0 pls)
      next : r.0.seq ≡ (h.seq + length pls) % 2 ^ 16
      no_error : r.1 ≡ none
      ts_kept : r.0.ts ≡ h.ts

    written_by :
        (h : Writer W P) (header : RtpHeader) (pl : Bytes)
        → after_write write_rtp split ticks h (write_rtp h.w header pl) ≡ (
          record h {
            w = (write_rtp h.w header pl).0;
            seq = (h.seq + 1) % 2 ^ 16;
            stats = count_packet (size h.w header pl) h.stats;
          },
          none,
        )
    written_by h header pl = ground (arith, writes h.w header pl)

    write_packets-Sent :
        (pls : List Bytes) (h : Writer W P)
        → h.seq < 2 ^ 16
        → Sent h pls (write_packets write_rtp split ticks h pls)
    unfolding write_packets
    write_packets-Sent [] h v = ground arith
    write_packets-Sent (pl ∷ pls) h v =
        let header = header_of h (is_empty pls) in
        let h' : Writer W P = record h {
          w = (write_rtp h.w header pl).0;
          seq = (h.seq + 1) % 2 ^ 16;
          stats = count_packet (size h.w header pl) h.stats;
        } in
        let rest = write_packets-Sent pls h' (omega arith) in
        rw (written_by h header pl) (record {
          stream = rw (packets_next h pl pls v) rest.stream;
          next = rest.next ∙ omega arith;
          no_error = rest.no_error;
          ts_kept = rest.ts_kept;
        })

    abbrev or_frame : ℕ → ℕ → ℕ
    or_frame frame_dur zero = frame_dur
    or_frame frame_dur (suc n) = suc n

    abbrev sample_ticks : Writer W P → ℤ → ℕ
    sample_ticks h (pos zero) = h.frame_dur
    sample_ticks h (pos (suc d)) = or_frame h.frame_dur (ticks (suc d) h.clock_rate)
    sample_ticks h (negsuc d) = h.frame_dur

    -- The timestamp of a writer's next sample: as it is for the first sample, and advanced for
    -- every other by the sample's duration, or by the length of a frame where that rounds to 0.
    abbrev pub sample_ts : Writer W P → ℤ → ℕ
    sample_ts h d = if h.started then (h.ts + sample_ticks h d) % 2 ^ 32 else h.ts

    after_packets-Sent :
        (h : Writer W P) (pls : List Bytes) (key : Bool) (r : Writer W P × Option Err)
        → Sent h pls r
        → Sent h pls (after_packets write_rtp split ticks key r)
    after_packets-Sent h pls key (h', none) sent = ground arith
    after_packets-Sent h pls key (h', some err) sent = ground arith

    ticks_or_frame : (n frame_dur : ℕ) → (if n == 0 then frame_dur else n) ≡ or_frame frame_dur n
    ticks_or_frame zero frame_dur = refl
    ticks_or_frame (suc n) frame_dur = ground arith

    advance_kept :
        (h : Writer W P) (d : ℤ)
        → let h' = advance write_rtp split ticks h d in
          (h'.w ≡ h.w)
          × (h'.payloader ≡ h.payloader)
          × (h'.pt ≡ h.pt)
          × (h'.ssrc ≡ h.ssrc)
          × (h'.seq ≡ h.seq)
          × (h'.ts ≡ sample_ts h d)
    unfolding advance
    advance_kept h (pos zero) = ground arith
    advance_kept h (pos (suc d)) =
        ground (arith, ticks_or_frame (ticks (suc d) h.clock_rate) h.frame_dur)
    advance_kept h (negsuc d) = ground arith

    write_video_sample-full :
        (h : Writer W P) (s : Sample)
        → is_empty s.payload ≡ false
        → let a = advance write_rtp split ticks h s.duration in
          let (payloader', pls) = split a.payloader video_mtu s.payload in
          write_video_sample write_rtp split ticks h s
          ≡ after_packets write_rtp split ticks s.key_frame
              (write_packets write_rtp split ticks (record a { payloader = payloader' }) pls)
    unfolding write_video_sample
    write_video_sample-full h s full = rw full refl

    -- A sample that is not empty, on a stream that fails no write, is sent as one access unit: its
    -- payloads in order, numbered on from the writer's sequence number modulo 2 ^ 16, with one
    -- timestamp and the marker on the last only. The writer keeps the next number and the
    -- timestamp, and the call returns no error.
    pub write_video_sample-access_unit :
        (h : Writer W P) (s : Sample)
        → h.seq < 2 ^ 16
        → is_empty s.payload ≡ false
        → let pls = (split h.payloader video_mtu s.payload).1 in
          let (h', err) = write_video_sample write_rtp split ticks h s in
          (h'.w ≡ send h.w (packets h.pt h.ssrc h.seq (sample_ts h s.duration) 0 pls))
          × (h'.seq ≡ (h.seq + length pls) % 2 ^ 16)
          × (h'.ts ≡ sample_ts h s.duration)
          × (err ≡ none)
    write_video_sample-access_unit h s v full =
        let a : Writer W P = advance write_rtp split ticks h s.duration in
        let (w', payloader', pt', ssrc', seq', ts') = advance_kept h s.duration in
        let pls = (split a.payloader video_mtu s.payload).1 in
        let h' : Writer W P = record a { payloader = (split a.payloader video_mtu s.payload).0 } in
        let sent =
          after_packets-Sent h' pls s.key_frame (write_packets write_rtp split ticks h' pls)
            (write_packets-Sent pls h' (rw seq' v)) in
        let same = write_video_sample-full h s full in
        (
          ap (λ r. r.0.w) same ∙ sent.stream ∙ cc,
          ap (λ r. r.0.seq) same ∙ sent.next ∙ cc,
          ap (λ r. r.0.ts) same ∙ sent.ts_kept ∙ ts',
          ap (λ r. r.1) same ∙ sent.no_error,
        )
