-- ===== src/Audio/Opus/Framing.antt =====
-- pkg/media/opus/opus.go: the frames that the encoder cuts, whatever the sizes of the writes.
use sip_video.Prelude.{
  ℕ, zero, suc, ◌≤◌, ◌<◌, ◌≡◌, refl, ap, ◌∙◌, Option, none, some, List, [], ◌∷◌, ◌++◌, append_assoc,
  append-nil, length, take, drop, length-take, length-append, take-append-drop, All, arith,
  Bool-cases, leb, inl, inr,
}
use sip_video.Audio.Opus.{
  Sample, Pcm16Sample, CodecResult, coded, failed, Encoder, after_encode, encode_frame,
  unless_error, encode_loop, write_sample,
}

abbrev pub concat : List Pcm16Sample → Pcm16Sample
concat [] = []
concat (x ∷ xs) = x ++ concat xs

module _ {C W Err : Type 0} (encode : C → Pcm16Sample → C × CodecResult Sample Err)
    (write : W → Sample → W × Option Err) where
  -- The codec and the writer after one frame: what is encoded is written.
  abbrev pub feed_coded : W → CodecResult Sample Err → W
  feed_coded w (coded bytes) = (write w bytes).0
  feed_coded w (failed err) = w

  abbrev pub feed : C × W → List Pcm16Sample → C × W
  feed s [] = s
  feed (c, w) (frame ∷ frames) = feed ((encode c frame).0, feed_coded w (encode c frame).1) frames

  -- How the encoder `e'` follows from `e` by whole frames.
  pub record Framed (e : Encoder C W) (frames : List Pcm16Sample) (e' : Encoder C W) : Type 0 where
    pub sized : All (λ (f : Pcm16Sample). length f ≡ e.samples) frames
    pub in_order : concat frames ++ e'.inbuf ≡ e.inbuf
    pub fed : (e'.enc, e'.w) ≡ feed (e.enc, e.w) frames
    pub same_size : e'.samples ≡ e.samples

  -- Without an error less than a frame is left.
  abbrev pub IsCut : ℕ → Encoder C W → Option Err → Type 0
  IsCut samples e none = length e.inbuf < samples
  IsCut samples e (some err) = 0 ≤ samples

  -- The result of the loop: some frames were cut.
  abbrev pub Looped : Encoder C W → Option (Encoder C W × Option Err) → Type 0
  Looped e none = ⊥
  Looped e (some (e', err)) =
      (frames : List Pcm16Sample) × Framed e frames e' × IsCut e.samples e' err

  after_encode-parts :
      (e : Encoder C W) (r : CodecResult Sample Err)
      → let e' = (after_encode encode write e r).0 in
        (e'.inbuf ≡ e.inbuf)
        × (e'.samples ≡ e.samples)
        × (e'.enc ≡ e.enc)
        × (e'.w ≡ feed_coded e.w r)
  unfolding after_encode
  after_encode-parts e (failed err) = ground arith
  after_encode-parts e (coded bytes) = (refl, refl, refl, refl)

  encode_frame-Framed :
      (e : Encoder C W)
      → e.samples ≤ length e.inbuf
      → Framed e (take e.samples e.inbuf ∷ []) (encode_frame encode write e).0
  unfolding encode_frame
  encode_frame-Framed e h =
      let r = encode e.enc (take e.samples e.inbuf) in
      let (inbuf, samples, enc, w) =
        after_encode-parts (record e { inbuf = drop e.samples e.inbuf; enc = r.0 }) r.1 in
      record {
        sized = (length-take e.samples e.inbuf h, tt);
        in_order = rw (inbuf, append-nil) (take-append-drop e.samples e.inbuf);
        fed = cc;
        same_size = samples;
      }

  Framed-trans :
      (e e' e'' : Encoder C W) (frame : Pcm16Sample) (frames : List Pcm16Sample)
      → Framed e (frame ∷ []) e'
      → Framed e' frames e''
      → Framed e (frame ∷ frames) e''
  Framed-trans e e' e'' frame frames f g = record {
    sized = (f.sized.0, rw f.same_size at g.sized);
    in_order = rw (append_assoc, g.in_order) (rw append-nil at f.in_order);
    fed = g.fed ∙ ap (λ s. feed s frames) f.fed;
    same_size = g.same_size ∙ f.same_size;
  }

  encode_frame-length :
      (e : Encoder C W)
      → 0 < e.samples
      → e.samples ≤ length e.inbuf
      → length (encode_frame encode write e).0.inbuf < length e.inbuf
  encode_frame-length e p h =
      let e' : Encoder C W = (encode_frame encode write e).0 in
      let frame = take e.samples e.inbuf in
      let f = encode_frame-Framed e h in
      let whole : frame ++ e'.inbuf ≡ e.inbuf = rw append-nil at f.in_order in
      omega (arith, ap length whole, length-append frame e'.inbuf, length-take e.samples e.inbuf h)

  Looped-step :
      (e : Encoder C W) (frame : Pcm16Sample) (r : Encoder C W × Option Err)
      (rest : Option (Encoder C W × Option Err))
      → Framed e (frame ∷ []) r.0
      → Looped r.0 rest
      → Looped e (unless_error encode write r rest)
  Looped-step e frame (e', some err) rest f l = ((frame ∷ []), f, omega arith)
  Looped-step e frame (e', none) none f l = absurd l
  Looped-step e frame (e', none) (some (e'', err)) f (frames, g, short) =
      ((frame ∷ frames), Framed-trans e e' e'' frame frames f g, rw f.same_size at short)

  encode_loop-Looped :
      (fuel : ℕ) (e : Encoder C W)
      → 0 < e.samples
      → length e.inbuf < fuel
      → Looped e (encode_loop encode write fuel e)
  unfolding encode_loop
  encode_loop-Looped zero e p h = absurd (omega arith)
  encode_loop-Looped (suc fuel) e p h = elim (Bool-cases (leb e.samples (length e.inbuf))) [
    | inl more ↦
        let f = encode_frame-Framed e (ground arith) in
        rw more (
          Looped-step e (take e.samples e.inbuf) (encode_frame encode write e) _ f (
            encode_loop-Looped fuel (encode_frame encode write e).0 (omega (arith, f.same_size))
              (omega (arith, encode_frame-length e p (ground arith)))))
    | inr less ↦
        rw less
          ([], record { sized = tt; in_order = refl; fed = refl; same_size = refl }, ground arith)
  ]

  -- A write ends, for frames of at least one sample. The samples buffered before and those written
  -- are cut, in order, into whole frames and what stays in the buffer; each frame went to the codec
  -- once and what came out of it to the writer; and when there is no error, less than a frame stays.
  pub write_sample-Looped :
      (e : Encoder C W) (input : Pcm16Sample)
      → 0 < e.samples
      → Looped (record e { inbuf = e.inbuf ++ input }) (write_sample encode write e input)
  unfolding write_sample
  write_sample-Looped e input p =
      encode_loop-Looped (suc (length (e.inbuf ++ input))) (record e { inbuf = e.inbuf ++ input }) p
        (omega arith)
