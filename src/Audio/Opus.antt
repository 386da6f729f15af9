-- ===== src/Audio/Opus.antt =====
-- pkg/media/opus/opus.go: PCM cut into frames for the Opus encoder, and the decoder's tolerance of
-- corrupt packets. The codec and the next writer are parameters, each on a state of its own.
pub mod Framing
pub mod Tolerance
use sip_video.Prelude.{
  ℕ, zero, suc, ◌+◌, ◌/◌, Option, none, some, Bool, true, false, ◌||◌, not, List, [], ◌∷◌, ◌++◌,
  length, take, drop, ltb, leb, ◌==◌, if◌then◌else◌,
}
use sip_video.Prelude.Int.{ℤ}

abbrev pub Sample : Type 0
Sample = List ℕ

abbrev pub Pcm16Sample : Type 0
Pcm16Sample = List ℤ

-- The errors of the codec and of the next writer, told apart.
pub data CodecResult (A Err : Type 0) : Type 0 where
  coded : A → CodecResult A Err
  failed : Err → CodecResult A Err

-- The encoder's fields, with the states of the codec and of the next writer.
pub record Encoder (C W : Type 0) : Type 0 where
  pub samples : ℕ
  pub inbuf : Pcm16Sample
  pub enc : C
  pub w : W
  pub successive_error_count : ℕ

module _ {C W Err : Type 0} (encode : C → Pcm16Sample → C × CodecResult Sample Err)
    (write : W → Sample → W × Option Err) where
  -- What follows `enc.Encode`, on the buffer that is already cut.
  unfoldable pub after_encode : Encoder C W → CodecResult Sample Err → Encoder C W × Option Err
  after_encode e (failed err) =
      if ltb e.successive_error_count 5
      then (record e { successive_error_count = e.successive_error_count + 1 }, some err)
      else (e, some err)
  after_encode e (coded bytes) =
      let (w', err) = write e.w bytes in (record e { successive_error_count = 0; w = w' }, err)

  -- One round of the loop: encode a frame, and cut it off the buffer whatever the codec says.
  unfoldable pub encode_frame : Encoder C W → Encoder C W × Option Err
  unfolding after_encode
  encode_frame e =
      let (enc', r) = encode e.enc (take e.samples e.inbuf) in
      after_encode (record e { inbuf = drop e.samples e.inbuf; enc = enc' }) r

  abbrev pub unless_error :
      Encoder C W × Option Err
      → Option (Encoder C W × Option Err)
      → Option (Encoder C W × Option Err)
  unless_error (e, some err) rest = some (e, some err)
  unless_error (e, none) rest = rest

  -- The loop, on fuel: `none` means that the fuel ran out.
  unfoldable pub encode_loop : ℕ → Encoder C W → Option (Encoder C W × Option Err)
  encode_loop zero e = none
  encode_loop (suc fuel) e =
      let r = encode_frame e in
      let rest = encode_loop fuel r.0 in
      if leb e.samples (length e.inbuf) then unless_error r rest else some (e, none)

  -- `encoder.WriteSample`: a frame has at least one sample, so the buffer's length bounds the rounds.
  unfoldable pub write_sample : Encoder C W → Pcm16Sample → Option (Encoder C W × Option Err)
  write_sample e input =
      let e' = record e { inbuf = e.inbuf ++ input } in encode_loop (suc (length e'.inbuf)) e'

  -- What follows the codec in `flush`, which leaves the buffer and the count as they are.
  abbrev pub after_flush : Encoder C W → CodecResult Sample Err → Encoder C W × Option Err
  after_flush e (failed err) = (e, some err)
  after_flush e (coded bytes) = let (w', err) = write e.w bytes in (record e { w = w' }, err)

  unfoldable pub flush : Encoder C W → Encoder C W × Option Err
  flush e =
      let (enc', r) = encode e.enc e.inbuf in
      if length e.inbuf == 0 then (e, none) else after_flush (record e { enc = enc' }) r

  -- The error of `flush` goes first, and the writer is closed in any case.
  module _ (close_writer : W → W × Option Err) where
    abbrev pub first_error : Option Err → Option Err → Option Err
    first_error (some err) other = some err
    first_error none other = other

    unfoldable pub close : Encoder C W → Encoder C W × Option Err
    unfolding flush
    close e =
        let (e', err1) = flush e in
        let (w', err2) = close_writer e'.w in (record e' { w = w' }, first_error err1 err2)

pub record Decoder (C W : Type 0) : Type 0 where
  pub dec : C
  pub w : W
  pub successive_error_count : ℕ

-- `is_invalid_packet err` is `errors.Is(err, opus.ErrInvalidPacket)`.
module _ {C W Err : Type 0} (decode : C → Sample → C × CodecResult Pcm16Sample Err)
    (is_invalid_packet : Err → Bool) (write : W → Pcm16Sample → W × Option Err) where
  unfoldable pub after_decode : Decoder C W → CodecResult Pcm16Sample Err → Decoder C W × Option Err
  after_decode d (failed err) =
      if not (is_invalid_packet err) || leb 5 d.successive_error_count
      then (d, some err)
      else (record d { successive_error_count = d.successive_error_count + 1 }, none)
  after_decode d (coded pcm) =
      let (w', err) = write d.w pcm in (record d { successive_error_count = 0; w = w' }, err)

  -- `decoder.WriteSample`
  unfoldable pub decode_sample : Decoder C W → Sample → Decoder C W × Option Err
  unfolding after_decode
  decode_sample d input =
      let (dec', r) = decode d.dec input in
      if length input == 0 then (d, none) else after_decode (record d { dec = dec' }) r
