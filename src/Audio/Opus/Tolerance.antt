-- ===== src/Audio/Opus/Tolerance.antt =====
-- pkg/media/opus/opus.go: how many corrupt packets in a row the decoder passes over.
use sip_video.Prelude.{
  ◌+◌, ◌≤◌, ◌<◌, ◌≡◌, refl, ◌≢◌, Option, none, some, Bool, true, List, [], ◌∷◌, length, arith, leb,
  if◌then◌else◌,
}
use sip_video.Audio.Opus.{Sample, Pcm16Sample, CodecResult, failed, Decoder, decode_sample}

module _ {C W Err : Type 0} (decode : C → Sample → C × CodecResult Pcm16Sample Err)
    (is_invalid_packet : Err → Bool) (write : W → Pcm16Sample → W × Option Err) where
  -- A codec state and the samples that it finds corrupt, one after the other, with their errors.
  pub data Corrupt : C → List Sample → Type 0 where
    end : {c : C} → Corrupt c []
    corrupt :
        {c : C} {sample : Sample} {samples : List Sample} (err : Err)
        → 0 < length sample
        → (decode c sample).1 ≡ failed err
        → is_invalid_packet err ≡ true
        → Corrupt (decode c sample).0 samples
        → Corrupt c (sample ∷ samples)

  -- The decoder after the samples, stopping at the first error.
  abbrev pub continue_unless :
      Decoder C W × Option Err → Decoder C W × Option Err → Decoder C W × Option Err
  continue_unless (d, some err) rest = (d, some err)
  continue_unless (d, none) rest = rest

  abbrev pub decode_all : Decoder C W → List Sample → Decoder C W × Option Err
  decode_all d [] = (d, none)
  decode_all d (sample ∷ samples) =
      let r = decode_sample decode is_invalid_packet write d sample in
      let rest = decode_all r.0 samples in continue_unless r rest

  decode_sample-corrupt :
      (d : Decoder C W) (sample : Sample) (err : Err)
      → 0 < length sample
      → (decode d.dec sample).1 ≡ failed err
      → is_invalid_packet err ≡ true
      → decode_sample decode is_invalid_packet write d sample ≡ (
          if leb 5 d.successive_error_count
          then (record d { dec = (decode d.dec sample).0 }, some err)
          else (
            record d {
              dec = (decode d.dec sample).0;
              successive_error_count = d.successive_error_count + 1;
            },
            none,
          ))
  unfolding decode_sample
  decode_sample-corrupt d sample err p q r = ground arith

  -- Corrupt packets in a row, fewer than are left until five, are all passed over and counted, and
  -- nothing is written.
  pub decode_all_tolerant :
      (d : Decoder C W) (samples : List Sample)
      → Corrupt d.dec samples
      → d.successive_error_count + length samples ≤ 5
      → ((decode_all d samples).1 ≡ none)
        × ((decode_all d samples).0.w ≡ d.w)
        × ((decode_all d samples).0.successive_error_count
            ≡ d.successive_error_count + length samples)
  decode_all_tolerant d [] end h = (refl, refl, omega arith)
  decode_all_tolerant d (sample ∷ samples) (corrupt err p q r rest) h =
      let d' : Decoder C W = record d {
        dec = (decode d.dec sample).0;
        successive_error_count = d.successive_error_count + 1;
      } in
      ground (
        arith,
        decode_sample-corrupt d sample err p q r,
        decode_all_tolerant d' samples rest (omega arith),
      )

  -- Corrupt packets in a row, more than are left until five, end with an error.
  pub decode_all-refused :
      (d : Decoder C W) (samples : List Sample)
      → Corrupt d.dec samples
      → d.successive_error_count ≤ 5
      → 5 < d.successive_error_count + length samples
      → (decode_all d samples).1 ≢ none
  decode_all-refused d [] end h k = absurd (omega arith)
  decode_all-refused d (sample ∷ samples) (corrupt err p q r rest) h k =
      let d' : Decoder C W = record d {
        dec = (decode d.dec sample).0;
        successive_error_count = d.successive_error_count + 1;
      } in
      ground (arith, decode_sample-corrupt d sample err p q r, decode_all-refused d' samples rest)
