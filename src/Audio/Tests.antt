-- ===== src/Audio/Tests.antt =====
-- The audio theorems at concrete inputs.
use sip_video.Prelude.{
  ℕ, zero, suc, ◌+◌, ◌^◌, ◌<◌, ◌≡◌, refl, Option, none, Bool, true, false, not, List, [], ◌∷◌, ◌&&◌,
  replicate, length, All, sum, arith, ltb,
}
use sip_video.Prelude.Int.{ℤ, pos, negsuc}
use sip_video.Audio.Silence.{Header, SilenceFiller, Pipeline}
use sip_video.Audio.Silence.Timeline.{
  Follows, IsFillable, handle_all, stream, write_frames, deliver_all, handle_all-stream,
}
use sip_video.Audio.Signal.{Float, SignalLogger, default_logger}
use sip_video.Audio.Signal.Hysteresis.{
  run, IsWarm, run_within_hangover, Setting, hangover, enter_offset, IsValid,
}
use sip_video.Audio.Opus.{
  Sample, Pcm16Sample, CodecResult, coded, failed, Encoder, Decoder, write_sample,
}
use sip_video.Audio.Opus.Framing.{Looped, write_sample-Looped}
use sip_video.Audio.Opus.Tolerance.{Corrupt, end, corrupt}

-- A filler for 160 samples a frame that has seen one packet.
abbrev filler : SilenceFiller
filler = record {
  max_gap_size = 25;
  rtp_samples_per_frame = 160;
  pcm_samples_per_frame = 160;
  last_ts = 320;
  last_seq = 65535;
  packets = 1;
  gap_count = 0;
  gap_size_sum = 0;
  last_print_time = 0;
}

follows : (n : ℕ) → 1 + n < 2 ^ 64 → Follows 65535 320 160 n filler
follows n h = ground arith

-- Sinks that count the samples and the packets they get.
abbrev count_samples : ℕ → List ℕ → ℕ × Option ℕ
count_samples n sample = (n + length sample, none)

abbrev count_packets : ℕ → Header → List ℕ → ℕ × Option ℕ
count_packets n header payload = (n + 1, none)

count_samples_writes : (p : ℕ) (frame : List ℕ) → (count_samples p frame).1 ≡ none
count_samples_writes p frame = refl

abbrev pipeline : Pipeline ℕ ℕ
pipeline = record { filler = filler; pcm = 0; encoded = 0 }

abbrev at_once : Header → ℕ × List ℕ
at_once header = (7, 1 ∷ [])

abbrev gaps : List ℕ
gaps = 2 ∷ 0 ∷ []

gaps_fit : All (IsFillable 25 160) gaps
gaps_fit = ((omega arith, omega arith), ((omega arith, omega arith), tt))

handle_all-stream_example :
    let q = handle_all count_samples count_packets pipeline at_once (stream 65535 320 160 gaps) in
    (q.pcm ≡ write_frames count_samples 160 (sum gaps) 0)
    × (q.encoded ≡ deliver_all count_packets 0 at_once (stream 65535 320 160 gaps))
handle_all-stream_example =
    handle_all-stream count_samples count_samples_writes count_packets 65535 320 160 gaps at_once
      pipeline (follows 2 (omega arith)) (omega arith) gaps_fit

-- Integers in the place of floating-point numbers: levels above 0 only are told apart.
abbrev is_positive : ℤ → Bool
is_positive (pos n) = ltb 0 n
is_positive (negsuc n) = false

abbrev coarse : Float
coarse = record {
  F = ℤ;
  of_int = λ n. n;
  add = λ a b. b;
  mul = λ a b. b;
  div = λ a b. a;
  log10 = λ a. a;
  lt = λ a b. not (is_positive a) && is_positive b;
  le = λ a b. not (is_positive a);
}

-- In voice since time 100, with the default hangover of a second.
abbrev logger : SignalLogger coarse
logger = record {
  hangover_duration = pos (10 ^ 9);
  noise_floor = negsuc 49;
  enter_voice_offset_db = pos 10;
  exit_voice_offset_db = pos 5;
  last_signal_time = 100;
  last_is_signal = true;
  frames_processed = 12;
  state_changes = 1;
}

abbrev quiet_frames : List (ℕ × ℤ)
quiet_frames = (200, negsuc 60) ∷ (300, negsuc 70) ∷ []

logger-IsWarm : IsWarm coarse 2 logger
logger-IsWarm = ground arith

run_within_hangover_example :
    ((run coarse logger quiet_frames).last_is_signal ≡ true)
    × ((run coarse logger quiet_frames).state_changes ≡ 1)
run_within_hangover_example =
    run_within_hangover coarse quiet_frames (10 ^ 9) logger logger-IsWarm refl refl
      ((omega arith, omega arith), ((omega arith, omega arith), tt))

abbrev settings : List (Setting coarse)
settings = hangover (pos 5) ∷ enter_offset (negsuc 3) ∷ []

coarse-IsValid : IsValid coarse (default_logger coarse)
coarse-IsValid = record { floor = refl; lasts = omega arith; enters = refl; exits = refl }

-- A codec that counts its frames, and a writer that keeps them.
abbrev encode_length : ℕ → Pcm16Sample → ℕ × CodecResult Sample ℕ
encode_length n pcm = (n + 1, coded (length pcm ∷ []))

abbrev keep : List Sample → Sample → List Sample × Option ℕ
keep w sample = (sample ∷ w, none)

abbrev encoder : Encoder ℕ (List Sample)
encoder = record { samples = 2; inbuf = pos 1 ∷ []; enc = 0; w = []; successive_error_count = 0 }

abbrev pcm : Pcm16Sample
pcm = pos 2 ∷ pos 3 ∷ pos 4 ∷ pos 5 ∷ []

write_sample-Looped_example :
    Looped encode_length keep
      (record encoder { inbuf = pos 1 ∷ pcm })
      (write_sample encode_length keep encoder pcm)
write_sample-Looped_example = write_sample-Looped encode_length keep encoder pcm (omega arith)

-- A decoder that finds every packet corrupt.
abbrev refuse : ℕ → Sample → ℕ × CodecResult Pcm16Sample ℕ
refuse n sample = (n + 1, failed 4)

abbrev always : ℕ → Bool
always err = true

abbrev drop_pcm : ℕ → Pcm16Sample → ℕ × Option ℕ
drop_pcm w samples = (w + 1, none)

all-Corrupt : (c n : ℕ) → Corrupt refuse always drop_pcm c (replicate n (1 ∷ []))
all-Corrupt c zero = end
all-Corrupt c (suc n) = corrupt 4 (omega arith) refl refl (all-Corrupt (c + 1) n)

abbrev decoder : Decoder ℕ ℕ
decoder = record { dec = 0; w = 0; successive_error_count = 0 }
