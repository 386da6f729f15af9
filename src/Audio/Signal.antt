-- ===== src/Audio/Signal.antt =====
-- pkg/sip/signal_logger.go: voice or silence by the level of a frame, with hysteresis. The level is
-- a float64: the type and its operations are a parameter. Log lines are left out.
pub mod Hysteresis
use sip_video.Prelude.{
  ℕ, suc, ◌+◌, ◌-◌, ◌*◌, ◌%◌, ◌^◌, Option, none, some, Bool, true, false, ◌&&◌, not, List, [], ◌∷◌,
  length, ltb, leb, ◌==◌, if◌then◌else◌,
}
use sip_video.Prelude.Int.{ℤ, pos, negsuc, pos_part, neg_part}

-- `float64`, with `math.Log10`.
pub record Float : Type 1 where
  pub F : Type 0
  pub of_int : ℤ → F
  pub add : F → F → F
  pub mul : F → F → F
  pub div : F → F → F
  pub log10 : F → F
  pub lt : F → F → Bool
  pub le : F → F → Bool

-- The two's complement reading of 64 bits.
abbrev pub int64 : ℕ → ℤ
int64 n = let w = n % 2 ^ 64 in if ltb w (2 ^ 63) then pos w else negsuc (2 ^ 64 - w - 1)

abbrev pub square : ℤ → ℕ
square x = pos_part x * pos_part x + neg_part x * neg_part x

sum_squares : List ℤ → ℕ → ℕ
sum_squares [] acc = acc
sum_squares (v ∷ sample) acc = sum_squares sample (acc + square v)

pub data OptionError : Type 0 where
  noise_floor_too_low hangover_not_positive enter_not_positive exit_not_positive : OptionError

pub data Result (A : Type 0) : Type 0 where
  ok : A → Result A
  err : OptionError → Result A

infixl 5 ◌>>=◌
abbrev pub ◌>>=◌ : {A B : Type 0} → Result A → (A → Result B) → Result B
ok a >>= f = f a
err e >>= f = err e

module _ (float : Float) where
  open float use {F, of_int, add, mul, div, log10, lt, le}

  abbrev pub min_dbfs : F
  min_dbfs = of_int (negsuc 99)

  -- Durations and times are nanoseconds; a time is counted from the zero `time.Time`.
  pub record SignalLogger : Type 0 where
    pub hangover_duration : ℤ
    pub noise_floor : F
    pub enter_voice_offset_db : F
    pub exit_voice_offset_db : F
    pub last_signal_time : ℕ
    pub last_is_signal : Bool
    pub frames_processed : ℕ
    pub state_changes : ℕ

  abbrev pub SignalLoggerOption : Type 0
  SignalLoggerOption = SignalLogger → Result SignalLogger

  unfoldable pub with_noise_floor : F → SignalLoggerOption
  with_noise_floor db s =
      if lt db min_dbfs then err noise_floor_too_low else ok (record s { noise_floor = db })

  unfoldable pub with_hangover_duration : ℤ → SignalLoggerOption
  with_hangover_duration d s =
      if pos_part d == 0 then err hangover_not_positive else ok (record s { hangover_duration = d })

  unfoldable pub with_enter_voice_offset_db : F → SignalLoggerOption
  with_enter_voice_offset_db db s =
      if le db (of_int (pos 0))
      then err enter_not_positive
      else ok (record s { enter_voice_offset_db = db })

  unfoldable pub with_exit_voice_offset_db : F → SignalLoggerOption
  with_exit_voice_offset_db db s =
      if le db (of_int (pos 0))
      then err exit_not_positive
      else ok (record s { exit_voice_offset_db = db })

  unfoldable pub apply_options : List SignalLoggerOption → SignalLoggerOption
  apply_options [] s = ok s
  apply_options (option ∷ options) s = option s >>= apply_options options

  abbrev pub default_logger : SignalLogger
  default_logger = record {
    hangover_duration = pos (10 ^ 9);
    noise_floor = of_int (negsuc 49);
    enter_voice_offset_db = of_int (pos 10);
    exit_voice_offset_db = of_int (pos 5);
    last_signal_time = 0;
    last_is_signal = false;
    frames_processed = 0;
    state_changes = 0;
  }

  -- On an error the source hands back the next writer, unwrapped: there is no logger then.
  unfoldable pub new_signal_logger : List SignalLoggerOption → Result SignalLogger
  unfolding apply_options
  new_signal_logger options = apply_options options default_logger

  unfoldable pub rms_to_dbfs : List ℤ → F → F
  unfolding sum_squares
  rms_to_dbfs sample floor =
      let mean_sq = div (of_int (int64 (sum_squares sample 0))) (of_int (pos (length sample))) in
      let ref_sq = mul (of_int (pos 32767)) (of_int (pos 32767)) in
      let db = mul (of_int (pos 10)) (log10 (div mean_sq ref_sq)) in
      if length sample == 0
      then floor
      else if le mean_sq (of_int (pos 0))
      then floor
      else if lt db floor
      then floor
      else db

  -- The state after a frame of level `current_db` at time `now`. `lastSignalTime` is updated first.
  unfoldable pub observe : SignalLogger → ℕ → F → SignalLogger
  observe s now current_db =
      let above_enter = lt (add s.noise_floor s.enter_voice_offset_db) current_db in
      let below_exit = lt current_db (add s.noise_floor s.exit_voice_offset_db) in
      let signal_time = if above_enter then now else s.last_signal_time in
      let frames = (s.frames_processed + 1) % 2 ^ 64 in
      let t = record s { last_signal_time = signal_time; frames_processed = frames } in
      let changes = (s.state_changes + 1) % 2 ^ 64 in
      if leb frames 10
      then record t { last_is_signal = above_enter }
      else if above_enter && not s.last_is_signal
      then record t { last_is_signal = true; state_changes = changes }
      else if below_exit && s.last_is_signal
      then (if leb (pos_part s.hangover_duration) (now - signal_time)
          then record t { last_is_signal = false; state_changes = changes }
          else t)
      else t

  -- `WriteSample`: the frame goes on to the next writer whatever its level.
  module _ {W Err : Type 0} (next : W → List ℤ → W × Option Err) where
    unfoldable pub write_sample : SignalLogger × W → ℕ → List ℤ → (SignalLogger × W) × Option Err
    write_sample (s, w) now sample =
        let (w', e) = next w sample in ((observe s now (rms_to_dbfs sample min_dbfs), w'), e)
