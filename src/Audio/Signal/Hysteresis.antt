-- ===== src/Audio/Signal/Hysteresis.antt =====
-- pkg/sip/signal_logger.go: which changes of state the logger can make over a run of frames.
use sip_video.Prelude.{
  ℕ, suc, ◌+◌, ◌%◌, ◌^◌, ◌≤◌, ◌<◌, ◌≡◌, refl, ◌∙◌, inl, inr, Bool, true, false, List, [], ◌∷◌,
  length, All, arith, Bool-cases, ◌==◌,
}
use sip_video.Prelude.Int.{ℤ, pos, pos_part}
use sip_video.Audio.Signal.{
  Float, Result, ok, err, ◌>>=◌, min_dbfs, SignalLogger, SignalLoggerOption, with_noise_floor,
  with_hangover_duration, with_enter_voice_offset_db, with_exit_voice_offset_db, apply_options,
  default_logger, new_signal_logger, observe,
}

module _ (float : Float) where
  open float use {F, of_int, add, lt, le}

  -- The logger after the frames, each at its time and with its level.
  abbrev pub run : SignalLogger float → List (ℕ × F) → SignalLogger float
  run s [] = s
  run s ((now, db) ∷ frames) = run (observe float s now db) frames

  -- Past the first ten frames, with room for `n` more in the counters.
  pub record IsWarm (n : ℕ) (s : SignalLogger float) : Type 0 where
    pub warm : 10 ≤ s.frames_processed
    pub frame_room : s.frames_processed + n < 2 ^ 64
    pub change_room : s.state_changes + n < 2 ^ 64

  observe-IsWarm :
      (n now : ℕ) (db : F) (s : SignalLogger float)
      → IsWarm (suc n) s
      → IsWarm n (observe float s now db)
  unfolding observe
  observe-IsWarm n now db s w = ground arith

  abbrev pub bit : Bool → ℕ
  bit true = 1
  bit false = 0

  -- What one frame does to the count of changes: at most one more, and then the state flips.
  record Counts (s t : SignalLogger float) : Type 0 where
    grows : s.state_changes ≤ t.state_changes
    by_one : t.state_changes ≤ s.state_changes + 1
    parity :
        (bit t.last_is_signal + t.state_changes) % 2 ≡ (bit s.last_is_signal + s.state_changes) % 2

  observe-Counts :
      (n now : ℕ) (db : F) (s : SignalLogger float)
      → IsWarm (suc n) s
      → Counts s (observe float s now db)
  unfolding observe
  observe-Counts n now db s w = ground arith

  -- Over any frames after the first ten, the number of changes grows by at most one a frame, and
  -- its growth is even exactly when the logger ends in the state in which it began: every flip of
  -- the state is counted, once.
  pub run_counts :
      (frames : List (ℕ × F)) (s : SignalLogger float)
      → IsWarm (length frames) s
      → (s.state_changes ≤ (run s frames).state_changes)
        × ((run s frames).state_changes ≤ s.state_changes + length frames)
        × ((bit (run s frames).last_is_signal + (run s frames).state_changes) % 2
            ≡ (bit s.last_is_signal + s.state_changes) % 2)
  run_counts [] s w = omega arith
  run_counts ((now, db) ∷ frames) s w =
      let t = observe float s now db in
      omega (
        arith,
        observe-Counts (length frames) now db s w,
        run_counts frames t (observe-IsWarm (length frames) now db s w),
      )

  -- A frame earlier than the end of the hangover that began at `start`.
  abbrev pub IsWithin : ℕ → ℕ → ℕ × F → Type 0
  IsWithin start d (now, db) = (start ≤ now) × (now < start + d)

  record Held (start d : ℕ) (s : SignalLogger float) : Type 0 where
    signal : s.last_is_signal ≡ true
    since : start ≤ s.last_signal_time
    lasts : s.hangover_duration ≡ pos d

  observe-Held :
      (n start d now : ℕ) (db : F) (s : SignalLogger float)
      → IsWarm (suc n) s
      → IsWithin start d (now, db)
      → Held start d s
      → Held start d (observe float s now db)
        × ((observe float s now db).state_changes ≡ s.state_changes)
  unfolding observe
  observe-Held n start d now db s w within held = ground arith

  run-Held :
      (frames : List (ℕ × F)) (start d : ℕ) (s : SignalLogger float)
      → IsWarm (length frames) s
      → All (IsWithin start d) frames
      → Held start d s
      → ((run s frames).last_is_signal ≡ true) × ((run s frames).state_changes ≡ s.state_changes)
  run-Held [] start d s w within held = (held.signal, refl)
  run-Held ((now, db) ∷ frames) start d s w within held =
      let (held', same) = observe-Held (length frames) start d now db s w within.0 held in
      let (signal, changes) =
        run-Held frames start d (observe float s now db) (observe-IsWarm (length frames) now db s w)
          within.1 held' in
      (signal, changes ∙ same)

  -- A logger that has seen its first ten frames and is in voice stays in voice, and counts no change,
  -- through any frames that come within the hangover duration of the last loud frame, however quiet they
  -- are, as long as its 64-bit counters do not wrap.
  pub run_within_hangover :
      (frames : List (ℕ × F)) (d : ℕ) (s : SignalLogger float)
      → IsWarm (length frames) s
      → s.last_is_signal ≡ true
      → s.hangover_duration ≡ pos d
      → All (IsWithin s.last_signal_time d) frames
      → ((run s frames).last_is_signal ≡ true) × ((run s frames).state_changes ≡ s.state_changes)
  run_within_hangover frames d s w signal lasts within =
      run-Held frames s.last_signal_time d s w within
        (record { signal = signal; since = omega arith; lasts = lasts })

  -- The four options, by their arguments.
  pub data Setting : Type 0 where
    noise_floor : F → Setting
    hangover : ℤ → Setting
    enter_offset : F → Setting
    exit_offset : F → Setting

  abbrev pub option_of : Setting → SignalLoggerOption float
  option_of (noise_floor db) = with_noise_floor float db
  option_of (hangover d) = with_hangover_duration float d
  option_of (enter_offset db) = with_enter_voice_offset_db float db
  option_of (exit_offset db) = with_exit_voice_offset_db float db

  abbrev pub options_of : List Setting → List (SignalLoggerOption float)
  options_of [] = []
  options_of (x ∷ xs) = option_of x ∷ options_of xs

  -- A setting that the documentation of the options allows.
  abbrev pub IsAllowed : Setting → Type 0
  IsAllowed (noise_floor db) = lt db (min_dbfs float) ≡ false
  IsAllowed (hangover d) = 0 < pos_part d
  IsAllowed (enter_offset db) = le db (of_int (pos 0)) ≡ false
  IsAllowed (exit_offset db) = le db (of_int (pos 0)) ≡ false

  pub record IsValid (s : SignalLogger float) : Type 0 where
    pub floor : IsAllowed (noise_floor s.noise_floor)
    pub lasts : IsAllowed (hangover s.hangover_duration)
    pub enters : IsAllowed (enter_offset s.enter_voice_offset_db)
    pub exits : IsAllowed (exit_offset s.exit_voice_offset_db)

  -- What a list of options returns.
  abbrev pub Built : List Setting → Result (SignalLogger float) → Type 0
  Built xs (ok s) = All IsAllowed xs × IsValid s
  Built xs (err e) = ¬ All IsAllowed xs

  abbrev Applied : Setting → Result (SignalLogger float) → Type 0
  Applied x (ok s) = IsAllowed x × IsValid s
  Applied x (err e) = ¬ IsAllowed x

  option_of-Applied : (x : Setting) (s : SignalLogger float) → IsValid s → Applied x (option_of x s)
  unfolding with_noise_floor with_hangover_duration with_enter_voice_offset_db
      with_exit_voice_offset_db
  option_of-Applied (noise_floor db) s v = elim (Bool-cases (lt db (min_dbfs float))) [
    | inl bad ↦ rw bad (λ h. cc)
    | inr good ↦
        rw good (good, record { floor = good; lasts = v.lasts; enters = v.enters; exits = v.exits })
  ]
  option_of-Applied (hangover d) s v = elim (Bool-cases (pos_part d == 0)) [
    | inl bad ↦ rw bad (λ h. ground arith)
    | inr good ↦ rw good (ground arith)
  ]
  option_of-Applied (enter_offset db) s v = elim (Bool-cases (le db (of_int (pos 0)))) [
    | inl bad ↦ rw bad (λ h. cc)
    | inr good ↦
        rw good (good, record { floor = v.floor; lasts = v.lasts; enters = good; exits = v.exits })
  ]
  option_of-Applied (exit_offset db) s v = elim (Bool-cases (le db (of_int (pos 0)))) [
    | inl bad ↦ rw bad (λ h. cc)
    | inr good ↦
        rw good (good, record { floor = v.floor; lasts = v.lasts; enters = v.enters; exits = good })
  ]

  Built-cons :
      (x : Setting) (xs : List Setting) (r : Result (SignalLogger float))
      → IsAllowed x
      → Built xs r
      → Built (x ∷ xs) r
  Built-cons x xs (ok s) a b = ((a, b.0), b.1)
  Built-cons x xs (err e) a b = λ all. b all.1

  bind-Built :
      (x : Setting) (xs : List Setting) (r : Result (SignalLogger float))
      → Applied x r
      → ((s : SignalLogger float) → IsValid s → Built xs (apply_options float (options_of xs) s))
      → Built (x ∷ xs) (r >>= apply_options float (options_of xs))
  bind-Built x xs (ok s) a rest = Built-cons x xs _ a.0 (rest s a.1)
  bind-Built x xs (err e) a rest = λ all. a all.0

  apply_options-Built :
      (xs : List Setting) (s : SignalLogger float)
      → IsValid s
      → Built xs (apply_options float (options_of xs) s)
  unfolding apply_options
  apply_options-Built [] s v = (tt, v)
  apply_options-Built (x ∷ xs) s v =
      bind-Built x xs (option_of x s) (option_of-Applied x s v) (apply_options-Built xs)

  -- With the defaults valid, a logger is built exactly when every option is allowed, and then its
  -- settings are valid; otherwise there is an error.
  pub new_signal_logger-Built :
      (xs : List Setting)
      → IsValid (default_logger float)
      → Built xs (new_signal_logger float (options_of xs))
  unfolding new_signal_logger
  new_signal_logger-Built xs v = apply_options-Built xs (default_logger float) v
