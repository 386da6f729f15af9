-- ===== src/Server/Pin/Gathering.antt =====
-- Which PIN `pinPrompt` of pkg/sip/inbound.go checks, and when it gives up.
use sip_video.Prelude.{
  ℕ, ◌+◌, ◌≤◌, ◌<◌, ◌≡◌, Bool, false, List, [], ◌∷◌, ◌++◌, length, length-append, All, ◌==◌,
  if◌then◌else◌, arith,
}
use sip_video.Text.{Bytes}
use sip_video.Server.Pin.{Event, digit, CallDispatch, closed_wrong_pin, gather, pin_prompt}

abbrev pub digits : List ℕ → List Event
digits [] = []
digits (d ∷ ds) = digit d ∷ digits ds

-- The tones that are recognized, without the zero bytes of those that are not.
abbrev pub recognized : List ℕ → Bytes
recognized [] = []
recognized (d ∷ ds) = let rest = recognized ds in if d == 0 then rest else d ∷ rest

abbrev pub IsPinTone : ℕ → Type 0
IsPinTone d = (d == 35) ≡ false

module _ {S : Type 0} (dispatch : S → Bytes → Bool → S × CallDispatch) where
  gather-too_long :
      (s : S) (pin : Bytes) (ds : List ℕ) (rest : List Event)
      → All IsPinTone ds
      → length pin ≤ 16
      → 16 < length pin + length (recognized ds)
      → gather dispatch s pin (digits ds ++ rest) ≡ (s, closed_wrong_pin)
  unfolding gather
  gather-too_long s pin [] rest t p h = absurd (omega arith)
  gather-too_long s pin (d ∷ ds) rest t p h = ground (
    arith,
    gather-too_long s pin ds rest t.1,
    gather-too_long s (pin ++ (d ∷ [])) ds rest t.1,
    length-append pin (d ∷ []),
  )

  -- More than 16 recognized tones without `#` close the call as a wrong PIN, and the dispatch
  -- handler is never asked.
  pub pin_prompt-too_long :
      (s : S) (ds : List ℕ) (rest : List Event)
      → All IsPinTone ds
      → 16 < length (recognized ds)
      → pin_prompt dispatch s (digits ds ++ rest) ≡ (s, closed_wrong_pin)
  unfolding pin_prompt
  pin_prompt-too_long s ds rest t h = gather-too_long s [] ds rest t (omega arith) (omega arith)
