-- ===== src/Text/Cut.antt =====
-- `strings.Cut` of Text: what it finds, and when it finds nothing.
use sip_video.Prelude.{
  ℕ, ◌≡◌, ◌≢◌, refl, ap, Option, none, some, false, [], ◌∷◌, ◌++◌, ◌==◌, All, arith, Bool-cases,
  inl, inr,
}
use sip_video.Text.{Bytes, cut}

-- A text without a byte.
abbrev pub Without : ℕ → Bytes → Type 0
Without sep = All (λ c. c ≢ sep)

pub cut-none : (sep : ℕ) (s : Bytes) → Without sep s → cut sep s ≡ none
unfolding cut
cut-none sep [] v = refl
cut-none sep (c ∷ s) v = ground (arith, v.0, cut-none sep s v.1)

-- The result of a cut: the byte is nowhere, or the text before it has none.
abbrev pub IsCut : ℕ → Bytes → Option (Bytes × Bytes) → Type 0
IsCut sep s none = Without sep s
IsCut sep s (some (before, after)) = (s ≡ before ++ sep ∷ after) × Without sep before

later-IsCut :
    (sep c : ℕ) (s : Bytes) (r : Option (Bytes × Bytes))
    → c == sep ≡ false
    → IsCut sep s r
    → IsCut sep (c ∷ s) (elim r [ none ↦ none | some (before, after) ↦ some (c ∷ before, after) ])
later-IsCut sep c s none h v = (ground (arith, h), v)
later-IsCut sep c s (some (before, after)) h v = (ap (λ t. c ∷ t) v.0, (ground (arith, h), v.1))

pub cut-IsCut : (sep : ℕ) (s : Bytes) → IsCut sep s (cut sep s)
unfolding cut
cut-IsCut sep [] = tt
cut-IsCut sep (c ∷ s) = elim (Bool-cases (c == sep)) [
  | inl h ↦ rw h (ap (λ b. b ∷ s) (ground (arith, h)), tt)
  | inr h ↦ rw h (later-IsCut sep c s (cut sep s) h (cut-IsCut sep s))
]
