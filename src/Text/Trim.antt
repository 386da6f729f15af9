-- ===== src/Text/Trim.antt =====
-- Texts without white space, which `strings.TrimSpace` keeps and `strings.Split` may not divide.
use sip_video.Prelude.{ℕ, ◌≡◌, refl, ap, ◌∙◌, false, [], ◌∷◌, ◌++◌, All, arith}
use sip_video.Prelude.Int.{pos}
use sip_video.Text.{Bytes, is_digit, is_space, trim_left, trim_space, split, itoa}
use sip_video.Text.Cut.{Without}
use sip_video.Text.Decimal.{IsDigit, itoa-IsDigit}
use mathlib.Core.List.{reverse, reverse_aux, reverse-reverse}

abbrev pub IsByte : ℕ → Type 0
IsByte c = is_space c ≡ false

trim_left-IsByte : (s : Bytes) → All IsByte s → trim_left s ≡ s
unfolding trim_left
trim_left-IsByte [] v = refl
trim_left-IsByte (c ∷ s) v = rw v.0 refl

reverse_aux-All : (P : ℕ → Type 0) (s t : Bytes) → All P s → All P t → All P (reverse_aux s t)
reverse_aux-All P [] t v w = w
reverse_aux-All P (c ∷ s) t v w = reverse_aux-All P s (c ∷ t) v.1 (v.0, w)

pub trim_space-IsByte : (s : Bytes) → All IsByte s → trim_space s ≡ s
unfolding trim_space
trim_space-IsByte s v =
    ap (λ t. reverse (trim_left (reverse t))) (trim_left-IsByte s v)
    ∙ ap reverse (trim_left-IsByte (reverse s) (reverse_aux-All IsByte s [] v tt))
    ∙ reverse-reverse s

pub All-append : (P : ℕ → Type 0) (s t : Bytes) → All P s → All P t → All P (s ++ t)
All-append P [] t v w = w
All-append P (c ∷ s) t v w = (v.0, All-append P s t v.1 w)

digits-IsByte : (s : Bytes) → All IsDigit s → All IsByte s
digits-IsByte [] v = tt
digits-IsByte (c ∷ s) v = (ground (arith, v.0), digits-IsByte s v.1)

pub itoa-IsByte : (n : ℕ) → All IsByte (itoa (pos n))
itoa-IsByte n = digits-IsByte (itoa (pos n)) (itoa-IsDigit n)

digits-Without : (sep : ℕ) (s : Bytes) → is_digit sep ≡ false → All IsDigit s → Without sep s
digits-Without sep [] h v = tt
digits-Without sep (c ∷ s) h v = (λ e. ground (arith, h, v.0, e), digits-Without sep s h v.1)

pub itoa-Without : (sep n : ℕ) → is_digit sep ≡ false → Without sep (itoa (pos n))
itoa-Without sep n h = digits-Without sep (itoa (pos n)) h (itoa-IsDigit n)

pub split-Without : (sep : ℕ) (s : Bytes) → Without sep s → split sep s ≡ s ∷ []
unfolding split
split-Without sep [] v = refl
split-Without sep (c ∷ s) v = ground (arith, v.0, split-Without sep s v.1)
