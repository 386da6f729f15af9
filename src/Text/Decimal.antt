-- ===== src/Text/Decimal.antt =====
-- Decimal numbers and separators of Text: a printed number is read back, and cut out of a text.
use sip_video.Prelude.{
  ℕ, zero, suc, ◌+◌, ◌*◌, ◌/◌, ◌%◌, ◌^◌, ◌<◌, ◌≡◌, ◌≢◌, refl, ap, ◌∙◌, some, true, [], ◌∷◌, ◌++◌,
  All, arith,
}
use sip_video.Prelude.Int.{pos}
use sip_video.Text.{Bytes, cut, is_digit, digits_value, digits_of, parse_digits, atoi, itoa}

-- One more than the largest number of so many digits.
abbrev bound : ℕ → ℕ
bound zero = 1
bound (suc fuel) = 10 * bound fuel

digits_value-digit :
    (d a : ℕ) (s : Bytes) → d < 10 → digits_value ((b'0' + d) ∷ s) a ≡ digits_value s (a * 10 + d)
unfolding digits_value
digits_value-digit d a s h = ground (arith, h)

digits_value-digits_of :
    (fuel n : ℕ) (s : Bytes)
    → n < bound fuel
    → digits_value (digits_of fuel n s) 0 ≡ digits_value s n
unfolding digits_value digits_of
digits_value-digits_of zero n s h = ap (digits_value s) (omega (arith, h))
digits_value-digits_of (suc fuel) n s h = ground (
  arith,
  h,
  digits_value-digit (n % 10) 0 s (omega arith),
  digits_value-digit (n % 10) (n / 10) s (omega arith),
  digits_value-digits_of fuel (n / 10) ((b'0' + n % 10) ∷ s) (omega (arith, h)),
)

abbrev pub IsDigit : ℕ → Type 0
IsDigit c = is_digit c ≡ true

digits_of-IsDigit : (fuel n : ℕ) (s : Bytes) → All IsDigit s → All IsDigit (digits_of fuel n s)
unfolding digits_of
digits_of-IsDigit zero n s v = v
digits_of-IsDigit (suc fuel) n s v =
    let d : IsDigit (b'0' + n % 10) = ground arith in
    ground (arith, d, v, digits_of-IsDigit fuel (n / 10) ((b'0' + n % 10) ∷ s) (d, v))

-- A byte cuts a text at its first occurrence.
pub cut-append :
    (sep : ℕ) (s rest : Bytes) → All (λ c. c ≢ sep) s → cut sep (s ++ sep ∷ rest) ≡ some (s, rest)
unfolding cut
cut-append sep [] rest v = ground arith
cut-append sep (c ∷ s) rest v = ground (arith, v.0, cut-append sep s rest v.1)

-- What starts with a digit is read without a sign.
abbrev pub Unsigned : Bytes → Type 0
Unsigned [] = ⊥
Unsigned (c ∷ s) = IsDigit c

digits_of-Unsigned : (fuel n : ℕ) (s : Bytes) → Unsigned (digits_of (suc fuel) n s)
unfolding digits_of
digits_of-Unsigned zero n s = ground arith
digits_of-Unsigned (suc fuel) n s =
    ground (arith, digits_of-Unsigned fuel (n / 10) ((b'0' + n % 10) ∷ s))

atoi-Unsigned :
    (s : Bytes) (n : ℕ)
    → Unsigned s
    → digits_value s 0 ≡ some n
    → n < 2 ^ 63
    → atoi s ≡ some (pos n)
unfolding atoi parse_digits
atoi-Unsigned [] n d e h = absurd d
atoi-Unsigned (c ∷ s) n d e h = ground (arith, d, e, h)

digits_value-nil : (n : ℕ) → digits_value [] n ≡ some n
unfolding digits_value
digits_value-nil n = refl

pub atoi-itoa : (n : ℕ) → n < 2 ^ 63 → atoi (itoa (pos n)) ≡ some (pos n)
unfolding itoa
atoi-itoa n h =
    atoi-Unsigned (digits_of 20 n []) n (digits_of-Unsigned 19 n [])
      (digits_value-digits_of 20 n [] (omega (arith, h)) ∙ digits_value-nil n) h

pub itoa-IsDigit : (n : ℕ) → All IsDigit (itoa (pos n))
unfolding itoa
itoa-IsDigit n = digits_of-IsDigit 20 n [] tt

parse_digits-Unsigned : (s : Bytes) → Unsigned s → parse_digits s ≡ digits_value s 0
unfolding parse_digits
parse_digits-Unsigned [] d = absurd d
parse_digits-Unsigned (c ∷ s) d = refl

pub parse_digits-itoa : (n : ℕ) → n < 2 ^ 63 → parse_digits (itoa (pos n)) ≡ some n
unfolding itoa
parse_digits-itoa n h =
    parse_digits-Unsigned (digits_of 20 n []) (digits_of-Unsigned 19 n [])
    ∙ digits_value-digits_of 20 n [] (omega (arith, h))
    ∙ digits_value-nil n
