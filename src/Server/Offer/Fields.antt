-- ===== src/Server/Offer/Fields.antt =====
-- The words of a line in pkg/sip/inbound.go, and texts that are joined and split again.
use sip_video.Prelude.{
  zero, suc, ◌≤◌, length, take, ℕ, ◌≡◌, ◌≢◌, refl, ap, ◌∙◌, true, false, List, [], ◌∷◌, ◌++◌, All,
  arith, not, Bool,
}
use sip_video.Text.{Bytes, split, join}
use sip_video.Text.Trim.{IsByte}
use sip_video.Text.Cut.{Without}
use sip_video.Server.Offer.{starts_word, add_byte, fields}

-- A word has a byte, and no white space.
abbrev pub IsWord : Bytes → Type 0
IsWord [] = ⊥
IsWord (c ∷ s) = IsByte c × All IsByte s

starts_word-append : (s : Bytes) → starts_word (s ++ 13 ∷ []) ≡ starts_word s
starts_word-append [] = refl
starts_word-append (c ∷ s) = refl

-- A carriage return at the end is in no word.
pub fields-append : (s : Bytes) → fields (s ++ 13 ∷ []) ≡ fields s
unfolding fields
fields-append [] = refl
fields-append (c ∷ s) = rw (fields-append s) (rw (starts_word-append s) refl)

-- A word alone.
pub fields-word : (c : ℕ) (s : Bytes) → IsByte c → All IsByte s → fields (c ∷ s) ≡ (c ∷ s) ∷ []
unfolding fields
fields-word c [] h v = rw h refl
fields-word c (d ∷ s) h v = rw h (
    ap (λ b. add_byte c (not b) (fields (d ∷ s))) v.0
    ∙ ap (add_byte c true) (fields-word d s v.0 v.1))

-- A word before a space.
pub fields-space :
    (c : ℕ) (s rest : Bytes)
    → IsByte c
    → All IsByte s
    → fields (c ∷ s ++ 32 ∷ rest) ≡ (c ∷ s) ∷ fields rest
unfolding fields
fields-space c [] rest h v = rw h refl
fields-space c (d ∷ s) rest h v = rw h (
    ap (λ b. add_byte c (not b) (fields (d ∷ s ++ 32 ∷ rest))) v.0
    ∙ ap (add_byte c true) (fields-space d s rest v.0 v.1))

pub fields-join : (words : List Bytes) → All IsWord words → fields (join 32 words) ≡ words
unfolding join fields
fields-join [] v = refl
fields-join ([] ∷ words) v = absurd v.0
fields-join ((c ∷ s) ∷ []) v = fields-word c s v.0.0 v.0.1
fields-join ((c ∷ s) ∷ next ∷ words) v =
    fields-space c s (join 32 (next ∷ words)) v.0.0 v.0.1
    ∙ ap (λ ws. (c ∷ s) ∷ ws) (fields-join (next ∷ words) v.1)

add_byte-AreWords :
    (c : ℕ) (b : Bool) (words : List Bytes)
    → IsByte c
    → All IsWord words
    → All IsWord (add_byte c b words)
add_byte-AreWords c false words h v = ((h, tt), v)
add_byte-AreWords c true [] h v = ((h, tt), tt)
add_byte-AreWords c true ([] ∷ words) h v = absurd v.0
add_byte-AreWords c true ((d ∷ s) ∷ words) h v = ((h, v.0), v.1)

pub fields-AreWords : (s : Bytes) → All IsWord (fields s)
unfolding fields
fields-AreWords [] = tt
fields-AreWords (c ∷ s) =
    ground (arith, fields-AreWords s, add_byte-AreWords c (starts_word s) (fields s))

-- The parts of a split have no separator.
pub split-Without : (sep : ℕ) (s : Bytes) → All (Without sep) (split sep s)
unfolding split
split-Without sep [] = (tt, tt)
split-Without sep (c ∷ s) = ground (arith, split-Without sep s)

-- Lines that have no separator are joined and split to themselves.
pub split-join :
    (sep : ℕ) (part : Bytes) (parts : List Bytes)
    → Without sep part
    → All (Without sep) parts
    → split sep (join sep (part ∷ parts)) ≡ part ∷ parts
unfolding split join
split-join sep [] [] h v = refl
split-join sep (c ∷ s) [] h v = ground (arith, h, split-join sep s [] h.1 tt)
split-join sep [] (next ∷ parts) h v = ground (arith, split-join sep next parts v.0 v.1)
split-join sep (c ∷ s) (next ∷ parts) h v = ground (arith, h, split-join sep s (next ∷ parts) h.1 v)

pub All-take : (P : Bytes → Type 0) (n : ℕ) (xs : List Bytes) → All P xs → All P (take n xs)
All-take P zero xs v = tt
All-take P (suc n) [] v = tt
All-take P (suc n) (x ∷ xs) v = (v.0, All-take P n xs v.1)

pub take-length : (n : ℕ) (xs : List Bytes) → length xs ≤ n → take n xs ≡ xs
take-length zero [] h = refl
take-length zero (x ∷ xs) h = absurd (omega (arith, h))
take-length (suc n) [] h = refl
take-length (suc n) (x ∷ xs) h = ap (λ ys. x ∷ ys) (take-length n xs (omega (arith, h)))

pub length-take_le : (n : ℕ) (xs : List Bytes) → length (take n xs) ≤ n
length-take_le zero xs = omega arith
length-take_le (suc n) [] = omega arith
length-take_le (suc n) (x ∷ xs) = let h = length-take_le n xs in omega (arith, h)

pub Without-append : (s t : Bytes) → Without 10 s → Without 10 t → Without 10 (s ++ t)
Without-append [] t v w = w
Without-append (c ∷ s) t v w = (v.0, Without-append s t v.1 w)

bytes-Without : (s : Bytes) → All IsByte s → Without 10 s
bytes-Without [] v = tt
bytes-Without (c ∷ s) v = (ground (arith, v.0), bytes-Without s v.1)

word-Without : (word : Bytes) → IsWord word → Without 10 word
word-Without [] v = absurd v
word-Without (c ∷ s) v = bytes-Without (c ∷ s) v

pub Without-join : (words : List Bytes) → All IsWord words → Without 10 (join 32 words)
unfolding join
Without-join [] v = tt
Without-join (word ∷ []) v = word-Without word v.0
Without-join (word ∷ next ∷ words) v =
    Without-append word (32 ∷ join 32 (next ∷ words)) (word-Without word v.0)
      (omega arith, Without-join (next ∷ words) v.1)

-- A text always has a line.
pub split-some : (s : Bytes) → split 10 s ≢ []
unfolding split
split-some [] = ground arith
split-some (c ∷ s) = ground (arith, split-some s)
