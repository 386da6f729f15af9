-- ===== src/Server/Offer/Bare.antt =====
-- What pkg/sip/inbound.go leaves of the SRTP session parameters in an offer.
use sip_video.Prelude.{
  ℕ, zero, suc, ◌≡◌, ◌≤◌, ◌⊎◌, inl, inr, refl, sym, ap, ◌∙◌, Option, none, some, Bool, true, false,
  not, leb, if◌then◌else◌, List, [], ◌∷◌, ◌++◌, length, take, All, arith,
}
use sip_video.Text.{Bytes, bytes, has_prefix, split, join}
use sip_video.Protocol.Notify.{trim_cr}
use sip_video.Server.Offer.{
  starts_word, fields, ends_cr, with_cr, sanitize_line, add_line, sanitize_lines, written, sanitize,
}
use sip_video.Text.Cut.{Without}
use sip_video.Server.Offer.Fields.{
  IsWord, fields-append, fields-join, fields-AreWords, split-Without, split-join, All-take,
  take-length, length-take_le, Without-append, Without-join, split-some,
}

abbrev is_crypto : Bytes → Bool
is_crypto line = has_prefix (trim_cr line) (bytes "a=crypto:")

abbrev words_of : Bytes → List Bytes
words_of line = fields (trim_cr line)

-- A crypto line is left with its first three words, and any other line as it was.
abbrev IsCut : Bytes → Bytes → Type 0
IsCut line cut =
    ((is_crypto line ≡ false) × (cut ≡ line))
    ⊎ ((is_crypto line ≡ true) × (words_of cut ≡ take 3 (words_of line)))

abbrev pub AreCut : List Bytes → List Bytes → Type 0
AreCut [] [] = Unit
AreCut [] (cut ∷ cuts) = ⊥
AreCut (line ∷ lines) [] = ⊥
AreCut (line ∷ lines) (cut ∷ cuts) = IsCut line cut × AreCut lines cuts

starts_word-trim_cr : (s : Bytes) → starts_word (trim_cr s) ≡ starts_word s
unfolding trim_cr
starts_word-trim_cr [] = refl
starts_word-trim_cr (c ∷ []) = ground arith
starts_word-trim_cr (c ∷ d ∷ s) = refl

fields-trim_cr : (s : Bytes) → fields (trim_cr s) ≡ fields s
unfolding fields trim_cr
fields-trim_cr [] = refl
fields-trim_cr (c ∷ []) = ground arith
fields-trim_cr (c ∷ d ∷ s) = rw (fields-trim_cr (d ∷ s)) (rw (starts_word-trim_cr (d ∷ s)) refl)

words_of-with_cr : (b : Bool) (s : Bytes) → words_of (with_cr b s) ≡ fields s
words_of-with_cr false s = fields-trim_cr s
words_of-with_cr true s = fields-trim_cr (s ++ 13 ∷ []) ∙ fields-append s

-- The line that stands in the place of one.
abbrev pub line_of : Bytes → Option Bytes → Bytes
line_of line none = line
line_of line (some cut) = cut

cut-words :
    (line : Bytes)
    → words_of (with_cr (ends_cr line) (join 32 (take 3 (words_of line)))) ≡ take 3 (words_of line)
cut-words line =
    words_of-with_cr (ends_cr line) (join 32 (take 3 (words_of line)))
    ∙ fields-join (take 3 (words_of line))
        (All-take IsWord 3 (words_of line) (fields-AreWords (trim_cr line)))

sanitize_line-IsCut : (line : Bytes) → IsCut line (line_of line (sanitize_line line))
unfolding sanitize_line
sanitize_line-IsCut line = ground (arith, cut-words line, take-length 3 (words_of line))

short-stays :
    (b : Bool) (n : ℕ) (cut : Option Bytes)
    → n ≤ 3
    → (if not b then none else if leb n 3 then none else cut) ≡ none
short-stays b n cut h = ground (arith, h)

-- A line that was cut is left alone.
cut-again : (line cut : Bytes) → IsCut line cut → sanitize_line cut ≡ none
unfolding sanitize_line
cut-again line cut (inl (h, e)) = rw e (rw h refl)
cut-again line cut (inr (h, e)) =
    let small : length (words_of cut) ≤ 3 = rw e (length-take_le 3 (words_of line)) in
    short-stays (is_crypto cut) (length (words_of cut)) _ small

with_cr-Without : (b : Bool) (s : Bytes) → Without 10 s → Without 10 (with_cr b s)
with_cr-Without false s v = v
with_cr-Without true s v = Without-append s (13 ∷ []) v (omega arith, tt)

cut-Without :
    (line : Bytes) → Without 10 (with_cr (ends_cr line) (join 32 (take 3 (words_of line))))
cut-Without line =
    with_cr-Without (ends_cr line) _
      (Without-join (take 3 (words_of line)) (All-take IsWord 3 _ (fields-AreWords (trim_cr line))))

sanitize_line-Without :
    (line : Bytes) → Without 10 line → Without 10 (line_of line (sanitize_line line))
unfolding sanitize_line
sanitize_line-Without line v = ground (arith, v, cut-Without line)

add_line-lines :
    (line : Bytes) (r : Option Bytes) (rest : List Bytes × ℕ)
    → (add_line line r rest).0 ≡ line_of line r ∷ rest.0
add_line-lines line none rest = refl
add_line-lines line (some cut) rest = refl

sanitize_lines-AreCut : (lines : List Bytes) → AreCut lines (sanitize_lines lines).0
unfolding sanitize_lines
sanitize_lines-AreCut [] = tt
sanitize_lines-AreCut (line ∷ lines) =
    rw (add_line-lines line (sanitize_line line) (sanitize_lines lines))
      (sanitize_line-IsCut line, sanitize_lines-AreCut lines)

sanitize_lines-Without :
    (lines : List Bytes) → All (Without 10) lines → All (Without 10) (sanitize_lines lines).0
unfolding sanitize_lines
sanitize_lines-Without [] v = tt
sanitize_lines-Without (line ∷ lines) v =
    rw (add_line-lines line (sanitize_line line) (sanitize_lines lines))
      (sanitize_line-Without line v.0, sanitize_lines-Without lines v.1)

add_line-none :
    (line : Bytes) (r : Option Bytes) (lines : List Bytes) (rest : List Bytes × ℕ)
    → (rest.1 ≡ 0 → rest.0 ≡ lines)
    → (add_line line r rest).1 ≡ 0
    → (add_line line r rest).0 ≡ line ∷ lines
add_line-none line none lines rest f h = ap (λ ls. line ∷ ls) (f h)
add_line-none line (some cut) lines rest f h = absurd (omega (arith, h))

sanitize_lines-none :
    (lines : List Bytes) → (sanitize_lines lines).1 ≡ 0 → (sanitize_lines lines).0 ≡ lines
unfolding sanitize_lines
sanitize_lines-none [] h = refl
sanitize_lines-none (line ∷ lines) h =
    add_line-none line (sanitize_line line) lines (sanitize_lines lines) (sanitize_lines-none lines)
      h

sanitize_lines-again :
    (lines cuts : List Bytes) → AreCut lines cuts → sanitize_lines cuts ≡ (cuts, 0)
unfolding sanitize_lines
sanitize_lines-again [] [] v = refl
sanitize_lines-again [] (cut ∷ cuts) v = absurd v
sanitize_lines-again (line ∷ lines) [] v = absurd v
sanitize_lines-again (line ∷ lines) (cut ∷ cuts) v =
    rw (cut-again line cut v.0) (rw (sanitize_lines-again lines cuts v.1) refl)

AreCut-none : (lines : List Bytes) → AreCut lines [] → lines ≡ []
AreCut-none [] v = refl
AreCut-none (line ∷ lines) v = absurd v

split-written :
    (offer : Bytes) (r : List Bytes × ℕ)
    → (r.1 ≡ 0 → r.0 ≡ split 10 offer)
    → AreCut (split 10 offer) r.0
    → All (Without 10) r.0
    → split 10 (written offer r).0 ≡ r.0
split-written offer (cuts, zero) f v w = sym (f refl)
split-written offer ([], suc n) f v w = absurd (split-some offer (AreCut-none (split 10 offer) v))
split-written offer (cut ∷ cuts, suc n) f v w = split-join 10 cut cuts w.0 w.1

split-sanitize : (offer : Bytes) → split 10 (sanitize offer).0 ≡ (sanitize_lines (split 10 offer)).0
unfolding sanitize
split-sanitize offer =
    let lines = split 10 offer in
    split-written offer (sanitize_lines lines) (sanitize_lines-none lines)
      (sanitize_lines-AreCut lines) (sanitize_lines-Without lines (split-Without 10 offer))

-- In the offer that is read every `a=crypto` line has the first three words of the line that was
-- there, and every other line is as it was. Sanitizing that offer again cuts no line of it.
pub sanitize-AreCut :
    (offer : Bytes)
    → AreCut (split 10 offer) (split 10 (sanitize offer).0)
      × (sanitize (sanitize offer).0 ≡ ((sanitize offer).0, 0))
unfolding sanitize
sanitize-AreCut offer =
    let lines = split 10 offer in
    (
      rw (split-sanitize offer) (sanitize_lines-AreCut lines),
      ap (written (sanitize offer).0) (
          ap sanitize_lines (split-sanitize offer)
          ∙ sanitize_lines-again lines (sanitize_lines lines).0 (sanitize_lines-AreCut lines)),
    )
