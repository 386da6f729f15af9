-- ===== src/Server/Offer.antt =====
-- The SDP offer of an INVITE in pkg/sip/inbound.go: SRTP session parameters are cut off its lines of
-- `a=crypto` before it is read.
pub mod Fields
pub mod Bare
mod Tests
use sip_video.Prelude.{
  ℕ, zero, suc, ◌+◌, Option, none, some, Bool, true, false, not, List, [], ◌∷◌, ◌++◌, length, take,
  leb, ◌==◌, if◌then◌else◌,
}
use sip_video.Text.{Bytes, bytes, is_space, has_prefix, split, join}
use sip_video.Protocol.Notify.{trim_cr}

-- Whether a text starts with a byte of a word.
abbrev pub starts_word : Bytes → Bool
starts_word [] = false
starts_word (c ∷ s) = not (is_space c)

abbrev pub add_byte : ℕ → Bool → List Bytes → List Bytes
add_byte c false words = (c ∷ []) ∷ words
add_byte c true [] = (c ∷ []) ∷ []
add_byte c true (word ∷ words) = (c ∷ word) ∷ words

-- `strings.Fields`: the words of a text.
unfoldable pub fields : Bytes → List Bytes
fields [] = []
fields (c ∷ s) = let rest = fields s in if is_space c then rest else add_byte c (starts_word s) rest

unfoldable pub ends_cr : Bytes → Bool
ends_cr [] = false
ends_cr (c ∷ []) = c == 13
ends_cr (c ∷ d ∷ s) = ends_cr (d ∷ s)

-- The carriage return of the line that was cut.
abbrev pub with_cr : Bool → Bytes → Bytes
with_cr false s = s
with_cr true s = s ++ 13 ∷ []

-- The line to write in place of one, or `none` where it stays.
unfoldable pub sanitize_line : Bytes → Option Bytes
unfolding ends_cr fields has_prefix trim_cr
sanitize_line line =
    let parts = fields (trim_cr line) in
    if not (has_prefix (trim_cr line) (bytes "a=crypto:"))
    then none
    else if leb (length parts) 3
    then none
    else some (with_cr (ends_cr line) (join 32 (take 3 parts)))

abbrev pub add_line : Bytes → Option Bytes → List Bytes × ℕ → List Bytes × ℕ
add_line line none (lines, n) = (line ∷ lines, n)
add_line line (some cut) (lines, n) = (cut ∷ lines, suc n)

unfoldable pub sanitize_lines : List Bytes → List Bytes × ℕ
unfolding sanitize_line
sanitize_lines [] = ([], 0)
sanitize_lines (line ∷ lines) = add_line line (sanitize_line line) (sanitize_lines lines)

abbrev pub written : Bytes → List Bytes × ℕ → Bytes × ℕ
written offer (lines, zero) = (offer, 0)
written offer (lines, suc n) = (join 10 lines, suc n)

-- The offer to read, and how many lines were cut.
unfoldable pub sanitize : Bytes → Bytes × ℕ
unfolding sanitize_lines split
sanitize offer = written offer (sanitize_lines (split 10 offer))
