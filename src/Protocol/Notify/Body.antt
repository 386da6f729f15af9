-- ===== src/Protocol/Notify/Body.antt =====
-- The status line in the body of a NOTIFY: what pkg/sip/protocol.go reads from a printed one.
use sip_video.Prelude.{
  ℕ, ◌^◌, ◌<◌, ◌≡◌, ◌≢◌, refl, sym, ap, ◌∙◌, some, [], ◌∷◌, ◌++◌, append_assoc, All, arith,
}
use sip_video.Prelude.Int.{pos}
use sip_video.Text.{Bytes, bytes, to_upper, cut, itoa}
use sip_video.Text.Decimal.{IsDigit, cut-append, atoi-itoa, itoa-IsDigit}
use sip_video.Protocol.Notify.{
  parsed, trim_cr, line_or, first_line, status_of, parse_status, parse_tokens, parse_notify_body,
}

trim_cr-append : (s : Bytes) → trim_cr (s ++ 13 ∷ []) ≡ s
unfolding trim_cr
trim_cr-append [] = refl
trim_cr-append (c ∷ []) = refl
trim_cr-append (c ∷ d ∷ s) = ap (λ t. c ∷ t) (trim_cr-append (d ∷ s))

All-snoc : (P : ℕ → Type 0) (s : Bytes) (c : ℕ) → All P s → P c → All P (s ++ c ∷ [])
All-snoc P [] c v p = (p, tt)
All-snoc P (d ∷ s) c v p = (v.0, All-snoc P s c v.1 p)

first_line-append :
    (reason rest : Bytes)
    → All (λ c. c ≢ 10) reason
    → first_line (reason ++ 13 ∷ 10 ∷ rest) ≡ reason
unfolding first_line line_or trim_cr
first_line-append reason rest v =
    let cuts : cut 10 ((reason ++ 13 ∷ []) ++ 10 ∷ rest) ≡ some (reason ++ 13 ∷ [], rest) =
      cut-append 10 (reason ++ 13 ∷ []) rest (All-snoc (λ c. c ≢ 10) reason 13 v (omega arith)) in
    ap (λ s. line_or s (cut 10 s)) (sym (append_assoc reason (13 ∷ []) (10 ∷ rest)))
    ∙ ap (line_or (reason ++ 13 ∷ [] ++ 10 ∷ rest)) cuts
    ∙ trim_cr-append reason

All-IsDigit : (s : Bytes) → All IsDigit s → All (λ c. c ≢ 32) s
All-IsDigit [] v = tt
All-IsDigit (c ∷ s) v = (ground (arith, v.0), All-IsDigit s v.1)

-- A body whose first line is a SIP version in either case, a status and a reason, ended by a carriage
-- return and a line feed, is read as that status and that reason, whatever comes after the line. The
-- status is one that an int holds, and the reason has no line feed.
pub parse_notify_body-print :
    (version : Bytes) (code : ℕ) (reason rest : Bytes)
    → All (λ c. c ≢ 32) version
    → to_upper version ≡ bytes "SIP/2.0"
    → code < 2 ^ 63
    → All (λ c. c ≢ 10) reason
    → parse_notify_body (version ++ 32 ∷ (itoa (pos code) ++ 32 ∷ (reason ++ 13 ∷ 10 ∷ rest)))
      ≡ parsed (pos code, reason)
unfolding parse_notify_body parse_tokens parse_status
parse_notify_body-print version code reason rest plain upper small v =
    let line = reason ++ 13 ∷ 10 ∷ rest in
    let digits = itoa (pos code) in
    ap parse_tokens (cut-append 32 version (digits ++ 32 ∷ line) plain)
    ∙ rw upper (
        ap (parse_status (digits ++ 32 ∷ line))
          (cut-append 32 digits line (All-IsDigit digits (itoa-IsDigit code)))
        ∙ ap (λ c. status_of c (first_line line)) (atoi-itoa code small)
        ∙ ap (λ r. parsed (pos code, r)) (first_line-append reason rest v))
