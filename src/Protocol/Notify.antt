-- ===== src/Protocol/Notify.antt =====
-- NOTIFY requests in pkg/sip/protocol.go: the event that one is about, the status line in its body,
-- and what it means for a REFER. Errors of the psrpc library are values of this file.
pub mod Body
pub mod Event
use sip_video.Prelude.{
  ℕ, ◌+◌, ◌-◌, ◌%◌, ◌^◌, min, Option, none, some, Bool, true, false, ◌&&◌, ◌||◌, not, List, [], ◌∷◌,
  ◌++◌, ◌==◌, ltb, leb, if◌then◌else◌,
}
use sip_video.Prelude.Int.{ℤ, pos, negsuc, ltb_ℤ}
use sip_video.Text.{Bytes, bytes, bytes_eq, to_lower, to_upper, cut, has_prefix, parse_digits, atoi}
use sip_video.Protocol.Status.{
  ErrorCode, internal, unavailable, upstream_server_error, upstream_client_error,
}

pub data NotifyError : Type 0 where
  no_event unknown_event not_enough_tokens wrong_version bad_status : NotifyError

-- `some` is a result, and the errors are the other case.
pub data Parsed (A : Type 0) : Type 0 where
  parsed : A → Parsed A
  rejected : NotifyError → Parsed A

-- A trailing carriage return is cut off.
unfoldable pub trim_cr : Bytes → Bytes
trim_cr [] = []
trim_cr (c ∷ []) = if c == 13 then [] else c ∷ []
trim_cr (c ∷ d ∷ s) = c ∷ trim_cr (d ∷ s)

unfoldable pub line_or : Bytes → Option (Bytes × Bytes) → Bytes
unfolding trim_cr
line_or reason none = reason
line_or reason (some (line, rest)) = trim_cr line

unfoldable pub first_line : Bytes → Bytes
unfolding cut
first_line reason = line_or reason (cut 10 reason)

abbrev pub status_of : Option ℤ → Bytes → Parsed (ℤ × Bytes)
status_of none reason = rejected bad_status
status_of (some c) reason = parsed (c, reason)

-- The status is followed by a reason, or by nothing.
unfoldable pub parse_status : Bytes → Option (Bytes × Bytes) → Parsed (ℤ × Bytes)
unfolding atoi first_line
parse_status rest none = status_of (atoi rest) []
parse_status rest (some (code, reason)) = status_of (atoi code) (first_line reason)

unfoldable pub parse_tokens : Option (Bytes × Bytes) → Parsed (ℤ × Bytes)
unfolding cut to_upper
parse_tokens none = rejected not_enough_tokens
parse_tokens (some (version, rest)) =
    if not (bytes_eq (to_upper version) (bytes "SIP/2.0"))
    then rejected wrong_version
    else parse_status rest (cut 32 rest)

unfoldable pub parse_notify_body : Bytes → Parsed (ℤ × Bytes)
unfolding cut
parse_notify_body body = parse_tokens (cut 32 body)

-- `strconv.ParseUint` to 32 bits with its error dropped: too large is the largest, and no number is 0.
abbrev pub parse_uint32 : Option ℕ → ℕ
parse_uint32 none = 0
parse_uint32 (some n) = min n (2 ^ 32 - 1)

abbrev pub drop_prefix : Bytes → Bytes → Option Bytes
drop_prefix [] s = some s
drop_prefix (p ∷ ps) [] = none
drop_prefix (p ∷ ps) (c ∷ s) = if p == c then drop_prefix ps s else none

abbrev pub digits_only : Bytes → Option ℕ → Option Bytes
digits_only digits none = none
digits_only digits (some n) = some digits

-- Nothing, or `;id=` and digits.
unfoldable pub refer_id : Bytes → Option Bytes
unfolding parse_digits
refer_id [] = some []
refer_id (c ∷ s) = elim (drop_prefix (bytes ";id=") (c ∷ s)) [
  | none ↦ none
  | some digits ↦ digits_only digits (parse_digits digits)
]

-- The digits of an event that `referIdRegexp` matches: `refer`, alone or with an id.
unfoldable pub refer_id_regexp : Bytes → Option Bytes
refer_id_regexp event = elim (drop_prefix (bytes "refer") event) [
  | none ↦ none
  | some rest ↦ refer_id rest
]

-- The Event header and its short form, and the body.
pub record NotifyRequest : Type 0 where
  pub event : Option Bytes
  pub short_event : Option Bytes
  pub body : Bytes

pub record Notification : Type 0 where
  pub cseq : ℕ
  pub status : ℤ
  pub reason : Bytes

abbrev pub event_or : Option Bytes → Option Bytes → Option Bytes
event_or none short = short
event_or (some e) short = some e

unfoldable pub with_body : Bytes → Parsed (ℤ × Bytes) → Parsed Notification
unfolding parse_digits
with_body digits (rejected e) = rejected e
with_body digits (parsed (status, reason)) =
    parsed (record { cseq = parse_uint32 (parse_digits digits); status = status; reason = reason })

unfoldable pub notification : Bytes → Option Bytes → Parsed Notification
unfolding parse_notify_body
notification body none = rejected unknown_event
notification body (some digits) = with_body digits (parse_notify_body body)

unfoldable pub on_event : Bytes → Option Bytes → Parsed Notification
unfolding refer_id_regexp to_lower
on_event body none = rejected no_event
on_event body (some e) = notification body (refer_id_regexp (to_lower e))

-- Each notification is one of a REFER.
unfoldable pub handle_notify : NotifyRequest → Parsed Notification
handle_notify req = on_event req.body (event_or req.event req.short_event)

-- The error of a failed transfer.
pub record TransferFailed : Type 0 where
  pub code : ErrorCode
  pub status : ℤ
  pub reason : Bytes

-- The conversion of an int to 32 bits.
abbrev pub from_bits : ℕ → ℤ
from_bits n = if ltb n (2 ^ 31) then pos n else negsuc (2 ^ 32 - 1 - n)

abbrev pub to_int32 : ℤ → ℤ
to_int32 (pos n) = from_bits (n % 2 ^ 32)
to_int32 (negsuc n) = from_bits (2 ^ 32 - 1 - n % 2 ^ 32)

-- An error code that says no more than that the other side failed gives way to one by the status.
abbrev pub upstream_code : ℤ → ErrorCode → ErrorCode
upstream_code status internal =
    if ltb_ℤ status (pos 500) || not (ltb_ℤ status (pos 600))
    then upstream_client_error
    else upstream_server_error
upstream_code status unavailable =
    if ltb_ℤ status (pos 500) || not (ltb_ℤ status (pos 600))
    then upstream_client_error
    else upstream_server_error
upstream_code status code = code

abbrev pub is_status : ℕ → ℤ → Bool
is_status code (pos n) = n == code
is_status code (negsuc n) = false

-- What goes to the one that waits for the REFER: nothing, a success or an error. `get_error_code` is
-- the psrpc library's.
unfoldable pub handle_refer_notify :
    (ℤ → Bytes → ErrorCode) → ℕ → ℤ → Bytes → ℕ → Option (Option TransferFailed)
handle_refer_notify get_error_code cseq status reason refer_cseq =
    if not (cseq == 0) && not (cseq == refer_cseq)
    then none
    else if not (ltb_ℤ status (pos 100)) && ltb_ℤ status (pos 200)
    then none
    else if is_status 200 status
    then some none
    else some (
        some (record {
          code = upstream_code status (get_error_code (to_int32 status) reason);
          status = to_int32 status;
          reason = reason;
        }))
