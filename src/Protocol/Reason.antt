-- ===== src/Protocol/Reason.antt =====
-- `ReasonHeader` of pkg/sip/protocol.go: why the other side ended a call.
use sip_video.Prelude.{ℕ, Bool, true, false, ◌&&◌, [], ◌++◌, ◌==◌, if◌then◌else◌}
use sip_video.Prelude.Int.{ℤ, pos, negsuc}
use sip_video.Text.{Bytes, bytes, bytes_eq, itoa}

pub record ReasonHeader : Type 0 where
  pub kind : Bytes
  pub cause : ℤ
  pub text : Bytes

-- The header that is absent.
abbrev pub no_reason : ReasonHeader
no_reason = record { kind = []; cause = pos 0; text = [] }

abbrev pub is_cause : ℕ → ℤ → Bool
is_cause n (pos k) = k == n
is_cause n (negsuc k) = false

unfoldable pub is_zero : ReasonHeader → Bool
is_zero r = bytes_eq r.kind [] && is_cause 0 r.cause && bytes_eq r.text []

unfoldable pub is_normal : ReasonHeader → Bool
unfolding is_zero
is_normal r =
    if is_zero r
    then true
    else if bytes_eq r.kind (bytes "q.850")
    then is_cause 16 r.cause
    else if bytes_eq r.kind (bytes "x.int")
    then is_cause 0 r.cause
    else if bytes_eq r.kind (bytes "release_cause")
    then is_cause 1 r.cause
    else if bytes_eq r.kind (bytes "sip")
    then is_cause 200 r.cause
    else false

unfoldable pub reason_string : ReasonHeader → Bytes
unfolding is_zero
reason_string r =
    if is_zero r
    then bytes "<none>"
    else r.kind ++ bytes "-" ++ itoa r.cause ++ bytes ": " ++ r.text
