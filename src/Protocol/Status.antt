-- ===== src/Protocol/Status.antt =====
-- Status codes and their names in pkg/sip/protocol.go, and the status that an error stands for. The
-- error codes are those of the psrpc library that the source names.
use sip_video.Prelude.{ℕ, Option, none, some, List, [], ◌∷◌, ◌++◌, ◌==◌, if◌then◌else◌}
use sip_video.Prelude.Int.{pos}
use sip_video.Text.{Bytes, bytes, itoa}

abbrev pub status_names_map : List (ℕ × Bytes)
status_names_map =
    (100, bytes "Trying")
    ∷ (180, bytes "Ringing")
    ∷ (181, bytes "CallIsForwarded")
    ∷ (182, bytes "Queued")
    ∷ (183, bytes "SessionInProgress")
    ∷ (200, bytes "OK")
    ∷ (202, bytes "Accepted")
    ∷ (301, bytes "MovedPermanently")
    ∷ (302, bytes "MovedTemporarily")
    ∷ (305, bytes "UseProxy")
    ∷ (400, bytes "BadRequest")
    ∷ (401, bytes "Unauthorized")
    ∷ (402, bytes "PaymentRequired")
    ∷ (403, bytes "Forbidden")
    ∷ (404, bytes "NotFound")
    ∷ (405, bytes "MethodNotAllowed")
    ∷ (406, bytes "NotAcceptable")
    ∷ (407, bytes "ProxyAuthRequired")
    ∷ (408, bytes "RequestTimeout")
    ∷ (409, bytes "Conflict")
    ∷ (410, bytes "Gone")
    ∷ (413, bytes "RequestEntityTooLarge")
    ∷ (414, bytes "RequestURITooLong")
    ∷ (415, bytes "UnsupportedMediaType")
    ∷ (416, bytes "RequestedRangeNotSatisfiable")
    ∷ (420, bytes "BadExtension")
    ∷ (421, bytes "ExtensionRequired")
    ∷ (423, bytes "IntervalToBrief")
    ∷ (480, bytes "TemporarilyUnavailable")
    ∷ (481, bytes "CallTransactionDoesNotExists")
    ∷ (482, bytes "LoopDetected")
    ∷ (483, bytes "TooManyHops")
    ∷ (484, bytes "AddressIncomplete")
    ∷ (485, bytes "Ambiguous")
    ∷ (486, bytes "BusyHere")
    ∷ (487, bytes "RequestTerminated")
    ∷ (488, bytes "NotAcceptableHere")
    ∷ (500, bytes "InternalServerError")
    ∷ (501, bytes "NotImplemented")
    ∷ (502, bytes "BadGateway")
    ∷ (503, bytes "ServiceUnavailable")
    ∷ (504, bytes "GatewayTimeout")
    ∷ (505, bytes "VersionNotSupported")
    ∷ (513, bytes "MessageTooLarge")
    ∷ (600, bytes "GlobalBusyEverywhere")
    ∷ (603, bytes "GlobalDecline")
    ∷ (604, bytes "GlobalDoesNotExistAnywhere")
    ∷ (606, bytes "GlobalNotAcceptable")
    ∷ []

abbrev pub name_in : List (ℕ × Bytes) → ℕ → Option Bytes
name_in [] code = none
name_in ((c, name) ∷ names) code = if c == code then some name else name_in names code

abbrev pub name_or : Bytes → ℕ → Option Bytes → Bytes
name_or prefix code none = prefix ++ itoa (pos code)
name_or prefix code (some name) = name

unfoldable pub sip_status : ℕ → Bytes
sip_status code = name_or (bytes "Status") code (name_in status_names_map code)

abbrev pub dash_name : ℕ → Option Bytes → Option Bytes
dash_name status none = none
dash_name status (some name) = some (itoa (pos status) ++ bytes "-" ++ name)

unfoldable pub status_name : ℕ → Bytes
status_name status =
    name_or (bytes "status-") status (dash_name status (name_in status_names_map status))

pub data ErrorCode : Type 0 where
  ok canceled deadline_exceeded unknown malformed_response internal data_loss : ErrorCode
  invalid_argument malformed_request not_found not_acceptable already_exists aborted : ErrorCode
  permission_denied resource_exhausted failed_precondition out_of_range unimplemented : ErrorCode
  unavailable unauthenticated upstream_server_error upstream_client_error : ErrorCode
  other_code : Bytes → ErrorCode

unfoldable pub sip_status_for_error_code : ErrorCode → ℕ
sip_status_for_error_code ok = 200
sip_status_for_error_code canceled = 408
sip_status_for_error_code deadline_exceeded = 408
sip_status_for_error_code unknown = 500
sip_status_for_error_code malformed_response = 500
sip_status_for_error_code internal = 500
sip_status_for_error_code data_loss = 500
sip_status_for_error_code invalid_argument = 400
sip_status_for_error_code malformed_request = 400
sip_status_for_error_code not_found = 404
sip_status_for_error_code not_acceptable = 406
sip_status_for_error_code already_exists = 409
sip_status_for_error_code aborted = 409
sip_status_for_error_code permission_denied = 403
sip_status_for_error_code resource_exhausted = 480
sip_status_for_error_code failed_precondition = 481
sip_status_for_error_code out_of_range = 416
sip_status_for_error_code unimplemented = 501
sip_status_for_error_code unavailable = 503
sip_status_for_error_code unauthenticated = 401
sip_status_for_error_code upstream_server_error = 502
sip_status_for_error_code upstream_client_error = 480
sip_status_for_error_code (other_code code) = 500

-- An error by the psrpc error in its chain, if there is one, and its text.
pub record GoError : Type 0 where
  pub psrpc_code : Option ErrorCode
  pub text : Bytes

abbrev pub code_of : Option ErrorCode → ℕ
code_of none = 500
code_of (some code) = sip_status_for_error_code code

unfoldable pub sip_code_and_message_from_error : Option GoError → ℕ × Bytes
sip_code_and_message_from_error none = (200, bytes "success")
sip_code_and_message_from_error (some err) = (code_of err.psrpc_code, err.text)
