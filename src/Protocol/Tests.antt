-- ===== src/Protocol/Tests.antt =====
-- Runs of the protocol helpers on small texts.
use sip_video.Prelude.{◌≡◌, refl, ◌↔◌, ◌≢◌, All, none, some, [], ◌∷◌, ◌++◌, arith}
use sip_video.Prelude.Int.{ℤ, pos}
use sip_video.Text.{
  Bytes, bytes, cut, to_upper, to_lower, itoa, digits_of, atoi, parse_digits, digits_value,
}
use sip_video.Client.Response.{Response, responded}
use sip_video.Protocol.Status.{ErrorCode, unknown}
use sip_video.Protocol.Notify.{
  parsed, NotifyRequest, parse_notify_body, parse_tokens, parse_status, first_line, event_or,
  line_or, handle_notify,
}
use sip_video.Protocol.Notify.Body.{parse_notify_body-print}
use sip_video.Protocol.Notify.Event.{handle_notify-id}
use sip_video.Protocol.Refer.{notify, call_done, complete_refer}
use sip_video.Protocol.Refer.Confirmed.{Accepted, Confirmed, complete_refer-Confirmed}

abbrev trying : NotifyRequest
trying = record {
  event = some (bytes "Refer;id=7");
  short_event = none;
  body = bytes "SIP/2.0 100 Trying";
}

abbrev accepted : Response
accepted = record {
  status_code = 202;
  reason = bytes "Accepted";
  body = [];
  to = none;
  www_authenticate = none;
  proxy_authenticate = none;
  twilio_error = none;
}

abbrev all_unknown : ℤ → Bytes → ErrorCode
all_unknown status reason = unknown

sip_plain : All (λ c. c ≢ 32) (bytes "sip/2.0")
sip_plain = ground arith

sip_upper : to_upper (bytes "sip/2.0") ≡ bytes "SIP/2.0"
unfolding to_upper
sip_upper = refl

busy_plain : All (λ c. c ≢ 10) (bytes "Busy Here")
busy_plain = ground arith

trying_event : event_or trying.event trying.short_event ≡ some (bytes "Refer;id=" ++ itoa (pos 7))
unfolding itoa digits_of
trying_event = refl

trying_folded : to_lower (bytes "Refer;id=") ≡ bytes "refer;id="
unfolding to_lower
trying_folded = refl

parse_notify_body-print_example :
    parse_notify_body
      (bytes "sip/2.0" ++ 32 ∷ (itoa (pos 486) ++ 32 ∷ (bytes "Busy Here" ++ 13 ∷ 10 ∷ [])))
    ≡ parsed (pos 486, bytes "Busy Here")
parse_notify_body-print_example =
    parse_notify_body-print (bytes "sip/2.0") 486 (bytes "Busy Here") [] sip_plain sip_upper
      (omega arith) busy_plain

trying_body : parse_notify_body trying.body ≡ parsed (pos 100, bytes "Trying")
unfolding parse_notify_body parse_tokens parse_status first_line line_or cut to_upper atoi
    parse_digits digits_value
trying_body = refl

handle_notify_test :
    handle_notify trying ≡ parsed (record { cseq = 7; status = pos 100; reason = bytes "Trying" })
handle_notify_test =
    handle_notify-id trying (bytes "Refer;id=") 7 (pos 100) (bytes "Trying") trying_event
      trying_folded (omega arith) trying_body

complete_refer-Confirmed_example :
    (complete_refer all_unknown 7 (some (responded accepted ∷ [])) (notify trying ∷ call_done ∷ [])
      ≡ some none)
    ↔ (Accepted (some (responded accepted ∷ [])) × Confirmed 7 (notify trying ∷ call_done ∷ []))
complete_refer-Confirmed_example =
    complete_refer-Confirmed all_unknown 7 (some (responded accepted ∷ []))
      (notify trying ∷ call_done ∷ [])
