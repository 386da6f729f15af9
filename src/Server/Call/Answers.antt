-- ===== src/Server/Call/Answers.antt =====
-- The steps of `handleInvite` of pkg/sip/inbound.go up to the room keep a call consistent.
use sip_video.Prelude.{ℕ, Option, none, some, Bool, []}
use sip_video.Text.{Bytes, bytes}
use sip_video.Calls.Monitor.{Termination}
use sip_video.Calls.Status.{
  CallStatus, call_dropped, call_flood, call_media_failed, call_accept_failed, server_error,
  client_error,
}
use sip_video.Server.Inbound.{
  SipInbound, AcceptError, already_rejected, send_failed, no_ack, accept, drop, respond_and_drop,
}
use sip_video.Server.Inbound.Once.{dropping, refusing, accepting, or_same}
use sip_video.Server.Pin.{
  DispatchResult, dispatch_accept, dispatch_request_pin, dispatch_no_rule_reject,
  dispatch_no_rule_drop, dispatch_service_unavailable, Outcome, closed_cancelled, closed_hangup,
  closed_media_timeout, closed_dtmf, closed_dispatch_error, closed_wrong_pin, joins,
}
use sip_video.Server.Pin as Pin
use sip_video.Server.Call.{InboundCall}
use sip_video.Server.Call.Waiting.{
  HandleError, unexpected_result, no_dispatch, dispatch_unavailable, no_media, Progress, waiting,
  continues, panicked, returned, WaitEvent,
}
use sip_video.Server.Call.Handling.{
  MediaError, no_common_media, no_common_crypto, sdp_error, other_media_error, Surroundings, refuse,
  and_then, ring, on_dispatch, run_media, after_accept, accept_call, after_pin,
}
use sip_video.Server.Call.Closing.{IsConsistent, close-IsConsistent, dialog-IsConsistent}
use sip_video.Server.Call.Kept.{
  Keeps, close_with_hangup-IsConsistent, close_with_cancelled-IsConsistent,
  close_with_no_ack-IsConsistent, media_timeout-IsConsistent, wait_media-IsConsistent,
}

pub and_then-Keeps :
    (r : InboundCall × Progress) (k : InboundCall → InboundCall × Progress)
    → Keeps r
    → ((c : InboundCall) → IsConsistent c → Keeps (k c))
    → Keeps (and_then r k)
and_then-Keeps (c, continues) k v f = f c v
and_then-Keeps (c, waiting) k v f = v
and_then-Keeps (c, panicked) k v f = v
and_then-Keeps (c, returned e) k v f = v

pub refuse-Keeps :
    (cache : Bool) (code : ℕ) (reason : Bytes) (status : CallStatus) (t : Termination)
    (e : HandleError) (c : InboundCall)
    → IsConsistent c
    → Keeps (refuse cache code reason status t e c)
refuse-Keeps cache code reason status t e c v =
    close-IsConsistent status t (record c { cc = respond_and_drop cache code reason c.cc })
      (dialog-IsConsistent (refusing cache code reason) c v)

pub ring-Keeps :
    (rung : Option SipInbound) (c : InboundCall)
    → IsConsistent c
    → IsConsistent (record c { cc = or_same c.cc rung })
    → Keeps (ring rung c)
ring-Keeps none c v w = v
ring-Keeps (some d) c v w = w

pub on_dispatch-Keeps :
    (cache : Bool) (r : Option DispatchResult) (c : InboundCall)
    → IsConsistent c
    → Keeps (on_dispatch cache r c)
unfolding on_dispatch
on_dispatch-Keeps cache none c v =
    refuse-Keeps cache 501 [] call_dropped (server_error (bytes "unexpected-result"))
      unexpected_result c v
on_dispatch-Keeps cache (some dispatch_no_rule_drop) c v =
    close-IsConsistent call_flood (client_error (bytes "flood")) (record c { cc = drop c.cc })
      (dialog-IsConsistent dropping c v)
on_dispatch-Keeps cache (some dispatch_no_rule_reject) c v =
    refuse-Keeps cache 404 (bytes "Does not match Trunks or Dispatch Rules") call_dropped
      (client_error (bytes "no-dispatch")) no_dispatch c v
on_dispatch-Keeps cache (some dispatch_service_unavailable) c v =
    refuse-Keeps cache 503 (bytes "Try again later") call_dropped
      (server_error (bytes "dispatch-error")) dispatch_unavailable c v
on_dispatch-Keeps cache (some dispatch_accept) c v = v
on_dispatch-Keeps cache (some dispatch_request_pin) c v = v

pub run_media-Keeps :
    (cache : Bool) (e : Option MediaError) (c : InboundCall)
    → IsConsistent c
    → Keeps (run_media cache e c)
unfolding run_media
run_media-Keeps cache none c v = v
run_media-Keeps cache (some no_common_media) c v =
    refuse-Keeps cache 400 [] call_media_failed (client_error (bytes "no-common-codec")) no_media c
      v
run_media-Keeps cache (some no_common_crypto) c v =
    refuse-Keeps cache 400 [] call_media_failed (client_error (bytes "no-common-crypto")) no_media c
      v
run_media-Keeps cache (some sdp_error) c v =
    refuse-Keeps cache 400 [] call_media_failed (client_error (bytes "sdp-error")) no_media c v
run_media-Keeps cache (some other_media_error) c v =
    refuse-Keeps cache 500 [] call_dropped (server_error (bytes "media-failed")) no_media c v

pub after_accept-Keeps :
    (err : Option AcceptError) (acked : Bool) (event : Option WaitEvent) (c : InboundCall)
    → IsConsistent c
    → Keeps (after_accept err acked event c)
after_accept-Keeps none acked event c v =
    wait_media-IsConsistent event (record c { got_ack = acked })
      (record { once = v.once; linked = v.linked; counted = v.counted })
after_accept-Keeps (some no_ack) acked event c v = close_with_no_ack-IsConsistent c v
after_accept-Keeps (some already_rejected) acked event c v =
    close-IsConsistent call_accept_failed (server_error (bytes "accept-failed")) c v
after_accept-Keeps (some send_failed) acked event c v =
    close-IsConsistent call_accept_failed (server_error (bytes "accept-failed")) c v

pub accept_call-Keeps :
    (s : Surroundings) (c : InboundCall) → IsConsistent c → Keeps (accept_call s c)
unfolding accept_call
accept_call-Keeps s c v =
    after_accept-Keeps (accept s.conf s.try c.cc).1 s.acked s.first_media
      (record c { cc = (accept s.conf s.try c.cc).0 })
      (dialog-IsConsistent (accepting s.conf s.try) c v)

pub after_pin-Keeps : (o : Outcome) (c : InboundCall) → IsConsistent c → Keeps (after_pin o c)
unfolding after_pin
after_pin-Keeps closed_cancelled c v = close_with_cancelled-IsConsistent c v
after_pin-Keeps closed_hangup c v = close_with_hangup-IsConsistent c v
after_pin-Keeps closed_media_timeout c v = media_timeout-IsConsistent c v
after_pin-Keeps closed_dtmf c v = record { once = v.once; linked = v.linked; counted = v.counted }
after_pin-Keeps closed_dispatch_error c v =
    close-IsConsistent call_dropped (server_error (bytes "dispatch-error")) c v
after_pin-Keeps closed_wrong_pin c v =
    close-IsConsistent call_dropped (client_error (bytes "wrong-pin")) c v
after_pin-Keeps (joins disp) c v = v
after_pin-Keeps (Pin.waiting pin) c v = v
