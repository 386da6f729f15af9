-- ===== src/Server/Call/Handling.antt =====
-- `handleInvite` of pkg/sip/inbound.go: a call from its INVITE to its end. What the handler, the media
-- port, the room and the caller do comes as an argument, and nothing that only configures them is there.
use sip_video.Prelude.{ℕ, Option, none, some, Bool, true, false, List, [], if◌then◌else◌}
use sip_video.Text.{Bytes, bytes}
use sip_video.Calls.Monitor.{Termination}
use sip_video.Calls.Status.{
  CallStatus, call_dropped, call_flood, call_media_failed, call_accept_failed, server_error,
  client_error,
}
use sip_video.Server.Inbound.{
  SipInbound, drop, respond_and_drop, start_ringing, Try, AcceptError, no_ack, already_rejected,
  send_failed, AcceptConf, accept,
}
use sip_video.Server.Pin.{
  DispatchResult, dispatch_accept, dispatch_request_pin, dispatch_no_rule_reject,
  dispatch_no_rule_drop, dispatch_service_unavailable, CallDispatch, Outcome, closed_cancelled,
  closed_hangup, closed_media_timeout, closed_dtmf, closed_dispatch_error, closed_wrong_pin, joins,
}
use sip_video.Server.Pin as Pin
use sip_video.Server.Call.{
  InboundCall, close, close_with_no_ack, close_with_cancelled, close_with_hangup, media_timeout,
}
use sip_video.Server.Call.Waiting.{
  HandleError, bad_media_config, unexpected_result, flood, no_dispatch, dispatch_unavailable,
  no_media, unacknowledged, accept_failed, join_failed, publish_failed, dtmf_failed, wrong_pin,
  Progress, waiting, continues, panicked, returned, WaitEvent, after_media_timeout, wait_media,
  wait_subscribe, EndEvent, wait_for_call_end,
}

-- Why the media of an offer cannot be started.
pub data MediaError : Type 0 where
  no_common_media no_common_crypto sdp_error other_media_error : MediaError

-- What happens around a call. `cache` tells whether the server has a cache of rejections, `acked` whether
-- the ACK has come when `Accept` returns; a dispatch result that is not known is `none`.
pub record Surroundings : Type 0 where
  pub cache : Bool
  pub media_config_ok : Bool
  pub dispatched : Option DispatchResult
  pub media_error : Option MediaError
  pub conf : AcceptConf
  pub try : ℕ → Try
  pub acked : Bool
  pub first_media : Option WaitEvent
  pub pin : Outcome
  pub joined : Bool
  pub published : Bool
  pub subscribed : Option WaitEvent
  pub end_events : List EndEvent

abbrev pub refuse :
    Bool → ℕ → Bytes → CallStatus → Termination → HandleError → InboundCall → InboundCall × Progress
refuse cache code reason status t e c =
    (close status t (record c { cc = respond_and_drop cache code reason c.cc }), returned (some e))

-- What follows a step that goes on.
abbrev pub and_then :
    InboundCall × Progress → (InboundCall → InboundCall × Progress) → InboundCall × Progress
and_then (c, continues) k = k c
and_then (c, waiting) k = (c, waiting)
and_then (c, panicked) k = (c, panicked)
and_then (c, returned e) k = (c, returned e)

abbrev pub ring : Option SipInbound → InboundCall → InboundCall × Progress
ring none c = (c, panicked)
ring (some cc) c = (record c { cc = cc }, continues)

abbrev pub check_config : Surroundings → InboundCall → InboundCall × Progress
check_config s c =
    if s.media_config_ok
    then (c, continues)
    else refuse s.cache 500 [] call_dropped (server_error (bytes "media-config-error"))
        bad_media_config c

unfoldable pub on_dispatch : Bool → Option DispatchResult → InboundCall → InboundCall × Progress
on_dispatch cache none c =
    refuse cache 501 [] call_dropped (server_error (bytes "unexpected-result")) unexpected_result c
on_dispatch cache (some dispatch_no_rule_drop) c = (
  close call_flood (client_error (bytes "flood")) (record c { cc = drop c.cc }),
  returned (some flood),
)
on_dispatch cache (some dispatch_no_rule_reject) c =
    refuse cache 404 (bytes "Does not match Trunks or Dispatch Rules") call_dropped
      (client_error (bytes "no-dispatch")) no_dispatch c
on_dispatch cache (some dispatch_service_unavailable) c =
    refuse cache 503 (bytes "Try again later") call_dropped (server_error (bytes "dispatch-error"))
      dispatch_unavailable c
on_dispatch cache (some dispatch_accept) c = (c, continues)
on_dispatch cache (some dispatch_request_pin) c = (c, continues)

unfoldable pub run_media : Bool → Option MediaError → InboundCall → InboundCall × Progress
run_media cache none c = (c, continues)
run_media cache (some no_common_media) c =
    refuse cache 400 [] call_media_failed (client_error (bytes "no-common-codec")) no_media c
run_media cache (some no_common_crypto) c =
    refuse cache 400 [] call_media_failed (client_error (bytes "no-common-crypto")) no_media c
run_media cache (some sdp_error) c =
    refuse cache 400 [] call_media_failed (client_error (bytes "sdp-error")) no_media c
run_media cache (some other_media_error) c =
    refuse cache 500 [] call_dropped (server_error (bytes "media-failed")) no_media c

abbrev pub after_accept :
    Option AcceptError → Bool → Option WaitEvent → InboundCall → InboundCall × Progress
after_accept none acked event c = wait_media event (record c { got_ack = acked })
after_accept (some no_ack) acked event c = (close_with_no_ack c, returned (some unacknowledged))
after_accept (some already_rejected) acked event c = (
  close call_accept_failed (server_error (bytes "accept-failed")) c,
  returned (some accept_failed),
)
after_accept (some send_failed) acked event c = (
  close call_accept_failed (server_error (bytes "accept-failed")) c,
  returned (some accept_failed),
)

unfoldable pub accept_call : Surroundings → InboundCall → InboundCall × Progress
accept_call s c =
    let (cc, err) = accept s.conf s.try c.cc in
    after_accept err s.acked s.first_media (record c { cc = cc })

-- How `pinPrompt` leaves the call for each of its outcomes. At the end of the digits it only cancels.
unfoldable pub after_pin : Outcome → InboundCall → InboundCall × Progress
after_pin closed_cancelled c = (close_with_cancelled c, returned none)
after_pin closed_hangup c = (close_with_hangup c, returned none)
after_pin closed_media_timeout c = after_media_timeout (media_timeout c)
after_pin closed_dtmf c = (record c { cancelled = true }, returned (some dtmf_failed))
after_pin closed_dispatch_error c = (
  close call_dropped (server_error (bytes "dispatch-error")) c,
  returned (some dispatch_unavailable),
)
after_pin closed_wrong_pin c =
    (close call_dropped (client_error (bytes "wrong-pin")) c, returned (some wrong_pin))
after_pin (joins disp) c = (c, continues)
after_pin (Pin.waiting pin) c = (c, waiting)

-- The call is registered for transfers before the room is connected.
abbrev pub join_room : Bool → InboundCall → InboundCall × Progress
join_room joined c = if joined then (record c { transferable = true }, continues) else (
  close call_dropped (server_error (bytes "participant-failed")) c,
  returned (some join_failed),
)

abbrev pub publish_track : Bool → InboundCall → InboundCall × Progress
publish_track published c = if published then (c, continues) else (
  close call_dropped (server_error (bytes "publish-failed")) c,
  returned (some publish_failed),
)

abbrev pub asks_pin : Option DispatchResult → Bool
asks_pin (some dispatch_request_pin) = true
asks_pin _ = false

-- With a PIN the call is accepted before the prompt, and otherwise after a subscription.
abbrev pub accept_early : Surroundings → InboundCall → InboundCall × Progress
accept_early s c =
    if asks_pin s.dispatched then and_then (accept_call s c) (after_pin s.pin) else (c, continues)

abbrev pub accept_late : Surroundings → InboundCall → InboundCall × Progress
accept_late s c =
    if asks_pin s.dispatched
    then (c, continues)
    else and_then (wait_subscribe s.subscribed c) (accept_call s)

abbrev pub run_room : Surroundings → InboundCall → InboundCall × Progress
run_room s c = and_then (accept_late s c) (wait_for_call_end s.end_events)

abbrev pub run_publish : Surroundings → InboundCall → InboundCall × Progress
run_publish s c = and_then (publish_track s.published c) (run_room s)

abbrev pub run_join : Surroundings → InboundCall → InboundCall × Progress
run_join s c = and_then (join_room s.joined c) (run_publish s)

abbrev pub run_accept : Surroundings → InboundCall → InboundCall × Progress
run_accept s c = and_then (accept_early s c) (run_join s)

abbrev pub run_offer : Surroundings → InboundCall → InboundCall × Progress
run_offer s c = and_then (run_media s.cache s.media_error c) (run_accept s)

abbrev pub run_dispatch : Surroundings → InboundCall → InboundCall × Progress
run_dispatch s c = and_then (on_dispatch s.cache s.dispatched c) (run_offer s)

abbrev pub run_config : Surroundings → InboundCall → InboundCall × Progress
run_config s c = and_then (check_config s c) (run_dispatch s)

-- The body, without the close that is deferred.
unfoldable pub handle_body : Surroundings → InboundCall → InboundCall × Progress
handle_body s c = and_then (ring (start_ringing c.cc) c) (run_config s)

abbrev pub deferred : InboundCall × Progress → InboundCall × Progress
deferred (c, waiting) = (c, waiting)
deferred (c, continues) = (close call_dropped (server_error (bytes "other")) c, continues)
deferred (c, panicked) = (close call_dropped (server_error (bytes "other")) c, panicked)
deferred (c, returned e) = (close call_dropped (server_error (bytes "other")) c, returned e)

unfoldable pub handle_invite : Surroundings → InboundCall → InboundCall × Progress
handle_invite s c = deferred (handle_body s c)
