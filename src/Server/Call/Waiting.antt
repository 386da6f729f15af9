-- ===== src/Server/Call/Waiting.antt =====
-- What `inboundCall` of pkg/sip/inbound.go waits for: the first media, a subscription, and the end of the
-- call. A select takes the event that it is given; none is a wait that goes on.
use sip_video.Prelude.{Option, none, some, Bool, true, List, [], ◌∷◌, if◌then◌else◌}
use sip_video.Text.{bytes}
use sip_video.Calls.Status.{
  DisconnectReason, client_initiated, call_dropped, server_error, termination_from_room_disconnect,
}
use sip_video.Server.Call.{
  InboundCall, close, close_with_hangup, close_with_cancelled, media_timeout,
}

pub data HandleError : Type 0 where
  bad_media_config unexpected_result flood no_dispatch dispatch_unavailable : HandleError
  no_media unacknowledged accept_failed room_closed timed_out not_subscribed : HandleError
  join_failed publish_failed dtmf_failed wrong_pin : HandleError

-- How a handler comes out: it waits, it goes on, it returns with an error or none, or it panics.
pub data Progress : Type 0 where
  waiting continues panicked : Progress
  returned : Option HandleError → Progress

-- What `waitMedia` and `waitSubscribe` select on. The last ones are the first media packet or a
-- subscription, and the end of the time for it.
pub data WaitEvent : Type 0 where
  call_cancelled ctx_done room_done media_timed_out arrived timer : WaitEvent

abbrev pub after_media_timeout : InboundCall × Bool → InboundCall × Progress
after_media_timeout (c, missing) = (c, returned (if missing then some timed_out else none))

unfoldable pub wait_media : Option WaitEvent → InboundCall → InboundCall × Progress
wait_media none c = (c, waiting)
wait_media (some call_cancelled) c = (close_with_cancelled c, returned none)
wait_media (some ctx_done) c = (close_with_hangup c, returned none)
wait_media (some room_done) c = (close_with_hangup c, returned (some room_closed))
wait_media (some media_timed_out) c = after_media_timeout (media_timeout c)
wait_media (some arrived) c = (c, continues)
wait_media (some timer) c = (c, continues)

unfoldable pub wait_subscribe : Option WaitEvent → InboundCall → InboundCall × Progress
wait_subscribe none c = (c, waiting)
wait_subscribe (some call_cancelled) c = (close_with_cancelled c, returned none)
wait_subscribe (some ctx_done) c = (close_with_hangup c, returned none)
wait_subscribe (some room_done) c = (close_with_hangup c, returned (some room_closed))
wait_subscribe (some media_timed_out) c = after_media_timeout (media_timeout c)
wait_subscribe (some timer) c =
    (close call_dropped (server_error (bytes "cannot-subscribe")) c, returned (some not_subscribed))
wait_subscribe (some arrived) c = (c, continues)

-- What `waitForCallEnd` selects on; the ticks of the statistics and of the state report are one.
pub data EndEvent : Type 0 where
  ticked end_ctx_done end_media_timeout ack_received ack_timeout : EndEvent
  end_room_closed : DisconnectReason → EndEvent

abbrev pub room_left : InboundCall → InboundCall
room_left c = record c { info = record c.info { disconnect = some client_initiated } }

-- A missing ACK only shortens the media timeout.
unfoldable pub wait_for_call_end : List EndEvent → InboundCall → InboundCall × Progress
wait_for_call_end [] c = (c, waiting)
wait_for_call_end (ticked ∷ es) c = wait_for_call_end es c
wait_for_call_end (end_ctx_done ∷ es) c = (close_with_hangup c, returned none)
wait_for_call_end (end_room_closed reason ∷ es) c =
    (close call_dropped (termination_from_room_disconnect reason) (room_left c), returned none)
wait_for_call_end (end_media_timeout ∷ es) c = after_media_timeout (media_timeout c)
wait_for_call_end (ack_received ∷ es) c = wait_for_call_end es (record c { got_ack = true })
wait_for_call_end (ack_timeout ∷ es) c = wait_for_call_end es c
