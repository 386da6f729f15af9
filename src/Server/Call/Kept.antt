-- ===== src/Server/Call/Kept.antt =====
-- The waits of pkg/sip/inbound.go keep a call consistent, however they end.
use sip_video.Prelude.{Option, none, some, Bool, true, false, List, [], ◌∷◌}
use sip_video.Text.{bytes}
use sip_video.Protocol.Reason.{ReasonHeader}
use sip_video.Calls.Monitor.{Termination}
use sip_video.Calls.Status.{
  CallStatus, call_dropped, call_hangup, call_cancelled, call_no_ack, call_hangup_media, success,
  server_error, termination_from_room_disconnect,
}
use sip_video.Server.Call.{
  InboundCall, close_with_timeout, close_with_no_ack, close_with_reason, close_with_cancelled,
  close_with_hangup, media_timeout, timeout_for, with_reason, reason_info, reason_or, set_error,
  media_timeout_error,
}
use sip_video.Server.Call.Waiting.{
  Progress, WaitEvent, call_cancelled, ctx_done, room_done, media_timed_out, arrived, timer,
  after_media_timeout, wait_media, wait_subscribe, EndEvent, ticked, end_ctx_done,
  end_media_timeout, ack_received, ack_timeout, end_room_closed, room_left, wait_for_call_end,
}
use sip_video.Server.Call.Closing.{IsConsistent, close-IsConsistent, info-IsConsistent}

-- The call after a step.
abbrev pub Keeps : InboundCall × Progress → Type 0
Keeps r = IsConsistent r.0

close_with_reason-IsConsistent :
    (status : CallStatus) (t : Termination) (r : ReasonHeader) (c : InboundCall)
    → IsConsistent c
    → IsConsistent (close_with_reason status t r c)
unfolding close_with_reason
close_with_reason-IsConsistent status t r c v =
    close-IsConsistent status (with_reason r t) (record c { info = reason_info r c.info })
      (info-IsConsistent c (reason_info r c.info) v)

pub close_with_hangup-IsConsistent :
    (c : InboundCall) → IsConsistent c → IsConsistent (close_with_hangup c)
unfolding close_with_hangup
close_with_hangup-IsConsistent c v =
    close_with_reason-IsConsistent call_hangup (success (bytes "hangup")) (reason_or c.close_reason)
      c v

pub close_with_cancelled-IsConsistent :
    (c : InboundCall) → IsConsistent c → IsConsistent (close_with_cancelled c)
unfolding close_with_cancelled
close_with_cancelled-IsConsistent c v =
    close_with_reason-IsConsistent call_cancelled (success (bytes "cancelled"))
      (reason_or c.close_reason) c v

pub close_with_no_ack-IsConsistent :
    (c : InboundCall) → IsConsistent c → IsConsistent (close_with_no_ack c)
unfolding close_with_no_ack
close_with_no_ack-IsConsistent c v =
    close-IsConsistent call_no_ack (server_error (bytes "no-ack")) c v

timeout_for-IsConsistent :
    (acked : Bool) (c : InboundCall)
    → IsConsistent c
    → Keeps (after_media_timeout (timeout_for acked c))
unfolding timeout_for close_with_timeout
timeout_for-IsConsistent false c v = close_with_no_ack-IsConsistent c v
timeout_for-IsConsistent true c v =
    close-IsConsistent call_hangup_media (server_error (bytes "media-timeout"))
      (record c { info = set_error media_timeout_error c.info })
      (info-IsConsistent c (set_error media_timeout_error c.info) v)

pub media_timeout-IsConsistent :
    (c : InboundCall) → IsConsistent c → Keeps (after_media_timeout (media_timeout c))
unfolding media_timeout
media_timeout-IsConsistent c v = timeout_for-IsConsistent c.got_ack c v

pub wait_media-IsConsistent :
    (event : Option WaitEvent) (c : InboundCall) → IsConsistent c → Keeps (wait_media event c)
unfolding wait_media
wait_media-IsConsistent none c v = v
wait_media-IsConsistent (some call_cancelled) c v = close_with_cancelled-IsConsistent c v
wait_media-IsConsistent (some ctx_done) c v = close_with_hangup-IsConsistent c v
wait_media-IsConsistent (some room_done) c v = close_with_hangup-IsConsistent c v
wait_media-IsConsistent (some media_timed_out) c v = media_timeout-IsConsistent c v
wait_media-IsConsistent (some arrived) c v = v
wait_media-IsConsistent (some timer) c v = v

pub wait_subscribe-IsConsistent :
    (event : Option WaitEvent) (c : InboundCall) → IsConsistent c → Keeps (wait_subscribe event c)
unfolding wait_subscribe
wait_subscribe-IsConsistent none c v = v
wait_subscribe-IsConsistent (some call_cancelled) c v = close_with_cancelled-IsConsistent c v
wait_subscribe-IsConsistent (some ctx_done) c v = close_with_hangup-IsConsistent c v
wait_subscribe-IsConsistent (some room_done) c v = close_with_hangup-IsConsistent c v
wait_subscribe-IsConsistent (some media_timed_out) c v = media_timeout-IsConsistent c v
wait_subscribe-IsConsistent (some timer) c v =
    close-IsConsistent call_dropped (server_error (bytes "cannot-subscribe")) c v
wait_subscribe-IsConsistent (some arrived) c v = v

pub wait_for_call_end-IsConsistent :
    (es : List EndEvent) (c : InboundCall) → IsConsistent c → Keeps (wait_for_call_end es c)
unfolding wait_for_call_end
wait_for_call_end-IsConsistent [] c v = v
wait_for_call_end-IsConsistent (ticked ∷ es) c v = wait_for_call_end-IsConsistent es c v
wait_for_call_end-IsConsistent (end_ctx_done ∷ es) c v = close_with_hangup-IsConsistent c v
wait_for_call_end-IsConsistent (end_room_closed reason ∷ es) c v =
    close-IsConsistent call_dropped (termination_from_room_disconnect reason) (room_left c)
      (info-IsConsistent c (room_left c).info v)
wait_for_call_end-IsConsistent (end_media_timeout ∷ es) c v = media_timeout-IsConsistent c v
wait_for_call_end-IsConsistent (ack_received ∷ es) c v =
    wait_for_call_end-IsConsistent es (record c { got_ack = true })
      (record { once = v.once; linked = v.linked; counted = v.counted })
wait_for_call_end-IsConsistent (ack_timeout ∷ es) c v = wait_for_call_end-IsConsistent es c v
