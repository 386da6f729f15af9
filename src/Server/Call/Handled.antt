-- ===== src/Server/Call/Handled.antt =====
-- The whole of `handleInvite` of pkg/sip/inbound.go: how it leaves the call.
use sip_video.Prelude.{◌≡◌, refl, Bool, true, false, [], if◌then◌else◌}
use sip_video.Text.{bytes}
use sip_video.Calls.Status.{call_dropped, server_error}
use sip_video.Server.Inbound.{SipInbound, start_ringing}
use sip_video.Server.Inbound.Once.{IsOnce, rang}
use sip_video.Server.Call.{InboundCall, new_inbound_call, close}
use sip_video.Server.Call.Waiting.{
  bad_media_config, Progress, waiting, continues, panicked, returned, wait_subscribe,
  wait_for_call_end,
}
use sip_video.Server.Call.Handling.{
  Surroundings, refuse, and_then, ring, check_config, on_dispatch, run_media, accept_call,
  after_pin, join_room, publish_track, asks_pin, accept_early, accept_late, run_room, run_publish,
  run_join, run_accept, run_offer, run_dispatch, run_config, handle_body, deferred, handle_invite,
}
use sip_video.Server.Call.Closing.{
  IsLinked, IsConsistent, close-IsConsistent, close-done, dialog-IsConsistent,
}
use sip_video.Server.Call.Kept.{Keeps, wait_subscribe-IsConsistent, wait_for_call_end-IsConsistent}
use sip_video.Server.Call.Answers.{
  and_then-Keeps, refuse-Keeps, ring-Keeps, on_dispatch-Keeps, run_media-Keeps, accept_call-Keeps,
  after_pin-Keeps,
}

join_room-Keeps : (joined : Bool) (c : InboundCall) → IsConsistent c → Keeps (join_room joined c)
join_room-Keeps true c v = record { once = v.once; linked = v.linked; counted = v.counted }
join_room-Keeps false c v =
    close-IsConsistent call_dropped (server_error (bytes "participant-failed")) c v

publish_track-Keeps :
    (published : Bool) (c : InboundCall) → IsConsistent c → Keeps (publish_track published c)
publish_track-Keeps true c v = v
publish_track-Keeps false c v =
    close-IsConsistent call_dropped (server_error (bytes "publish-failed")) c v

check_config-Keeps :
    (s : Surroundings) (c : InboundCall) → IsConsistent c → Keeps (check_config s c)
check_config-Keeps s c v = config_checked s.media_config_ok
  where
    config_checked :
        (ok : Bool)
        → Keeps (
            if ok
            then (c, continues)
            else refuse s.cache 500 [] call_dropped
                (server_error (bytes "media-config-error"))
                bad_media_config
                c)
    config_checked true = v
    config_checked false =
        refuse-Keeps s.cache 500 [] call_dropped (server_error (bytes "media-config-error"))
          bad_media_config c v

-- A test keeps a call consistent when both of its branches do.
if-Keeps :
    (b : Bool) (r r' : InboundCall × Progress) → Keeps r → Keeps r' → Keeps (if b then r else r')
if-Keeps true r r' v w = v
if-Keeps false r r' v w = w

accept_early-Keeps :
    (s : Surroundings) (c : InboundCall) → IsConsistent c → Keeps (accept_early s c)
accept_early-Keeps s c v =
    if-Keeps (asks_pin s.dispatched) (and_then (accept_call s c) (after_pin s.pin)) (c, continues)
      (and_then-Keeps (accept_call s c) (after_pin s.pin) (accept_call-Keeps s c v)
        (after_pin-Keeps s.pin))
      v

accept_late-Keeps : (s : Surroundings) (c : InboundCall) → IsConsistent c → Keeps (accept_late s c)
accept_late-Keeps s c v =
    if-Keeps (asks_pin s.dispatched) (c, continues)
      (and_then (wait_subscribe s.subscribed c) (accept_call s)) v
      (and_then-Keeps (wait_subscribe s.subscribed c) (accept_call s)
        (wait_subscribe-IsConsistent s.subscribed c v) (accept_call-Keeps s))

run_room-Keeps : (s : Surroundings) (c : InboundCall) → IsConsistent c → Keeps (run_room s c)
run_room-Keeps s c v =
    and_then-Keeps (accept_late s c) (wait_for_call_end s.end_events) (accept_late-Keeps s c v)
      (wait_for_call_end-IsConsistent s.end_events)

run_publish-Keeps : (s : Surroundings) (c : InboundCall) → IsConsistent c → Keeps (run_publish s c)
run_publish-Keeps s c v =
    and_then-Keeps (publish_track s.published c) (run_room s) (publish_track-Keeps s.published c v)
      (run_room-Keeps s)

run_join-Keeps : (s : Surroundings) (c : InboundCall) → IsConsistent c → Keeps (run_join s c)
run_join-Keeps s c v =
    and_then-Keeps (join_room s.joined c) (run_publish s) (join_room-Keeps s.joined c v)
      (run_publish-Keeps s)

run_accept-Keeps : (s : Surroundings) (c : InboundCall) → IsConsistent c → Keeps (run_accept s c)
run_accept-Keeps s c v =
    and_then-Keeps (accept_early s c) (run_join s) (accept_early-Keeps s c v) (run_join-Keeps s)

run_offer-Keeps : (s : Surroundings) (c : InboundCall) → IsConsistent c → Keeps (run_offer s c)
run_offer-Keeps s c v =
    and_then-Keeps (run_media s.cache s.media_error c) (run_accept s)
      (run_media-Keeps s.cache s.media_error c v) (run_accept-Keeps s)

run_dispatch-Keeps :
    (s : Surroundings) (c : InboundCall) → IsConsistent c → Keeps (run_dispatch s c)
run_dispatch-Keeps s c v =
    and_then-Keeps (on_dispatch s.cache s.dispatched c) (run_offer s)
      (on_dispatch-Keeps s.cache s.dispatched c v) (run_offer-Keeps s)

run_config-Keeps : (s : Surroundings) (c : InboundCall) → IsConsistent c → Keeps (run_config s c)
run_config-Keeps s c v =
    and_then-Keeps (check_config s c) (run_dispatch s) (check_config-Keeps s c v)
      (run_dispatch-Keeps s)

handle_body-Keeps : (s : Surroundings) (c : InboundCall) → IsConsistent c → Keeps (handle_body s c)
unfolding handle_body
handle_body-Keeps s c v =
    and_then-Keeps (ring (start_ringing c.cc) c) (run_config s)
      (ring-Keeps (start_ringing c.cc) c v (dialog-IsConsistent rang c v)) (run_config-Keeps s)

-- A call whose handler has come back is done; one that still waits may be.
abbrev pub IsDone : InboundCall × Progress → Type 0
IsDone (c, waiting) = Unit {0}
IsDone (c, continues) = c.done ≡ true
IsDone (c, panicked) = c.done ≡ true
IsDone (c, returned e) = c.done ≡ true

over-Keeps :
    (c : InboundCall)
    → IsConsistent c
    → IsConsistent (close call_dropped (server_error (bytes "other")) c)
      × ((close call_dropped (server_error (bytes "other")) c).done ≡ true)
over-Keeps c v = (
  close-IsConsistent call_dropped (server_error (bytes "other")) c v,
  close-done call_dropped (server_error (bytes "other")) c,
)

deferred-Keeps : (r : InboundCall × Progress) → Keeps r → Keeps (deferred r) × IsDone (deferred r)
deferred-Keeps (c, waiting) v = (v, tt)
deferred-Keeps (c, continues) v = over-Keeps c v
deferred-Keeps (c, panicked) v = over-Keeps c v
deferred-Keeps (c, returned e) v = over-Keeps c v

-- However a new call goes, what its handler leaves is consistent, and done once the handler is back,
-- with or without an error or a panic. A done call was reported terminated once, ended its session once,
-- is no longer in the server's table, and its dialog is over, with at most one refusal or BYE sent.
pub handle_invite-IsDone :
    (s : Surroundings) (d : SipInbound)
    → IsOnce d
    → IsLinked d
    → IsConsistent (handle_invite s (new_inbound_call d)).0
      × IsDone (handle_invite s (new_inbound_call d))
unfolding handle_invite
handle_invite-IsDone s d once linked = deferred-Keeps (handle_body s (new_inbound_call d)) (
    handle_body-Keeps s (new_inbound_call d)
      (record { once = once; linked = linked; counted = (refl, refl, refl) }))
