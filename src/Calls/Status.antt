-- ===== src/Calls/Status.antt =====
-- `CallStatus` and the terminations of pkg/sip/participant.go and pkg/stats/termination.go. The
-- disconnect reasons are those of the LiveKit protocol that the source names.
use sip_video.Prelude.{ℕ, Option, none, some}
use sip_video.Text.{Bytes, bytes}
use sip_video.Calls.Monitor.{Termination}

pub data DisconnectReason : Type 0 where
  unknown_reason client_initiated room_closed room_deleted participant_removed : DisconnectReason
  join_failure signal_close state_mismatch server_shutdown connection_timeout : DisconnectReason
  migration sip_trunk_failure media_failure agent_error duplicate_identity : DisconnectReason
  user_unavailable user_rejected other_reason : DisconnectReason

abbrev pub success : Bytes → Termination
success reason = record { result = bytes "success"; reason = reason }

abbrev pub server_error : Bytes → Termination
server_error reason = record { result = bytes "server_error"; reason = reason }

abbrev pub client_error : Bytes → Termination
client_error reason = record { result = bytes "client_error"; reason = reason }

unfoldable pub termination_from_room_disconnect : DisconnectReason → Termination
termination_from_room_disconnect client_initiated = success (bytes "removed")
termination_from_room_disconnect room_closed = success (bytes "removed")
termination_from_room_disconnect room_deleted = success (bytes "removed")
termination_from_room_disconnect participant_removed = success (bytes "removed")
termination_from_room_disconnect join_failure = server_error (bytes "room-failed")
termination_from_room_disconnect signal_close = server_error (bytes "room-failed")
termination_from_room_disconnect state_mismatch = server_error (bytes "room-failed")
termination_from_room_disconnect server_shutdown = server_error (bytes "server-shutdown")
termination_from_room_disconnect connection_timeout = server_error (bytes "connection-timeout")
termination_from_room_disconnect migration = server_error (bytes "migration")
termination_from_room_disconnect sip_trunk_failure = server_error (bytes "sip-trunk-failure")
termination_from_room_disconnect media_failure = server_error (bytes "media-failure")
termination_from_room_disconnect agent_error = server_error (bytes "agent-error")
termination_from_room_disconnect duplicate_identity = client_error (bytes "duplicate-identity")
termination_from_room_disconnect user_unavailable = client_error (bytes "user-unavailable")
termination_from_room_disconnect user_rejected = client_error (bytes "user-rejected")
termination_from_room_disconnect unknown_reason = server_error (bytes "room-disconnected")
termination_from_room_disconnect other_reason = server_error (bytes "room-disconnected")

pub data CallStatus : Type 0 where
  call_dropped call_flood call_dialing call_ringing call_automation call_active : CallStatus
  call_hangup call_cancelled call_unavailable call_rejected call_media_failed : CallStatus
  call_accept_failed call_no_ack call_hangup_media : CallStatus

-- `none` is the empty text of the statuses without an attribute.
unfoldable pub attribute : CallStatus → Option Bytes
attribute call_dialing = some (bytes "dialing")
attribute call_ringing = some (bytes "ringing")
attribute call_automation = some (bytes "automation")
attribute call_active = some (bytes "active")
attribute call_hangup = some (bytes "hangup")
attribute call_hangup_media = some (bytes "hangup")
attribute call_cancelled = some (bytes "hangup")
attribute _ = none

unfoldable pub disconnect_reason : CallStatus → DisconnectReason
disconnect_reason call_hangup = client_initiated
disconnect_reason call_hangup_media = client_initiated
disconnect_reason call_cancelled = client_initiated
disconnect_reason call_unavailable = user_unavailable
disconnect_reason call_rejected = user_rejected
disconnect_reason _ = unknown_reason

unfoldable pub sip_status_of : CallStatus → ℕ × Bytes
sip_status_of call_media_failed = (488, bytes "MediaFailed")
sip_status_of call_cancelled = (487, bytes "Request Terminated")
sip_status_of _ = (486, bytes "Rejected")
