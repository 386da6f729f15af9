-- ===== src/Client/Participant.antt =====
-- `createSIPParticipant` of pkg/sip/client.go: the checks of a request for a call, and the call that comes
-- of it; and the BYE and NOTIFY of a callee. What only goes through to the room or the media is left out.
pub mod Address
use sip_video.Prelude.{
  ℕ, Option, none, some, Bool, true, false, ◌||◌, List, [], ◌∷◌, ◌==◌, if◌then◌else◌,
}
use sip_video.Text.{Bytes, bytes, has_prefix}
use sip_video.Calls.Status.{success, client_initiated, unknown_reason}
use sip_video.Client.Response.{TxEvent}
use sip_video.Client.Invite.{OutInvite, Account}
use sip_video.Client.Dialog.{accept_bye}
use sip_video.Client.Call.{
  CallState, status_error, OutboundCall, CallInfo, Hangup, NewCall, made, failed, panicked,
  new_call, close,
}
use sip_video.Client.Call.Dialing as Dialing
use sip_video.Client.Call.Dialing.{
  Media, CloseEvent, Dialed, dialing, active, closed, dial, dial_async,
}

pub record CreateRequest : Type 0 where
  pub call_to : Bytes
  pub address : Bytes
  pub number : Bytes
  pub room_name : Bytes
  pub wait_until_answered : Bool

pub data RequestError : Type 0 where
  no_call_to no_address no_number no_room_name full_uri sip_prefix address_transport
        address_parameters :
      RequestError

abbrev pub is_empty : Bytes → Bool
is_empty [] = true
is_empty (c ∷ s) = false

-- `strings.Contains` and `strings.ContainsAny`, the second for the bytes of an ASCII set.
unfoldable pub contains : Bytes → Bytes → Bool
contains [] part = is_empty part
contains (c ∷ s) part = let rest = contains s part in has_prefix (c ∷ s) part || rest

unfoldable pub has_byte : ℕ → Bytes → Bool
has_byte b [] = false
has_byte b (c ∷ s) = let rest = has_byte b s in c == b || rest

unfoldable pub contains_any : Bytes → Bytes → Bool
unfolding has_byte
contains_any [] set = false
contains_any (c ∷ s) set = let rest = contains_any s set in has_byte c set || rest

-- The error of a request, or none.
unfoldable pub check_request : CreateRequest → Option RequestError
unfolding has_prefix contains contains_any
check_request req =
    if is_empty req.call_to
    then some no_call_to
    else if is_empty req.address
    then some no_address
    else if is_empty req.number
    then some no_number
    else if is_empty req.room_name
    then some no_room_name
    else if contains req.call_to (bytes "@")
    then some full_uri
    else if has_prefix req.address (bytes "sip:") || has_prefix req.address (bytes "sips:")
    then some sip_prefix
    else if contains req.address (bytes "transport=")
    then some address_transport
    else if contains_any req.address (bytes ";=")
    then some address_parameters
    else none

-- What the end of the request writes into the call's record: that the participant joined, or the error
-- that is returned.
pub data Written : Type 0 where
  participant_joined participant_error : Written

-- How a request comes out: refused by the health of the service, by its checks or by the media
-- configuration; with a call and what is written of it; or with a panic.
pub data Created : Type 0 where
  unhealthy bad_media panics : Created
  invalid : RequestError → Created
  created : Dialed → Written → Created

-- A call that the request waits for fails when its dialing ends.
abbrev pub awaited : Dialed → Created
awaited (dialing c) = created (dialing c) participant_joined
awaited (active c) = created (active c) participant_joined
awaited (closed c) = created (closed c) participant_error
awaited Dialing.panicked = panics

abbrev pub after_check : {S : Type 0} → Option RequestError → S → S × Created → S × Created
after_check (some e) s rest = (s, invalid e)
after_check none s rest = rest

abbrev pub wait_for_answer : {S : Type 0} → S × Dialed → S × Created
wait_for_answer (s, d) = (s, awaited d)

abbrev pub in_background : {S : Type 0} → S × Dialed → S × Created
in_background (s, d) = (s, created d participant_joined)

module _ {Challenge : Type 0} (parse_challenge : Bytes → Option Challenge)
    (digest : Challenge → Bytes → Account → Option Bytes) {S : Type 0}
    (transact : S → OutInvite → S × Option (List TxEvent)) where
  -- What is left to the background is the dialing of a call that nobody waits for.
  unfoldable pub start_call : CreateRequest → Account → Media → S → NewCall → S × Created
  unfolding dial dial_async
  start_call req account m s panicked = (s, panics)
  start_call req account m s (failed c) = (s, created (closed c) participant_error)
  start_call req account m s (made c) =
      if req.wait_until_answered
      then wait_for_answer (dial parse_challenge digest transact account m s c)
      else in_background (dial_async parse_challenge digest transact account m [] s c)

  unfoldable pub create_sip_participant :
      Bool → Bool → Bool → Bool → CreateRequest → Account → Media → S → S × Created
  unfolding check_request new_call start_call
  create_sip_participant healthy media_config_ok media_ok joined req account m s =
      if healthy
      then if media_config_ok
        then after_check (check_request req) s
            (start_call req account m s (new_call m.hangup media_ok joined))
        else after_check (check_request req) s (s, bad_media)
      else (s, unhealthy)

-- A BYE from the callee: the dialog answers it and is dropped, and then the call is closed. `none` is a
-- panic.
unfoldable pub on_bye : Hangup → OutboundCall → Option OutboundCall
unfolding accept_bye close
on_bye h c =
    close h none (success (bytes "bye")) client_initiated (record c { cc = accept_bye c.cc })
