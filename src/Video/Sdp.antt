-- ===== src/Video/Sdp.antt =====
-- pkg/sip/video_sdp.go: the H.264 video line of a session description. A session is the part of
-- pion's `SessionDescription` that this code reads: connection lines and media descriptions.
pub mod Select
pub mod Offer
pub mod Maps
pub mod Selection
pub mod Listed
pub mod Picked
pub mod Answered
pub mod Lines
pub mod Levels
use sip_video.Prelude.{
  ℕ, zero, suc, ◌+◌, ◌-◌, ◌*◌, ◌/◌, ◌%◌, ◌^◌, Option, none, some, Bool, true, false, ◌&&◌, ◌||◌,
  not, List, [], ◌∷◌, ◌++◌, length, get_elem?, set, ltb, leb, ◌==◌, if◌then◌else◌,
}
use sip_video.Prelude.Int.{ℤ, pos, negsuc}
use sip_video.Text.{
  Bytes, bytes, bytes_eq, trim_space, to_lower, equal_fold, cut, split, join, atoi, itoa,
}

pub record Attribute : Type 0 where
  pub key : Bytes
  pub value : Bytes

-- `ConnectionInformation`: the outer option is the pointer, the inner one its address.
abbrev pub Connection : Type 0
Connection = Option (Option Bytes)

pub record MediaDescription : Type 0 where
  pub media : Bytes
  pub port : ℕ
  pub protos : List Bytes
  pub formats : List Bytes
  pub attributes : List Attribute
  pub connection : Connection

pub record Session : Type 0 where
  pub connection : Connection
  pub media_descriptions : List MediaDescription

abbrev pub default_h264_payload_type : ℕ
default_h264_payload_type = 96

abbrev pub default_h264_profile_level_id : Bytes
default_h264_profile_level_id = bytes "42e01f"

abbrev pub default_h264_packetization_mode : ℤ
default_h264_packetization_mode = pos 1

abbrev pub h264_sdp_name : Bytes
h264_sdp_name = bytes "H264"

abbrev pub video_clock_rate : ℕ
video_clock_rate = 90000

-- The macro-blocks of 16 by 16 pixels in a frame; sizes are positive.
abbrev pub macro_blocks : ℕ → ℕ → ℕ
macro_blocks width height = (width + 15) / 16 * ((height + 15) / 16)

unfoldable pub h264_profile_level_id_for_resolution : ℕ → ℕ → Bytes
h264_profile_level_id_for_resolution width height =
    let mbs = macro_blocks width height in
    if leb mbs 3600 then bytes "42e01f" else if leb mbs 8192 then bytes "42e028" else bytes "42e032"

-- The value of the `rtpmap` attribute, and the attributes of an offered or answered H.264 line.
abbrev pub rtpmap_value : Bytes → Bytes
rtpmap_value pt = pt ++ (bytes " " ++ (h264_sdp_name ++ (bytes "/" ++ itoa (pos video_clock_rate))))

abbrev pub h264_line : ℕ → Bytes → Bytes → MediaDescription
h264_line port pt fmtp = record {
  media = bytes "video";
  port = port;
  protos = bytes "RTP" ∷ bytes "AVP" ∷ [];
  formats = pt ∷ [];
  attributes =
      record { key = bytes "rtpmap"; value = rtpmap_value pt }
      ∷ record { key = bytes "fmtp"; value = fmtp }
      ∷ record { key = bytes "rtcp-fb"; value = pt ++ bytes " nack pli" }
      ∷ record { key = bytes "sendrecv"; value = [] }
      ∷ [];
  connection = none;
}

abbrev pub append_media : Session → MediaDescription → Session
append_media s md = record s { media_descriptions = s.media_descriptions ++ (md ∷ []) }

abbrev pub fmtp_prefix : Bytes → Bytes → ℤ → Bytes
fmtp_prefix pt profile mode =
    pt ++ (bytes " profile-level-id=" ++ (profile ++ (bytes ";packetization-mode=" ++ itoa mode)))

unfoldable pub add_video_offer : Session → ℕ → Session
add_video_offer s port =
    let pt = itoa (pos default_h264_payload_type) in
    append_media s (
      h264_line port pt (
        fmtp_prefix pt default_h264_profile_level_id default_h264_packetization_mode
        ++ bytes ";level-asymmetry-allowed=1"))

-- `videoMediaConf`; `remote` is an address and a uint16 port.
pub record VideoMediaConf (Addr : Type 0) : Type 0 where
  pub payload_type : ℕ
  pub clock_rate : ℕ
  pub profile_level_id : Bytes
  pub local_profile_level_id : Bytes
  pub packetization_mode : ℤ
  pub h264_fmtp_extra : Bytes
  pub remote : Option (Addr × ℕ)

abbrev pub or_else : Bytes → Bytes → Bytes
or_else [] other = other
or_else (c ∷ s) other = c ∷ s

abbrev pub mode_or_default : ℤ → ℤ
mode_or_default (pos zero) = default_h264_packetization_mode
mode_or_default (pos (suc n)) = pos (suc n)
mode_or_default (negsuc n) = negsuc n

abbrev pub append_extra : Bytes → Bytes → Bytes
append_extra fmtp [] = fmtp
append_extra fmtp (c ∷ extra) = fmtp ++ (bytes ";" ++ (c ∷ extra))

unfoldable pub answer_line : {Addr : Type 0} → ℕ → VideoMediaConf Addr → MediaDescription
answer_line port v =
    let pt = itoa (pos v.payload_type) in
    let profile =
      or_else (or_else v.local_profile_level_id v.profile_level_id) default_h264_profile_level_id in
    h264_line port pt (
      append_extra (fmtp_prefix pt profile (mode_or_default v.packetization_mode))
        v.h264_fmtp_extra)

unfoldable pub add_video_answer : {Addr : Type 0} → Session → ℕ → VideoMediaConf Addr → Session
unfolding answer_line
add_video_answer s port v = append_media s (answer_line port v)

abbrev pub is_video : MediaDescription → Bool
is_video md = equal_fold md.media (bytes "video")

-- The loop that drops every video line, in place.
unfoldable pub without_video : List MediaDescription → List MediaDescription
without_video [] = []
without_video (md ∷ mds) = let rest = without_video mds in if is_video md then rest else md ∷ rest

unfoldable pub reject_video : Session → MediaDescription → Session
reject_video s offered = append_media s (record {
  media = bytes "video";
  port = 0;
  protos = offered.protos;
  formats = offered.formats;
  attributes = [];
  connection = none;
})

unfoldable pub first_video : List MediaDescription → Option MediaDescription
first_video [] = none
first_video (md ∷ mds) = let rest = first_video mds in if is_video md then some md else rest

unfoldable pub find_video_media : Session → Option MediaDescription
unfolding first_video
find_video_media s = first_video s.media_descriptions
