-- ===== src/Video/Sdp/Offer.antt =====
-- `parseVideoOffer` and `setVideoAnswerOnLocalSDP` of pkg/sip/video_sdp.go.
use sip_video.Prelude.{ℕ, ◌%◌, ◌^◌, Option, none, some, [], ◌==◌, if◌then◌else◌}
use sip_video.Text.{Bytes, trim_space}
use sip_video.Video.Sdp.{
  Connection, MediaDescription, Session, video_clock_rate, VideoMediaConf, add_video_answer,
  without_video, find_video_media,
}
use sip_video.Video.Sdp.Select.{Selected, select_h264}

-- `netip.ParseAddr`, `Unmarshal` and `Marshal` are parameters.
module _ {Addr : Type 0} (parse_addr : Bytes → Option Addr) where
  abbrev pub connection_of : Connection → Connection → Connection
  connection_of none session = session
  connection_of (some address) session = some address

  abbrev pub address_of : Connection → Option Bytes
  address_of none = none
  address_of (some address) = address

  unfoldable pub video_remote_addr : Session → MediaDescription → Option (Addr × ℕ)
  video_remote_addr s md = elim (address_of (connection_of md.connection s.connection)) [
    | none ↦ none
    | some address ↦ elim (parse_addr (trim_space address)) [
      | none ↦ none
      | some addr ↦ some (addr, md.port % 2 ^ 16)
    ]
  ]

  abbrev pub conf_of : Selected → Option (Addr × ℕ) → Option (VideoMediaConf Addr)
  conf_of sel none = none
  conf_of sel (some remote) = some (record {
    payload_type = sel.pt;
    clock_rate = video_clock_rate;
    profile_level_id = sel.profile_level_id;
    local_profile_level_id = [];
    packetization_mode = sel.packetization_mode;
    h264_fmtp_extra = sel.fmtp_extra;
    remote = some remote;
  })

  abbrev pub parse_line : Session → Option MediaDescription → Option (VideoMediaConf Addr)
  parse_line s none = none
  parse_line s (some md) =
      if md.port == 0
      then none
      else elim (select_h264 md) [ none ↦ none | some sel ↦ conf_of sel (video_remote_addr s md) ]

  unfoldable pub parse_video_session : Session → Option (VideoMediaConf Addr)
  unfolding video_remote_addr
  parse_video_session s = parse_line s (find_video_media s)

  module _ (unmarshal : Bytes → Option Session) where
    unfoldable pub parse_video_offer : Bytes → Option (VideoMediaConf Addr)
    unfolding parse_video_session
    parse_video_offer offer = elim (unmarshal offer) [
      | none ↦ none
      | some s ↦ parse_video_session s
    ]

    -- `none` is the error of either conversion.
    unfoldable pub set_video_answer_on_local_sdp :
        (Session → Option Bytes) → Bytes → ℕ → VideoMediaConf Addr → Option Bytes
    set_video_answer_on_local_sdp marshal local_sdp port v = elim (unmarshal local_sdp) [
      | none ↦ none
      | some s ↦ marshal (
          add_video_answer (record s { media_descriptions = without_video s.media_descriptions })
            port v)
    ]
