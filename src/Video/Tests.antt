-- ===== src/Video/Tests.antt =====
-- The video theorems at concrete inputs.
use sip_video.Prelude.{
  ◌++◌, ℕ, zero, suc, ◌+◌, ◌*◌, ◌/◌, ◌^◌, ◌≡◌, refl, ◌↔◌, Option, none, some, true, false, List, [],
  ◌∷◌, length, All, arith,
}
use sip_video.Prelude.Int.{pos}
use sip_video.Text.{Bytes, bytes, equal_fold, itoa}
use sip_video.Video.Sdp.{
  Attribute, MediaDescription, Session, VideoMediaConf, answer_line, find_video_media,
}
use sip_video.Video.Sdp.Select.{select_h264}
use sip_video.Video.Sdp.Levels.{profile_level_id}
use sip_video.Video.Sdp.Maps.{Offers}
use sip_video.Video.Sdp.Answered.{select_h264-answer_line}
use sip_video.Video.Sdp.Listed.{Entry, rtpmaps, fmtps}
use sip_video.Video.Sdp.Picked.{picked, wanted, select_h264-picked}
use sip_video.Video.Sdp.Selection.{select_h264-none_iff}
use sip_video.Video.Keyframe.{find_code, is_h264_keyframe}
use sip_video.Video.Keyframe.Units.{Nalu, annex_b, IsEscaped, is_h264_keyframe-annex_b}
use sip_video.Video.Writer.{
  Sample, RtpHeader, Writer, WriteResult, written, failed, write_packets, write_video_sample,
}
use sip_video.Video.Writer.Packets.{
  packets, send, sample_ts, Wrote, write_packets-Wrote, write_video_sample-access_unit,
}

abbrev attribute : Bytes → Bytes → Attribute
attribute key value = record { key = key; value = value }

-- An offer of H.264 in both modes, mode 0 first.
abbrev offer : MediaDescription
offer = record {
  media = bytes "video";
  port = 5004;
  protos = bytes "RTP" ∷ bytes "AVP" ∷ [];
  formats = bytes "96" ∷ bytes "97" ∷ [];
  attributes =
      attribute (bytes "rtpmap") (bytes "96 H264/90000")
      ∷ attribute (bytes "rtpmap") (bytes "97 H264/90000")
      ∷ attribute (bytes "fmtp") (bytes "96 packetization-mode=0")
      ∷ attribute (bytes "fmtp") (bytes "97 packetization-mode=1")
      ∷ [];
  connection = none;
}

abbrev entry : ℕ → ℕ → Entry
entry pt mode = record { pt = pt; mode = some mode }

offer-attributes :
    offer.attributes
    ≡ rtpmaps (entry 96 0 ∷ entry 97 1 ∷ []) ++ fmtps (entry 96 0 ∷ entry 97 1 ∷ [])
unfolding itoa
offer-attributes = refl

select_h264-picked_example :
    select_h264 offer ≡ some (picked (wanted (entry 96 0) (entry 97 1 ∷ [])))
select_h264-picked_example =
    select_h264-picked (entry 96 0) (entry 97 1 ∷ []) offer
      ((omega arith, omega arith), ((omega arith, omega arith), tt)) ((omega arith, tt), (tt, tt))
      offer-attributes

select_h264-none_iff_example : (select_h264 offer ≡ none) ↔ (¬ Offers offer.attributes)
select_h264-none_iff_example = select_h264-none_iff offer

abbrev audio_line : MediaDescription
audio_line = record offer { media = bytes "audio"; attributes = [] }

abbrev audio_session : Session
audio_session = record { connection = none; media_descriptions = audio_line ∷ [] }

abbrev video_session : Session
video_session = record { connection = none; media_descriptions = audio_line ∷ offer ∷ offer ∷ [] }

abbrev no_addr : Bytes → Option Bytes
no_addr s = none

abbrev to_video_session : Bytes → Option Session
to_video_session s = some video_session

abbrev to_nothing : Session → Option Bytes
to_nothing s = some (bytes "v=0")

abbrev conf : VideoMediaConf Bytes
conf = record {
  payload_type = 96;
  clock_rate = 90000;
  profile_level_id = bytes "42e01f";
  local_profile_level_id = [];
  packetization_mode = pos 0;
  h264_fmtp_extra = [];
  remote = none;
}

-- The mode 0 of the configuration is not read back.
select_h264-answer_line_example :
    select_h264 (answer_line 5006 conf)
    ≡ some (record {
      pt = 96;
      profile_level_id = bytes "42e01f";
      packetization_mode = pos 1;
      fmtp_extra = [];
    })
select_h264-answer_line_example =
    select_h264-answer_line 5006 0 conf refl (omega arith) (omega arith) (ground arith)
      (ground arith) refl

no_video_line : find_video_media audio_session ≡ none
unfolding find_video_media equal_fold
no_video_line = refl

-- An SPS, a PPS and an IDR picture.
abbrev units : List Nalu
units =
    record { long_code = true; header = 103; body = 66 ∷ 0 ∷ [] }
    ∷ record { long_code = false; header = 104; body = 206 ∷ [] }
    ∷ record { long_code = true; header = 101; body = 136 ∷ 0 ∷ [] }
    ∷ []

units-IsEscaped : All IsEscaped units
unfolding find_code
units-IsEscaped = (refl, (refl, (refl, tt)))

is_h264_keyframe-annex_b_example : is_h264_keyframe (annex_b units) ≡ true
is_h264_keyframe-annex_b_example = is_h264_keyframe-annex_b units units-IsEscaped

-- A stream that keeps what it is sent, and a payloader that makes two halves.
abbrev log_rtp : List ℕ → RtpHeader → Bytes → List ℕ × WriteResult ℕ
log_rtp w header pl = (header.sequence_number ∷ w, written (length pl))

abbrev payload_size : List ℕ → RtpHeader → Bytes → ℕ
payload_size w header pl = length pl

log_rtp_writes :
    (w : List ℕ) (header : RtpHeader) (pl : Bytes)
    → (log_rtp w header pl).1 ≡ written (payload_size w header pl)
log_rtp_writes w header pl = refl

abbrev two_parts : ℕ → ℕ → Bytes → ℕ × List Bytes
two_parts n mtu s = (n + 1, s ∷ s ∷ [])

abbrev ticks : ℕ → ℕ → ℕ
ticks d rate = d * rate / 10 ^ 9

-- Its next sequence number wraps.
abbrev writer : Writer (List ℕ) ℕ
writer = record {
  w = [];
  payloader = 0;
  pt = 96;
  ssrc = 7;
  clock_rate = 90000;
  frame_dur = 3000;
  stats = none;
  seq = 65535;
  ts = 4294967000;
  started = true;
}

-- A stream that fails on its second packet.
abbrev fail_second : ℕ → RtpHeader → Bytes → ℕ × WriteResult ℕ
fail_second zero header pl = (1, written 5)
fail_second (suc n) header pl = (suc n, failed 9)

abbrev failing : Writer ℕ ℕ
failing = record {
  w = 0;
  payloader = 0;
  pt = 96;
  ssrc = 7;
  clock_rate = 90000;
  frame_dur = 3000;
  stats = none;
  seq = 65535;
  ts = 0;
  started = true;
}

write_packets-Wrote_example :
    Wrote fail_second two_parts ticks failing
      (record { stream = 1; taken = 1; refused = some 9 })
      (write_packets fail_second two_parts ticks failing ((1 ∷ []) ∷ (2 ∷ []) ∷ []))
write_packets-Wrote_example =
    write_packets-Wrote fail_second two_parts ticks ((1 ∷ []) ∷ (2 ∷ []) ∷ []) failing (omega arith)

abbrev sample : Sample
sample = record { payload = 1 ∷ 2 ∷ []; duration = pos (10 ^ 9); key_frame = false }

write_video_sample-access_unit_example :
    let ts = sample_ts log_rtp two_parts ticks payload_size log_rtp_writes writer sample.duration in
    let (h', err) = write_video_sample log_rtp two_parts ticks writer sample in
    (h'.w
      ≡ send log_rtp two_parts ticks []
          (packets 96 7 65535 ts 0 (sample.payload ∷ sample.payload ∷ [])))
    × (h'.seq ≡ 1)
    × (h'.ts ≡ ts)
    × (err ≡ none)
write_video_sample-access_unit_example =
    write_video_sample-access_unit log_rtp two_parts ticks payload_size log_rtp_writes writer sample
      (omega arith) refl
