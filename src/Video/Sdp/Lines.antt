-- ===== src/Video/Sdp/Lines.antt =====
-- The video lines of a session in pkg/sip/video_sdp.go, before and after an answer.
use sip_video.Prelude.{
  ℕ, ◌+◌, ◌≡◌, refl, Option, none, some, true, List, [], ◌∷◌, ◌++◌, arith, if◌then◌else◌,
}
use sip_video.Text.{Bytes, bytes, equal_fold}
use sip_video.Video.Sdp.{
  MediaDescription, Session, is_video, without_video, reject_video, first_video, find_video_media,
}
use sip_video.Video.Sdp.Offer.{parse_line, parse_video_session}

-- The lines that are not video, in their order.
abbrev pub other_lines : Session → List MediaDescription
other_lines s = without_video s.media_descriptions

abbrev pub count_video : List MediaDescription → ℕ
count_video [] = 0
count_video (md ∷ mds) = (if is_video md then 1 else 0) + count_video mds

first_video-append_none :
    (md : MediaDescription) (mds : List MediaDescription)
    → is_video md ≡ true
    → first_video mds ≡ none
    → first_video (mds ++ (md ∷ [])) ≡ some md
unfolding first_video
first_video-append_none md [] video e = rw video
first_video-append_none md (x ∷ mds) video e = ground (arith, first_video-append_none md mds video)

-- A declined video line appears in the session, with port 0 and the offered payload types, and is
-- never taken for a usable offer, when the session had no video line before.
pub reject_video-declines :
    {Addr : Type 0} (parse_addr : Bytes → Option Addr) (s : Session) (offered : MediaDescription)
    → find_video_media s ≡ none
    → (md : MediaDescription) × (find_video_media (reject_video s offered) ≡ some md)
      × (md.port ≡ 0)
      × (md.formats ≡ offered.formats)
      × (parse_video_session parse_addr (reject_video s offered) ≡ none)
unfolding reject_video parse_video_session find_video_media equal_fold
reject_video-declines parse_addr s offered e =
    let md : MediaDescription = record {
      media = bytes "video";
      port = 0;
      protos = offered.protos;
      formats = offered.formats;
      attributes = [];
      connection = none;
    } in
    let found = first_video-append_none md s.media_descriptions refl e in
    (md, found, refl, refl, rw (found, parse_line))
