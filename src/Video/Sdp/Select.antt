-- ===== src/Video/Sdp/Select.antt =====
-- `selectH264` of pkg/sip/video_sdp.go: the payload type of an offered video line.
use sip_video.Prelude.{
  ℕ, ◌-◌, ◌%◌, Option, none, some, Bool, true, false, ◌&&◌, ◌||◌, not, List, [], ◌∷◌, ◌++◌, length,
  get_elem?, set, ◌==◌, if◌then◌else◌,
}
use sip_video.Prelude.Int.{ℤ, pos, negsuc}
use sip_video.Text.{
  Bytes, bytes, bytes_eq, trim_space, to_lower, equal_fold, cut, split, join, atoi, itoa,
}
use sip_video.Video.Sdp.{
  Attribute, MediaDescription, default_h264_packetization_mode, h264_sdp_name,
}

-- The candidates of `selectH264`.
pub record Candidate : Type 0 where
  pub pt : ℤ
  pub profile_level_id : Bytes
  pub packetization_mode : ℤ
  pub packet_mode_explicit : Bool
  pub extra : Bytes

pub record Candidates : Type 0 where
  pub index : List (Bytes × ℕ)
  pub found : List Candidate

-- `ptIndex[k] = i` and `ptIndex[k]`
unfoldable pub insert_index : Bytes → ℕ → List (Bytes × ℕ) → List (Bytes × ℕ)
insert_index k i [] = (k, i) ∷ []
insert_index k i ((j, n) ∷ m) =
    let rest = insert_index k i m in if bytes_eq j k then (k, i) ∷ m else (j, n) ∷ rest

unfoldable pub lookup_index : Bytes → List (Bytes × ℕ) → Option ℕ
lookup_index k [] = none
lookup_index k ((j, n) ∷ m) = let rest = lookup_index k m in if bytes_eq j k then some n else rest

abbrev pub before_slash : Bytes → Bytes
before_slash name = elim (cut b'/' name) [ none ↦ name | some (before, after) ↦ before ]

-- The payload type of an `rtpmap` value, when the value names H.264.
unfoldable pub rtpmap_pt : Bytes → Option ℤ
rtpmap_pt value = elim (cut b' ' value) [
  | none ↦ none
  | some (before, after) ↦
      if equal_fold (before_slash after) h264_sdp_name then atoi (trim_space before) else none
]

abbrev pub new_candidate : ℤ → Candidate
new_candidate pt = record {
  pt = pt;
  profile_level_id = [];
  packetization_mode = default_h264_packetization_mode;
  packet_mode_explicit = false;
  extra = [];
}

abbrev pub add_candidate : Option ℤ → Candidates → Candidates
add_candidate none cs = cs
add_candidate (some v) cs = record {
  index = insert_index (itoa v) (length cs.found) cs.index;
  found = cs.found ++ (new_candidate v ∷ []);
}

-- First pass: every H.264 payload type, in the order of the offer.
unfoldable pub collect : List Attribute → Candidates → Candidates
unfolding rtpmap_pt
collect [] cs = cs
collect (a ∷ attributes) cs =
    collect attributes
      (if bytes_eq a.key (bytes "rtpmap") then add_candidate (rtpmap_pt a.value) cs else cs)

-- `h264CapacityParams`
unfoldable pub is_capacity : Bytes → Bool
is_capacity k =
    bytes_eq k (bytes "max-br")
    || bytes_eq k (bytes "max-mbps")
    || bytes_eq k (bytes "max-fs")
    || bytes_eq k (bytes "max-dpb")
    || bytes_eq k (bytes "max-smbps")
    || bytes_eq k (bytes "max-cpb")
    || bytes_eq k (bytes "max-fps")

abbrev pub with_mode : Option ℤ → Candidate → Candidate
with_mode none c = c
with_mode (some m) c = record c { packetization_mode = m; packet_mode_explicit = true }

-- One `key=value` of an `fmtp`, with the capacity parameters gathered so far.
unfoldable pub apply_param : Bytes → Candidate × List Bytes → Candidate × List Bytes
unfolding is_capacity
apply_param kv (c, parts) = elim (cut b'=' (trim_space kv)) [
  | none ↦ (c, parts)
  | some (before, after) ↦
      let k = to_lower (trim_space before) in
      let v = trim_space after in
      if bytes_eq k (bytes "profile-level-id")
      then (record c { profile_level_id = v }, parts)
      else if bytes_eq k (bytes "packetization-mode")
      then (with_mode (atoi v) c, parts)
      else if is_capacity k
      then (c, parts ++ ((k ++ (bytes "=" ++ v)) ∷ []))
      else (c, parts)
]

unfoldable pub apply_params : List Bytes → Candidate × List Bytes → Candidate × List Bytes
unfolding apply_param
apply_params [] r = r
apply_params (kv ∷ kvs) r = apply_params kvs (apply_param kv r)

abbrev pub apply_fmtp : Bytes → Candidate → Candidate
apply_fmtp params c =
    let (c', parts) = apply_params (split b';' params) (c, []) in
    record c' { extra = join b';' parts }

abbrev pub update_candidate : Option ℕ → Bytes → List Candidate → List Candidate
update_candidate none params cs = cs
update_candidate (some i) params cs = elim (get_elem? cs i) [
  | none ↦ cs
  | some c ↦ set cs i (apply_fmtp params c)
]

abbrev pub apply_fmtp_value : Bytes → Candidates → Candidates
apply_fmtp_value value cs = elim (cut b' ' value) [
  | none ↦ cs
  | some (before, after) ↦ record cs {
    found = update_candidate (lookup_index (trim_space before) cs.index) after cs.found;
  }
]

-- Second pass: the `fmtp` of each candidate.
unfoldable pub parse_fmtps : List Attribute → Candidates → Candidates
unfolding apply_params
parse_fmtps [] cs = cs
parse_fmtps (a ∷ attributes) cs =
    parse_fmtps attributes
      (if bytes_eq a.key (bytes "fmtp") then apply_fmtp_value a.value cs else cs)

abbrev pub mode_is_one : ℤ → Bool
mode_is_one (pos n) = n == 1
mode_is_one (negsuc n) = false

abbrev pub is_explicit1 : Candidate → Bool
is_explicit1 c = c.packet_mode_explicit && mode_is_one c.packetization_mode

unfoldable pub best : Candidate → List Candidate → Candidate
best selected [] = selected
best selected (c ∷ cs) =
    best (if is_explicit1 c && not (is_explicit1 selected) then c else selected) cs

-- The conversion of an int to a byte.
abbrev pub byte_of : ℤ → ℕ
byte_of (pos n) = n % 256
byte_of (negsuc n) = 255 - n % 256

pub record Selected : Type 0 where
  pub pt : ℕ
  pub profile_level_id : Bytes
  pub packetization_mode : ℤ
  pub fmtp_extra : Bytes

abbrev pub select_best : List Candidate → Option Selected
select_best [] = none
select_best (c ∷ cs) =
    let b = best c cs in
    some (record {
      pt = byte_of b.pt;
      profile_level_id = b.profile_level_id;
      packetization_mode = b.packetization_mode;
      fmtp_extra = b.extra;
    })

-- With no candidate the source returns before the second pass, which then has nothing to change.
unfoldable pub select_h264 : MediaDescription → Option Selected
unfolding collect parse_fmtps best
select_h264 md =
    let cs = collect md.attributes (record { index = []; found = [] }) in
    select_best (parse_fmtps md.attributes cs).found
