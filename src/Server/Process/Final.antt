-- ===== src/Server/Process/Final.antt =====
-- Which INVITEs become calls in pkg/sip/inbound.go.
use sip_video.Prelude.{ℕ, ◌≤◌, ◌⊎◌, [], ◌≡◌, Option, none, some, true, false}
use sip_video.Text.{Bytes}
use sip_video.Client.Invite.{SipOutbound}
use sip_video.Server.Process.{
  AuthResult, auth_password, auth_accept, Incoming, to_call, Result, is_newer, is_reinvite,
}

-- The handler's answer admits the INVITE.
abbrev pub IsAdmitted : Incoming → Option AuthResult → Type 0
IsAdmitted i (some auth_accept) = Unit {0}
IsAdmitted i (some auth_password) = i.credentials_ok ≡ true
IsAdmitted i _ = ⊥

-- The CSeq is not above that of the inbound call with the same tag, if there is one.
abbrev pub IsOld : ℕ → Option (ℕ × Bytes) → Type 0
IsOld cseq none = Unit {0}
IsOld cseq (some (old, sdp)) = cseq ≤ old

-- The CSeq is not above the latest one of the outbound call, or that call has no SDP, or there is none.
abbrev pub IsOldOutbound : ℕ → Option SipOutbound → Type 0
IsOldOutbound cseq none = Unit {0}
IsOldOutbound cseq (some c) = (cseq ≤ c.latest_invite_cseq) ⊎ (c.local_sdp ≡ [])

-- An INVITE that is well-formed, was not refused before, and is no re-INVITE with a higher CSeq.
pub record IsNew (i : Incoming) : Type 0 where
  pub has_source : i.source_ok ≡ true
  pub is_valid : i.valid ≡ true
  pub not_refused : (i.cached ≡ false) ⊎ (i.replay ≡ none)
  pub not_newer : IsOld i.cseq i.existing
  pub not_reinvite : IsOldOutbound i.cseq i.outbound

abbrev GoesTo : Result → Type 0
GoesTo r = r.outcome ≡ to_call

-- By the refusal in the cache.
abbrev IsFresh : Incoming → Option (ℕ × Bytes) → Type 0
IsFresh i replay =
    (replay ≡ none) × (is_newer i.cseq i.existing ≡ false) × (is_reinvite i.cseq i.outbound ≡ false)
