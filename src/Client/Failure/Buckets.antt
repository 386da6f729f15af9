-- ===== src/Client/Failure/Buckets.antt =====
-- Which failed INVITEs of pkg/sip/errors.go count against the service.
use sip_video.Prelude.{ℕ, ◌≤◌, ◌<◌, ◌≡◌, ◌↔◌, ◌⊎◌, ap, ◌∙◌, none, some, Bool, false, arith}
use sip_video.Prelude.Int.{pos}
use sip_video.Text.{bytes, bytes_eq}
use sip_video.Client.Failure.{
  InviteCause, InviteFailure, classify_status, classify_found, classify_invite_error,
}

abbrev pub is_server_error : InviteFailure → Bool
is_server_error f = bytes_eq f.term.result (bytes "server_error")

-- The statuses that the callee or its side is answerable for.
abbrev pub IsCalleeStatus : ℕ → Type 0
IsCalleeStatus code = ((400 ≤ code) × (code < 500)) ⊎ ((600 ≤ code) × (code < 700))

classify_status-bucket :
    (code : ℕ)
    → ((is_server_error (classify_status (pos code)) ≡ false) ↔ IsCalleeStatus code)
      × ((classify_status (pos code)).reported ≡ is_server_error (classify_status (pos code)))
unfolding classify_status
classify_status-bucket code = ground arith

-- A failed INVITE that ends with a SIP status is put down to the callee's side exactly when the status is
-- a 4xx or a 6xx; any other status counts as an error of the service. The classification hands the error on to
-- be reported exactly when it counts against the service. The failure has no SDP error.
pub classify_invite_error-bucket :
    (e : InviteCause) (code : ℕ)
    → e.sdp ≡ none
    → e.sip_status ≡ some (pos code)
    → ((is_server_error (classify_invite_error e) ≡ false) ↔ IsCalleeStatus code)
      × ((classify_invite_error e).reported ≡ is_server_error (classify_invite_error e))
unfolding classify_invite_error
classify_invite_error-bucket e code no_sdp has =
    let same : classify_found e.sdp e.sip_status e ≡ classify_status (pos code) =
      ap (λ f. classify_found f e.sip_status e) no_sdp ∙ ap (λ s. classify_found none s e) has in
    rw same (classify_status-bucket code)
