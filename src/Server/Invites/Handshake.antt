-- ===== src/Server/Invites/Handshake.antt =====
-- The digest handshake of pkg/sip/inbound.go: a challenge, and the INVITE that answers it.
use sip_video.Prelude.{ℕ, ◌≡◌, some, get_elem?}
use sip_video.Text.{Bytes}
use sip_video.Server.Invites.{Challenge, Invites, find, challenge_of}

-- A state in which the Call-ID's entry is found and has the challenge.
record Challenged (id : Bytes) (c : Challenge) (p : ℕ) (s : Invites) : Type 0 where
  found : find s.heap id s.in_progress ≡ some p
  stored : challenge_of (get_elem? s.heap p) ≡ c
