-- ===== src/Server/Invites/Digest.antt =====
-- Which INVITEs `handleInviteAuth` of pkg/sip/inbound.go accepts, and what it answers.
use sip_video.Prelude.{
  ℕ, ◌≡◌, refl, Option, none, some, Bool, true, false, not, ◌||◌, ◌&&◌, List, [], ◌∷◌, ◌++◌, map,
  append-nil, sym, ap, ◌∙◌, Bool-cases, inl, inr, get_elem?, if◌then◌else◌, arith,
}
use sip_video.Text.{Bytes, bytes_eq}
use sip_video.Text.Laws.{bytes_eq→eq}
use sip_video.Server.Invites.{
  Challenge, Invites, get_invite, Request, InboundAuth, Credentials, DigestOptions, Reply,
  AuthResult, processing, refuse, challenged, bad_credentials, unauthorized, is_empty, call_id_of,
  challenge_of, check_response, options_for, check_credentials, new_challenge, check_header,
  first_replies, handle_invite_auth,
}

-- The challenge that is remembered for a Call-ID, empty for one that is new.
abbrev pub issued : Invites → Bytes → Challenge
issued s id = let (p, s') = get_invite s id in challenge_of (get_elem? s'.heap p)

module _ (parse_credentials : Bytes → Option Credentials)
    (digest : Challenge → DigestOptions → Option Bytes) where
  -- The request answers the challenge that is remembered for its Call-ID.
  pub record Answers (s : Invites) (req : Request) (auth : InboundAuth) (h : Bytes)
      (cred : Credentials) : Type 0 where
    pub header : req.proxy_authorization ≡ some h
    pub parsed : parse_credentials h ≡ some cred
    pub same_user : cred.username ≡ auth.username
    pub was_challenged : is_empty (issued s (call_id_of req.call_id)).realm ≡ false
    pub response :
        digest
          (issued s (call_id_of req.call_id))
          (options_for parse_credentials digest req auth cred)
        ≡ some cred.response

  check_response-ok :
      (s : Invites) (replies : List Reply) (response : Bytes) (o : Option Bytes)
      → (check_response parse_credentials digest s replies response o).ok ≡ true
      → o ≡ some response
  check_response-ok s replies response none e = cc
  check_response-ok s replies response (some expected) e =
      ground (arith, bytes_eq→eq response expected)

  check_credentials-ok :
      (s : Invites) (replies : List Reply) (req : Request) (auth : InboundAuth) (c : Challenge)
      (o : Option Credentials)
      → (check_credentials parse_credentials digest s replies req auth c o).ok ≡ true
      → (cred : Credentials) × (o ≡ some cred)
        × (cred.username ≡ auth.username)
        × (is_empty c.realm ≡ false)
        × (digest c (options_for parse_credentials digest req auth cred) ≡ some cred.response)
  check_credentials-ok s replies req auth c none e = cc
  check_credentials-ok s replies req auth c (some cred) e =
      let d = digest c (options_for parse_credentials digest req auth cred) in
      (
        cred,
        refl,
        ground (arith, bytes_eq→eq cred.username auth.username),
        ground arith,
        ground (arith, check_response-ok s replies cred.response d),
      )

  check_header-ok :
      (s : Invites) (replies : List Reply) (req : Request) (auth : InboundAuth) (nonce : Bytes)
      (o : Option Bytes)
      → req.proxy_authorization ≡ o
      → (check_header parse_credentials digest
          (get_invite s (call_id_of req.call_id))
          replies
          req
          auth
          nonce
          o).ok
        ≡ true
      → (h : Bytes) × (cred : Credentials) × Answers s req auth h cred
  check_header-ok s replies req auth nonce none q e = cc
  check_header-ok s replies req auth nonce (some h) q e =
      let id = call_id_of req.call_id in
      let (cred, parsed, same_user, was_challenged, response) =
        check_credentials-ok (get_invite s id).1 replies req auth (issued s id)
          (parse_credentials h) e in
      (
        h,
        cred,
        record {
          header = q;
          parsed = parsed;
          same_user = same_user;
          was_challenged = was_challenged;
          response = response;
        },
      )

  -- Where credentials are configured, an INVITE is accepted only with a header whose user name is
  -- the configured one and whose response is the digest, under the configured password, of the
  -- challenge, not an empty one, that the server remembers for the request's Call-ID.
  pub handle_invite_auth-Answers :
      (hide : Bool) (s : Invites) (req : Request) (auth : InboundAuth) (nonce : Bytes)
      → (is_empty auth.username || is_empty auth.password) ≡ false
      → (handle_invite_auth parse_credentials digest hide s req auth nonce).ok ≡ true
      → (h : Bytes) × (cred : Credentials) × Answers s req auth h cred
  unfolding handle_invite_auth
  handle_invite_auth-Answers hide s req auth nonce configured e =
      check_header-ok s (first_replies parse_credentials digest hide) req auth nonce
        req.proxy_authorization refl (rw configured at e)

  -- The status of a response.
  abbrev pub status : Reply → ℕ
  status processing = 100
  status (challenged c) = 407
  status bad_credentials = 401
  status unauthorized = 401

  abbrev pub statuses : List Reply → List ℕ
  statuses = map status

  statuses-append : (xs ys : List Reply) → statuses (xs ++ ys) ≡ statuses xs ++ statuses ys
  statuses-append [] ys = refl
  statuses-append (x ∷ xs) ys = ap (λ zs. status x ∷ zs) (statuses-append xs ys)

  -- The final response that goes with a result: none, the 407 of a challenge, or a 401.
  abbrev pub final : Bool → Bool → List ℕ
  final true challenge = []
  final false true = 407 ∷ []
  final false false = 401 ∷ []

  -- After some replies, the result has one final response, the one that fits it.
  record Ends (replies : List Reply) (r : AuthResult) : Type 0 where
    ends : statuses r.replies ≡ statuses replies ++ final r.ok r.challenge
    apart : (r.ok && r.challenge) ≡ false

  refuse-Ends :
      (s : Invites) (replies : List Reply) (reply : Reply)
      → status reply ≡ 401
      → Ends replies (refuse s replies reply)
  refuse-Ends s replies reply e = record {
    ends = statuses-append replies (reply ∷ []) ∙ ap (λ n. statuses replies ++ (n ∷ [])) e;
    apart = refl;
  }

  accept-Ends :
      (s : Invites) (replies : List Reply)
      → Ends replies (record { ok = true; challenge = false; replies = replies; invites = s })
  accept-Ends s replies = record { ends = sym (append-nil (statuses replies)); apart = refl }

  check_response-Ends :
      (s : Invites) (replies : List Reply) (response : Bytes) (o : Option Bytes)
      → Ends replies (check_response parse_credentials digest s replies response o)
  check_response-Ends s replies response none = refuse-Ends s replies bad_credentials refl
  check_response-Ends s replies response (some expected) =
      elim (Bool-cases (bytes_eq response expected)) [
        | inl e ↦ rw e (accept-Ends s replies)
        | inr e ↦ rw e (refuse-Ends s replies unauthorized refl)
      ]

  check_credentials-Ends :
      (s : Invites) (replies : List Reply) (req : Request) (auth : InboundAuth) (c : Challenge)
      (o : Option Credentials)
      → Ends replies (check_credentials parse_credentials digest s replies req auth c o)
  check_credentials-Ends s replies req auth c none = refuse-Ends s replies bad_credentials refl
  check_credentials-Ends s replies req auth c (some cred) =
      elim (Bool-cases (not (bytes_eq cred.username auth.username))) [
        | inl e ↦ rw e (refuse-Ends s replies unauthorized refl)
        | inr e ↦ rw e (elim (Bool-cases (is_empty c.realm)) [
          | inl e' ↦ rw e' (refuse-Ends s replies bad_credentials refl)
          | inr e' ↦ rw e' (
              check_response-Ends s replies cred.response
                (digest c (options_for parse_credentials digest req auth cred)))
        ])
      ]

  check_header-Ends :
      (r : ℕ × Invites) (replies : List Reply) (req : Request) (auth : InboundAuth) (nonce : Bytes)
      (o : Option Bytes)
      → Ends replies (check_header parse_credentials digest r replies req auth nonce o)
  check_header-Ends (p, s) replies req auth nonce none = record {
    ends =
        statuses-append replies
          (challenged (new_challenge parse_credentials digest auth nonce) ∷ []);
    apart = refl;
  }
  check_header-Ends (p, s) replies req auth nonce (some h) =
      check_credentials-Ends s replies req auth (challenge_of (get_elem? s.heap p))
        (parse_credentials h)

  -- Every call sends a 100 first where the port is hidden and there are credentials to check, and then
  -- exactly one final response when the INVITE is not accepted: the 407 of a challenge, or a 401. An
  -- accepted INVITE gets no final response here, and is never challenged.
  pub handle_invite_auth-replies :
      (hide : Bool) (s : Invites) (req : Request) (auth : InboundAuth) (nonce : Bytes)
      → let r = handle_invite_auth parse_credentials digest hide s req auth nonce in
        let checked = not (is_empty auth.username || is_empty auth.password) in
        (statuses r.replies ≡ (if checked && hide then 100 ∷ [] else []) ++ final r.ok r.challenge)
        × ((r.ok && r.challenge) ≡ false)
  unfolding handle_invite_auth
  handle_invite_auth-replies hide s req auth nonce =
      let first = first_replies parse_credentials digest hide in
      let v =
        check_header-Ends (get_invite s (call_id_of req.call_id)) first req auth nonce
          req.proxy_authorization in
      elim (Bool-cases (is_empty auth.username || is_empty auth.password)) [
        | inl e ↦ rw e (refl, refl)
        | inr e ↦ rw e (elim (Bool-cases hide) [
          | inl h ↦ (v.ends ∙ rw h refl, v.apart)
          | inr h ↦ (v.ends ∙ rw h refl, v.apart)
        ])
      ]
