-- ===== src/Client/Participant/Address.antt =====
-- Which requests for a call pkg/sip/client.go takes.
use sip_video.Prelude.{
  ℕ, ◌≡◌, ◌≢◌, refl, ◌↔◌, Option, none, some, Bool, true, false, ◌||◌, [], ◌∷◌, All, if◌then◌else◌,
  arith, Bool-cases, inl, inr,
}
use sip_video.Text.{Bytes, bytes, has_prefix}
use sip_video.Client.Participant.{
  RequestError, no_call_to, no_address, no_number, no_room_name, full_uri, sip_prefix,
  address_transport, address_parameters, CreateRequest, is_empty, contains, has_byte, contains_any,
  check_request,
}

-- A request with its four texts, a callee without `@`, and an address that has no SIP scheme and no
-- parameters.
pub record IsWellFormed (req : CreateRequest) : Type 0 where
  pub has_call_to : is_empty req.call_to ≡ false
  pub has_address : is_empty req.address ≡ false
  pub has_number : is_empty req.number ≡ false
  pub has_room_name : is_empty req.room_name ≡ false
  pub is_user : All (λ c. c ≢ b'@') req.call_to
  pub no_sip : has_prefix req.address (bytes "sip:") ≡ false
  pub no_sips : has_prefix req.address (bytes "sips:") ≡ false
  pub no_semicolon : All (λ c. c ≢ b';') req.address
  pub no_equals : All (λ c. c ≢ b'=') req.address

contains-byte : (s : Bytes) (b : ℕ) → (contains s (b ∷ []) ≡ false) ↔ All (λ c. c ≢ b) s
unfolding contains has_prefix
contains-byte [] b = (λ e. tt, λ v. refl)
contains-byte (c ∷ s) b = (
  λ e. (ground (arith, e), (contains-byte s b).0 (ground (arith, e))),
  λ v. let rest = (contains-byte s b).1 v.1 in ground (arith, rest, v.0),
)

contains_any-bytes :
    (s : Bytes)
    → (contains_any s (bytes ";=") ≡ false) ↔ (All (λ c. c ≢ b';') s × All (λ c. c ≢ b'=') s)
unfolding contains_any has_byte
contains_any-bytes [] = (λ e. (tt, tt), λ v. refl)
contains_any-bytes (c ∷ s) = (
  λ e.
      let rest = (contains_any-bytes s).0 (ground (arith, e)) in
      ((ground (arith, e), rest.0), (ground (arith, e), rest.1)),
  λ v. let rest = (contains_any-bytes s).1 (v.0.1, v.1.1) in ground (arith, rest, v.0.0, v.1.0),
)

-- A prefix has only bytes of the text.
has_prefix-All :
    (b : ℕ) (s p : Bytes) → has_prefix s p ≡ true → All (λ c. c ≢ b) s → All (λ c. c ≢ b) p
unfolding has_prefix
has_prefix-All b s [] e v = tt
has_prefix-All b [] (d ∷ p) e v = ground (arith, e)
has_prefix-All b (c ∷ s) (d ∷ p) e v =
    (ground (arith, e, v.0), has_prefix-All b s p (ground (arith, e)) v.1)

contains-All : (b : ℕ) (s p : Bytes) → contains s p ≡ true → All (λ c. c ≢ b) s → All (λ c. c ≢ b) p
unfolding contains
contains-All b [] [] e v = tt
contains-All b [] (d ∷ p) e v = ground (arith, e)
contains-All b (c ∷ s) p e v = elim (Bool-cases (has_prefix (c ∷ s) p)) [
  | inl here ↦ has_prefix-All b (c ∷ s) p here v
  | inr gone ↦ contains-All b s p (ground (arith, e, gone)) v.1
]

no_transport : (s : Bytes) → All (λ c. c ≢ b'=') s → contains s (bytes "transport=") ≡ false
no_transport s v = elim (Bool-cases (contains s (bytes "transport="))) [
  | inl e ↦ let w = contains-All b'=' s (bytes "transport=") e v in ground (arith, w)
  | inr e ↦ e
]

-- A check that is passed, and the rest of the checks.
passed :
    (b : Bool) (x : RequestError) (r : Option RequestError)
    → (if b then some x else r) ≡ none
    → (b ≡ false) × (r ≡ none)
passed true x r e = ground (arith, e)
passed false x r e = (refl, e)

either : (a b : Bool) → (a || b) ≡ false → (a ≡ false) × (b ≡ false)
either a b e = (ground (arith, e), ground (arith, e))

-- A request passes the checks exactly when it is well-formed. The check for `transport=` refuses nothing
-- that the check for `=` would not.
pub check_request-IsWellFormed :
    (req : CreateRequest) → (check_request req ≡ none) ↔ IsWellFormed req
unfolding check_request
check_request-IsWellFormed req = (
  λ e.
      let p = passed (is_empty req.call_to) no_call_to _ e in
      let q = passed (is_empty req.address) no_address _ p.1 in
      let r = passed (is_empty req.number) no_number _ q.1 in
      let s = passed (is_empty req.room_name) no_room_name _ r.1 in
      let t = passed (contains req.call_to (bytes "@")) full_uri _ s.1 in
      let sip = has_prefix req.address (bytes "sip:") in
      let sips = has_prefix req.address (bytes "sips:") in
      let u = passed (sip || sips) sip_prefix _ t.1 in
      let w = passed (contains req.address (bytes "transport=")) address_transport _ u.1 in
      let x = passed (contains_any req.address (bytes ";=")) address_parameters none w.1 in
      let plain = (contains_any-bytes req.address).0 x.0 in
      record {
        has_call_to = p.0;
        has_address = q.0;
        has_number = r.0;
        has_room_name = s.0;
        is_user = (contains-byte req.call_to b'@').0 t.0;
        no_sip = (either sip sips u.0).0;
        no_sips = (either sip sips u.0).1;
        no_semicolon = plain.0;
        no_equals = plain.1;
      },
  λ v.
      let user = (contains-byte req.call_to b'@').1 v.is_user in
      let plain = (contains_any-bytes req.address).1 (v.no_semicolon, v.no_equals) in
      let transport = no_transport req.address v.no_equals in
      rw
        (
          v.has_call_to, v.has_address, v.has_number, v.has_room_name, user, v.no_sip, v.no_sips,
          transport, plain,
        )
        refl,
)
