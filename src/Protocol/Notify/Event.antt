-- ===== src/Protocol/Notify/Event.antt =====
-- Which REFER a NOTIFY is about, by its Event header in pkg/sip/protocol.go.
use sip_video.Prelude.{
  ℕ, ◌^◌, ◌<◌, ◌≡◌, refl, ap, ◌∙◌, none, some, [], ◌∷◌, ◌++◌, All, arith, ◌⊎◌, ◌↔◌,
}
use sip_video.Prelude.Int.{ℤ, pos, negsuc, ◌≤ℤ◌}
use sip_video.Text.{Bytes, bytes, to_lower, lower, itoa}
use sip_video.Text.Decimal.{IsDigit, itoa-IsDigit, parse_digits-itoa}
use sip_video.Protocol.Status.{ErrorCode}
use sip_video.Protocol.Notify.{
  parsed, parse_uint32, refer_id, refer_id_regexp, NotifyRequest, event_or, with_body, notification,
  on_event, handle_notify, parse_notify_body, handle_refer_notify,
}

to_lower-append : (s t : Bytes) → to_lower (s ++ t) ≡ to_lower s ++ to_lower t
unfolding to_lower
to_lower-append [] t = refl
to_lower-append (c ∷ s) t = ap (λ r. lower c ∷ r) (to_lower-append s t)

to_lower-IsDigit : (s : Bytes) → All IsDigit s → to_lower s ≡ s
unfolding to_lower
to_lower-IsDigit [] v = refl
to_lower-IsDigit (c ∷ s) v = ground (arith, v.0, to_lower-IsDigit s v.1)

refer_id-itoa :
    (id : ℕ) → id < 2 ^ 32 → refer_id (bytes ";id=" ++ itoa (pos id)) ≡ some (itoa (pos id))
unfolding refer_id
refer_id-itoa id h = rw (parse_digits-itoa id (omega (arith, h))) refl

-- A NOTIFY whose Event header, or whose short one in its absence, is `refer;id=` in either case and a
-- number of 32 bits is read as one for the REFER with that CSeq, when its body has a status line.
pub handle_notify-id :
    (req : NotifyRequest) (event : Bytes) (id : ℕ) (status : ℤ) (reason : Bytes)
    → event_or req.event req.short_event ≡ some (event ++ itoa (pos id))
    → to_lower event ≡ bytes "refer;id="
    → id < 2 ^ 32
    → parse_notify_body req.body ≡ parsed (status, reason)
    → handle_notify req ≡ parsed (record { cseq = id; status = status; reason = reason })
unfolding handle_notify on_event refer_id_regexp notification with_body
handle_notify-id req event id status reason has folded small body =
    let digits = itoa (pos id) in
    rw
      (
        has,
        to_lower-append event digits,
        folded,
        to_lower-IsDigit digits (itoa-IsDigit id),
        refer_id-itoa id small,
        body,
      )
      (ap (λ k. parsed (record { cseq = k; status = status; reason = reason }))
        (ap parse_uint32 (parse_digits-itoa id (omega (arith, small))) ∙ ground (arith, small)))

-- The CSeqs of the NOTIFYs that are about the REFER with a CSeq, or about none in particular.
abbrev pub IsFor : ℕ → ℕ → Type 0
IsFor refer_cseq cseq = (cseq ≡ 0) ⊎ (cseq ≡ refer_cseq)

abbrev pub IsTrying : ℤ → Type 0
IsTrying status = (pos 100 ≤ℤ status) × (status ≤ℤ pos 199)

module _ (get_error_code : ℤ → Bytes → ErrorCode) where
  pub handle_refer_notify-success :
      (cseq : ℕ) (status : ℤ) (reason : Bytes) (refer_cseq : ℕ)
      → (handle_refer_notify get_error_code cseq status reason refer_cseq ≡ some none)
        ↔ (IsFor refer_cseq cseq × (status ≡ pos 200))
  unfolding handle_refer_notify
  handle_refer_notify-success cseq (pos n) reason refer_cseq =
      (λ e. ground (arith, e), λ e. ground (arith, e))
  handle_refer_notify-success cseq (negsuc n) reason refer_cseq =
      (λ e. ground (arith, e), λ e. ground (arith, e))

  pub handle_refer_notify-ignored :
      (cseq : ℕ) (status : ℤ) (reason : Bytes) (refer_cseq : ℕ)
      → (handle_refer_notify get_error_code cseq status reason refer_cseq ≡ none)
        ↔ ((¬ IsFor refer_cseq cseq) ⊎ IsTrying status)
  unfolding handle_refer_notify
  handle_refer_notify-ignored cseq (pos n) reason refer_cseq =
      (λ e. ground (arith, e), λ e. ground (arith, e))
  handle_refer_notify-ignored cseq (negsuc n) reason refer_cseq =
      (λ e. ground (arith, e), λ e. ground (arith, e))
