-- ===== src/Protocol/Refer/Confirmed.antt =====
-- When a transfer succeeds: a REFER that was accepted, and then the news of it.
use sip_video.Prelude.{ℕ, ◌≡◌, refl, ◌⊎◌, inl, inr, ◌↔◌, Option, none, some, List, [], ◌∷◌, arith}
use sip_video.Prelude.Int.{ℤ, pos}
use sip_video.Text.{Bytes}
use sip_video.Client.Response.{TxEvent, TxResult, waiting, final, failed, sip_response}
use sip_video.Protocol.Status.{ErrorCode}
use sip_video.Protocol.Notify.{
  Parsed, parsed, rejected, NotifyRequest, Notification, TransferFailed, handle_notify,
}
use sip_video.Protocol.Notify.Event.{
  IsFor, IsTrying, handle_refer_notify-success, handle_refer_notify-ignored,
}
use sip_video.Protocol.Refer.{
  Waited, refer_result, send_refer, ReferEvent, ctx_done, call_done, notify, after_notify,
  after_refer, notified, await_refer, complete_refer,
}

-- What a NOTIFY says of the REFER with a CSeq.
abbrev pub IsSuccess : ℕ → Parsed Notification → Type 0
IsSuccess refer_cseq (rejected e) = ⊥
IsSuccess refer_cseq (parsed n) = IsFor refer_cseq n.cseq × (n.status ≡ pos 200)

abbrev pub IsIgnored : ℕ → Parsed Notification → Type 0
IsIgnored refer_cseq (rejected e) = Unit {0}
IsIgnored refer_cseq (parsed n) = (¬ IsFor refer_cseq n.cseq) ⊎ IsTrying n.status

-- The events that confirm a transfer: the end of the call, or a NOTIFY of success, after NOTIFYs that
-- say nothing.
pub data Confirmed (refer_cseq : ℕ) : List ReferEvent → Type 0 where
  ended : {es : List ReferEvent} → Confirmed refer_cseq (call_done ∷ es)
  succeeded :
      {req : NotifyRequest} {es : List ReferEvent}
      → IsSuccess refer_cseq (handle_notify req)
      → Confirmed refer_cseq (notify req ∷ es)
  later :
      {req : NotifyRequest} {es : List ReferEvent}
      → IsIgnored refer_cseq (handle_notify req)
      → Confirmed refer_cseq es
      → Confirmed refer_cseq (notify req ∷ es)

-- The final response that accepts a REFER.
abbrev pub IsAccepted : TxResult → Type 0
IsAccepted waiting = ⊥
IsAccepted (failed e) = ⊥
IsAccepted (final r) = (r.status_code ≡ 200) ⊎ (r.status_code ≡ 202)

abbrev pub Accepted : Option (List TxEvent) → Type 0
Accepted none = ⊥
Accepted (some events) = IsAccepted (sip_response events).result

refer_result-IsAccepted : (r : TxResult) → (refer_result r ≡ some none) ↔ IsAccepted r
refer_result-IsAccepted waiting = (λ e. ground (arith, e), λ v. absurd v)
refer_result-IsAccepted (failed x) = (λ e. ground (arith, e), λ v. absurd v)
refer_result-IsAccepted (final r) = (λ e. ground (arith, e), λ v. ground (arith, v))

send_refer-Accepted :
    (events : Option (List TxEvent)) → (send_refer events ≡ some none) ↔ Accepted events
unfolding send_refer
send_refer-Accepted none = (λ e. ground (arith, e), λ v. absurd v)
send_refer-Accepted (some events) = refer_result-IsAccepted (sip_response events).result

after_notify-cases :
    (o : Option (Option TransferFailed)) (rest : Waited)
    → after_notify o rest ≡ some none
    → (o ≡ some none) ⊎ ((o ≡ none) × (rest ≡ some none))
after_notify-cases none rest e = inr (refl, e)
after_notify-cases (some none) rest e = inl refl
after_notify-cases (some (some x)) rest e = ground (arith, e)

after_refer-cases :
    (sent rest : Waited)
    → after_refer sent rest ≡ some none
    → (sent ≡ some none) × (rest ≡ some none)
after_refer-cases none rest e = ground (arith, e)
after_refer-cases (some none) rest e = (refl, e)
after_refer-cases (some (some x)) rest e = ground (arith, e)

module _ (get_error_code : ℤ → Bytes → ErrorCode) where
  notified-IsSuccess :
      (refer_cseq : ℕ) (p : Parsed Notification)
      → (notified get_error_code refer_cseq p ≡ some none) ↔ IsSuccess refer_cseq p
  unfolding notified
  notified-IsSuccess refer_cseq (rejected e) = (λ e. ground (arith, e), λ v. absurd v)
  notified-IsSuccess refer_cseq (parsed n) =
      handle_refer_notify-success get_error_code n.cseq n.status n.reason refer_cseq

  notified-IsIgnored :
      (refer_cseq : ℕ) (p : Parsed Notification)
      → (notified get_error_code refer_cseq p ≡ none) ↔ IsIgnored refer_cseq p
  unfolding notified
  notified-IsIgnored refer_cseq (rejected e) = (λ e. tt, λ v. refl)
  notified-IsIgnored refer_cseq (parsed n) =
      handle_refer_notify-ignored get_error_code n.cseq n.status n.reason refer_cseq

  await_refer-Confirmed :
      (refer_cseq : ℕ) (es : List ReferEvent)
      → await_refer get_error_code refer_cseq es ≡ some none
      → Confirmed refer_cseq es
  unfolding await_refer
  await_refer-Confirmed refer_cseq [] e = ground (arith, e)
  await_refer-Confirmed refer_cseq (ctx_done ∷ es) e = ground (arith, e)
  await_refer-Confirmed refer_cseq (call_done ∷ es) e = ended
  await_refer-Confirmed refer_cseq (notify req ∷ es) e =
      elim (after_notify-cases (notified get_error_code refer_cseq (handle_notify req))
        (await_refer get_error_code refer_cseq es) e) [
          | inl v ↦ succeeded ((notified-IsSuccess refer_cseq (handle_notify req)).0 v)
          | inr v ↦
              later ((notified-IsIgnored refer_cseq (handle_notify req)).0 v.0)
                (await_refer-Confirmed refer_cseq es v.1)
        ]

  Confirmed-await_refer :
      (refer_cseq : ℕ) (es : List ReferEvent)
      → Confirmed refer_cseq es
      → await_refer get_error_code refer_cseq es ≡ some none
  unfolding await_refer
  Confirmed-await_refer refer_cseq _ ended = refl
  Confirmed-await_refer refer_cseq _ (succeeded {req} v) =
      rw ((notified-IsSuccess refer_cseq (handle_notify req)).1 v) refl
  Confirmed-await_refer refer_cseq _ (later {req} {es} v c) =
      rw ((notified-IsIgnored refer_cseq (handle_notify req)).1 v)
        (Confirmed-await_refer refer_cseq es c)

  -- A transfer succeeds exactly when its REFER is answered with 200 or 202 and then, after any number
  -- of NOTIFYs that cannot be read, are about another REFER or tell that it is still tried, the call
  -- ends or a NOTIFY comes that is about this REFER, or about none in particular, and says 200.
  pub complete_refer-Confirmed :
      (refer_cseq : ℕ) (events : Option (List TxEvent)) (es : List ReferEvent)
      → (complete_refer get_error_code refer_cseq events es ≡ some none)
        ↔ (Accepted events × Confirmed refer_cseq es)
  unfolding complete_refer
  complete_refer-Confirmed refer_cseq events es =
      let sent = send_refer events in
      let rest = await_refer get_error_code refer_cseq es in
      (
        λ e. (
          (send_refer-Accepted events).0 (after_refer-cases sent rest e).0,
          await_refer-Confirmed refer_cseq es (after_refer-cases sent rest e).1,
        ),
        λ v. rw ((send_refer-Accepted events).1 v.0) (Confirmed-await_refer refer_cseq es v.1),
      )
