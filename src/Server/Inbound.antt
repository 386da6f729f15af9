-- ===== src/Server/Inbound.antt =====
-- The dialog of an inbound call: `sipInbound` of pkg/sip/inbound.go, from the INVITE to the final
-- response or the BYE. A pointer that is nil is `false`; what is sent is a list, the newest first.
-- The mutex makes each operation one step. Headers and bodies are left out, and so are the ticks of
-- the ringing goroutine.
pub mod Once
pub mod Retries
use sip_video.Prelude.{
  ℕ, zero, suc, ◌+◌, ◌*◌, ◌%◌, ◌^◌, min, Option, none, some, Bool, true, false, ◌&&◌, ◌||◌, not,
  List, [], ◌∷◌, leb, ltb, if◌then◌else◌,
}
use sip_video.Text.{Bytes, bytes}

-- Responses by status and reason, and a BYE by its CSeq.
pub data Message : Type 0 where
  response : ℕ → Bytes → Message
  bye : ℕ → Message

-- `rejected` is the entry of `rejectedInvites` for the dialog.
pub record SipInbound : Type 0 where
  pub invite : Bool
  pub invite_tx : Bool
  pub invite_ok : Bool
  pub ringing : Bool
  pub next_request_cseq : ℕ
  pub has_call_id : Bool
  pub rejected : Option (ℕ × Bytes)
  pub sent : List Message

unfoldable pub drop : SipInbound → SipInbound
drop c = record c {
  ringing = false;
  invite_tx = false;
  invite = false;
  invite_ok = false;
  next_request_cseq = 0;
}

unfoldable pub respond : ℕ → Bytes → SipInbound → SipInbound
respond status reason c =
    if not c.invite_tx then c else record c { sent = response status reason ∷ c.sent }

-- `cache` tells whether the server has a cache of rejections.
unfoldable pub respond_and_drop : Bool → ℕ → Bytes → SipInbound → SipInbound
unfolding respond drop
respond_and_drop cache status reason c =
    let dropped = drop (respond status reason (record c { ringing = false })) in
    if cache && leb 300 status && c.has_call_id
    then record dropped { rejected = some (status, reason) }
    else dropped

unfoldable pub processing : SipInbound → SipInbound
unfolding respond
processing c = respond 100 (bytes "Processing") c

-- Without a transaction the source panics; `none` stands for that.
unfoldable pub start_ringing : SipInbound → Option SipInbound
unfolding respond
start_ringing c =
    if c.invite_tx then some (record (respond 180 (bytes "Ringing") c) { ringing = true }) else none

-- What one try to send the 200 brings: an error of the transaction, an ACK, or a timeout.
pub data Try : Type 0 where
  not_sent acknowledged timed_out : Try

pub data AcceptError : Type 0 where
  already_rejected send_failed no_ack : AcceptError

pub record AcceptConf : Type 0 where
  pub is_udp : Bool
  pub inbound_wait_ack : Bool

abbrev pub invite_ok_retry_attempts : ℕ
invite_ok_retry_attempts = 5

abbrev pub invite_ok_retry_attempts_no_ack : ℕ
invite_ok_retry_attempts_no_ack = 2

abbrev pub max_retries : AcceptConf → ℕ
max_retries conf =
    if not conf.is_udp
    then 1
    else if conf.inbound_wait_ack
    then invite_ok_retry_attempts
    else invite_ok_retry_attempts_no_ack

abbrev pub accepted : SipInbound → SipInbound
accepted c = record c { invite_ok = true; invite_tx = false }

abbrev pub send_ok : SipInbound → SipInbound
send_ok c = record c { sent = response 200 (bytes "OK") ∷ c.sent }

abbrev pub missing_ack : AcceptConf → Option AcceptError
missing_ack conf = if conf.inbound_wait_ack then some no_ack else none

-- What follows a try, when `rest` follows a timeout. A try that fails to send leaves the loop at
-- once, and what it sent is not known to have left.
abbrev pub after_try :
    AcceptConf
    → SipInbound
    → Try
    → SipInbound × Option AcceptError
    → SipInbound × Option AcceptError
after_try conf c not_sent rest = (c, some send_failed)
after_try conf c acknowledged rest = (accepted (send_ok c), none)
after_try conf c timed_out rest =
    if not conf.is_udp && not conf.inbound_wait_ack then (accepted (send_ok c), none) else rest

-- The loop, by the retries that are left after this try.
unfoldable pub accept_loop :
    AcceptConf → (ℕ → Try) → ℕ → SipInbound → SipInbound × Option AcceptError
accept_loop conf try zero c = after_try conf c (try zero) (accepted (send_ok c), missing_ack conf)
accept_loop conf try (suc left) c =
    let rest = accept_loop conf try left (send_ok c) in after_try conf c (try (suc left)) rest

-- `Accept`; the tries are numbered by the retries that are left.
unfoldable pub accept : AcceptConf → (ℕ → Try) → SipInbound → SipInbound × Option AcceptError
unfolding accept_loop
accept conf try c =
    if not c.invite_tx
    then (c, some already_rejected)
    else accept_loop conf try (max_retries conf) (record c { ringing = false })

-- A BYE from the remote, whose own response is on another transaction.
unfoldable pub accept_bye : SipInbound → SipInbound
unfolding drop
accept_bye c = drop c

unfoldable pub send_bye : SipInbound → SipInbound
unfolding drop
send_bye c =
    if not c.invite_ok
    then c
    else if not c.invite
    then c
    else drop (record c {
      sent = bye c.next_request_cseq ∷ c.sent;
      next_request_cseq = (c.next_request_cseq + 1) % 2 ^ 32;
    })

unfoldable pub send_status : ℕ → Bytes → SipInbound → SipInbound
unfolding drop
send_status code status c =
    if c.invite_ok
    then c
    else if not c.invite_tx
    then c
    else drop (record c { sent = response code status ∷ c.sent })

unfoldable pub close_with_status : ℕ → Bytes → SipInbound → SipInbound
unfolding drop send_bye send_status
close_with_status code status c =
    if c.invite_ok then send_bye c else if c.invite_tx then send_status code status c else drop c

unfoldable pub close : SipInbound → SipInbound
unfolding close_with_status
close c = close_with_status 486 (bytes "Rejected") c
