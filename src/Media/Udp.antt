-- ===== src/Media/Udp.antt =====
-- `udpConn` of pkg/sip/media_port.go: the UDP socket of a call that follows its peer's address. An
-- invalid `netip.AddrPort` is `none`; a field that holds a pointer is an option of that. The socket
-- is a parameter. Each operation is one step.
pub mod Peer
use sip_video.Prelude.{
  ℕ, zero, suc, ◌+◌, ◌-◌, ◌*◌, ◌%◌, ◌^◌, Option, none, some, Bool, true, false, not, List, [], ◌∷◌,
  length, ltb, if◌then◌else◌,
}
use sip_video.Text.{Bytes}

-- Counters are atomic uint64, times nanoseconds.
pub record UdpConn (A : Type 0) : Type 0 where
  pub symmetric : Bool
  pub src : Option (Option A)
  pub dst : Option (Option A)
  pub src_change_count : ℕ
  pub dst_change_count : ℕ
  pub last_src_print : ℕ
  pub last_dst_print : ℕ

unfoldable pub new_udp_conn : {A : Type 0} → Bool → UdpConn A
new_udp_conn symmetric = record {
  symmetric = symmetric;
  src = none;
  dst = none;
  src_change_count = 0;
  dst_change_count = 0;
  last_src_print = 0;
  last_dst_print = 0;
}

-- The address behind a pointer, when there is one and it is valid.
abbrev pub valid : {A : Type 0} → Option (Option A) → Option A
valid none = none
valid (some addr) = addr

unfoldable pub set_symmetric : {A : Type 0} → Bool → UdpConn A → UdpConn A
set_symmetric enabled c = record c { symmetric = enabled }

unfoldable pub get_src : {A : Type 0} → UdpConn A → Option A
get_src c = valid c.src

-- `srcChangePrintInterval` and `dstChangePrintInterval` are arguments.
module _ {A : Type 0} (eq : A → A → Bool) (print_interval : ℕ) where
  abbrev pub is_same : Option A → Option A → Bool
  is_same none none = true
  is_same none (some b) = false
  is_same (some a) none = false
  is_same (some a) (some b) = eq a b

  abbrev pub count_dst : ℕ → UdpConn A → UdpConn A
  count_dst now c =
      let counted = record c { dst_change_count = (c.dst_change_count + 1) % 2 ^ 64 } in
      if ltb (c.last_dst_print + print_interval) now
      then record counted { last_dst_print = now }
      else counted

  abbrev pub note_dst : ℕ → A → Option A → UdpConn A → UdpConn A
  note_dst now addr none c = c
  note_dst now addr (some prev) c = if eq prev addr then c else count_dst now c

  unfoldable pub set_dst : ℕ → Option A → UdpConn A → UdpConn A
  set_dst now none c = c
  set_dst now (some addr) c = note_dst now addr (valid c.dst) (record c { dst = some (some addr) })

  -- A change of source that is logged is counted twice.
  abbrev pub count_src : ℕ → UdpConn A → UdpConn A
  count_src now c =
      let count = (c.src_change_count + 1) % 2 ^ 64 in
      if ltb (c.last_src_print + print_interval) now
      then record c { src_change_count = (count + 1) % 2 ^ 64; last_src_print = now }
      else record c { src_change_count = count }

  abbrev pub note_src : ℕ → Option A → Option A → UdpConn A → UdpConn A
  note_src now addr none c = c
  note_src now addr (some prev) c = if is_same (some prev) addr then c else count_src now c

  abbrev pub needs_dst : Option A → Option A → Bool
  needs_dst addr none = true
  needs_dst addr (some dst) = not (is_same (some dst) addr)

  -- `Read`, given the address that the socket's read returned; what else it returned is passed on.
  unfoldable pub read : ℕ → Option A → UdpConn A → UdpConn A
  unfolding set_dst
  read now addr c =
      let c' = note_src now addr (valid c.src) (record c { src = some addr }) in
      if c'.symmetric
      then (if needs_dst addr (valid c'.dst) then set_dst now addr c' else c')
      else c'

-- The socket's write, on a state of its own, and its result.
module _ {A S R : Type 0} (send : S → Bytes → Option A → S × R) (ignored : ℕ → R) where
  abbrev pub send_to : S → Bytes → Option (Option A) → S × R
  send_to s b none = (s, ignored (length b))
  send_to s b (some dst) = send s b dst

  unfoldable pub write : UdpConn A → S → Bytes → S × R
  write c s b = send_to s b c.dst
