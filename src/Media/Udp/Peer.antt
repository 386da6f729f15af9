-- ===== src/Media/Udp/Peer.antt =====
-- Which address `udpConn` of pkg/sip/media_port.go sends to.
use sip_video.Prelude.{
  ℕ, ◌≡◌, refl, ap, ◌∙◌, Option, none, some, Bool, true, false, List, [], ◌∷◌, if◌then◌else◌, arith,
  Bool-cases, inl, inr,
}
use sip_video.Text.{Bytes}
use sip_video.Media.Udp.{
  UdpConn, valid, note_dst, set_dst, note_src, needs_dst, read, send_to, write,
}

module _ {A : Type 0} (eq : A → A → Bool) (print_interval : ℕ)
    (eq_eq : (a b : A) → eq a b ≡ true → a ≡ b) where
  -- The reads of a connection: a time, and the address or `none` for a read that failed.
  abbrev pub read_all : List (ℕ × Option A) → UdpConn A → UdpConn A
  read_all [] c = c
  read_all ((now, addr) ∷ xs) c = read_all xs (read eq print_interval now addr c)

  abbrev newer : Option A → Option A → Option A
  newer d none = d
  newer d (some a) = some a

  -- The last address among the reads.
  abbrev pub last_addr : Option A → List (ℕ × Option A) → Option A
  last_addr d [] = d
  last_addr d ((now, addr) ∷ xs) = last_addr (newer d addr) xs

  note_src-kept :
      (now : ℕ) (addr prev : Option A) (c : UdpConn A)
      → let c' = note_src eq print_interval now addr prev c in
        (c'.symmetric ≡ c.symmetric) × (c'.dst ≡ c.dst)
  note_src-kept now addr none c = (refl, refl)
  note_src-kept now addr (some prev) c = ground arith

  note_dst-kept :
      (now : ℕ) (a : A) (prev : Option A) (c : UdpConn A)
      → let c' = note_dst eq print_interval now a prev c in
        (c'.symmetric ≡ c.symmetric) × (c'.dst ≡ c.dst)
  note_dst-kept now a none c = (refl, refl)
  note_dst-kept now a (some prev) c = ground arith

  same_dst :
      (a : A) (dst : Option A) → needs_dst eq print_interval (some a) dst ≡ false → dst ≡ some a
  same_dst a none h = cc
  same_dst a (some b) h = ground (arith, eq_eq b a)

  -- The destination after a read, from what the connection is once its source is noted.
  dst_after :
      (now : ℕ) (addr : Option A) (c : UdpConn A)
      → let c' =
          if needs_dst eq print_interval addr (valid c.dst)
          then set_dst eq print_interval now addr c
          else c in
        (c'.symmetric ≡ c.symmetric) × (valid c'.dst ≡ newer (valid c.dst) addr)
  unfolding set_dst
  dst_after now none c = ground arith
  dst_after now (some a) c =
      elim (Bool-cases (needs_dst eq print_interval (some a) (valid c.dst))) [
        | inl moved ↦
            let (symmetric, dst) =
              note_dst-kept now a (valid c.dst) (record c { dst = some (some a) }) in
            rw moved (symmetric, ap valid dst)
        | inr same ↦ rw same (refl, same_dst a (valid c.dst) same)
      ]

  read-dst :
      (now : ℕ) (addr : Option A) (c : UdpConn A)
      → c.symmetric ≡ true
      → ((read eq print_interval now addr c).symmetric ≡ true)
        × (valid (read eq print_interval now addr c).dst ≡ newer (valid c.dst) addr)
  unfolding read
  read-dst now addr c h =
      let c' = note_src eq print_interval now addr (valid c.src) (record c { src = some addr }) in
      let (symmetric, dst) = note_src-kept now addr (valid c.src) (record c { src = some addr }) in
      let (symmetric', dst') = dst_after now addr c' in
      rw (symmetric ∙ h) (symmetric' ∙ symmetric ∙ h, dst' ∙ ap (λ d. newer (valid d) addr) dst)

  read_all-last :
      (xs : List (ℕ × Option A)) (c : UdpConn A)
      → c.symmetric ≡ true
      → valid (read_all xs c).dst ≡ last_addr (valid c.dst) xs
  read_all-last [] c h = refl
  read_all-last ((now, addr) ∷ xs) c h =
      let (symmetric, dst) = read-dst now addr c h in
      read_all-last xs (read eq print_interval now addr c) symmetric ∙ ap (λ d. last_addr d xs) dst

  module _ {S R : Type 0} (send : S → Bytes → Option A → S × R) (ignored : ℕ → R) where
    write-valid :
        (c : UdpConn A) (s : S) (b : Bytes) (a : A) (dst : Option (Option A))
        → c.dst ≡ dst
        → valid dst ≡ some a
        → write send ignored c s b ≡ send s b (some a)
    unfolding write
    write-valid c s b a none e h = cc
    write-valid c s b a (some addr) e h = rw (e, send_to) (ap (send s b) h)

    -- A symmetric connection writes to the address of the last packet it read, or to the address
    -- set before when it has read none, whatever reads failed in between, if there is such an
    -- address.
    pub write-read_all :
        (xs : List (ℕ × Option A)) (c : UdpConn A) (a : A) (s : S) (b : Bytes)
        → c.symmetric ≡ true
        → last_addr (valid c.dst) xs ≡ some a
        → write send ignored (read_all xs c) s b ≡ send s b (some a)
    write-read_all xs c a s b h e =
        write-valid (read_all xs c) s b a (read_all xs c).dst refl (read_all-last xs c h ∙ e)

  read-dst_kept :
      (now : ℕ) (addr : Option A) (c : UdpConn A)
      → c.symmetric ≡ false
      → ((read eq print_interval now addr c).symmetric ≡ false)
        × ((read eq print_interval now addr c).dst ≡ c.dst)
  unfolding read
  read-dst_kept now addr c h = ground arith

  -- A connection that is not symmetric never lets a packet change where it sends.
  pub read_all-dst :
      (xs : List (ℕ × Option A)) (c : UdpConn A) → c.symmetric ≡ false → (read_all xs c).dst ≡ c.dst
  read_all-dst [] c h = refl
  read_all-dst ((now, addr) ∷ xs) c h =
      let (kept, same) = read-dst_kept now addr c h in
      read_all-dst xs (read eq print_interval now addr c) kept ∙ same
