-- ===== src/Media/Tests.antt =====
-- The theorems on the RTP side at concrete inputs.
use sip_video.Prelude.{
  ℕ, ◌%◌, ◌^◌, ◌≡◌, refl, Option, none, some, true, false, List, [], ◌∷◌, length, arith, ◌==◌,
}
use sip_video.Text.{Bytes}
use sip_video.Media.Latency.{step_thread}
use sip_video.Media.Latency.Interleaving.{run, starts, all_finished, run-totals}
use sip_video.Media.Stream.{RtpStreamStats, no_stats}
use sip_video.Media.Stream.Gaps.{Arrival, arrive, arrive-gaps}
use sip_video.Media.Udp.{UdpConn, valid, new_udp_conn, write}
use sip_video.Media.Udp.Peer.{read_all, last_addr, write-read_all}

-- Two recordings whose operations alternate, so that the first compare-and-swap of one fails.
abbrev schedule : List ℕ
schedule = 0 ∷ 1 ∷ 0 ∷ 1 ∷ 0 ∷ 1 ∷ 0 ∷ 1 ∷ 1 ∷ 1 ∷ []

schedule_ends : all_finished (run (starts (3 ∷ 5 ∷ [])) schedule).threads ≡ true
unfolding step_thread
schedule_ends = refl

run-totals_example :
    let stats = (run (starts (3 ∷ 5 ∷ [])) schedule).stats in
    (stats.count ≡ 2) × (stats.sum_ns ≡ 8) × (stats.max_ns ≡ 5)
run-totals_example = run-totals (3 ∷ 5 ∷ []) schedule schedule_ends

abbrev stream_stats : RtpStreamStats
stream_stats = record { packets = 1; last_seq = 65535; last_packet = 1000; stats = no_stats }

abbrev arrival : ℕ → Arrival
arrival ahead = record { ahead = ahead; now = 1020; payload = [] }

arrive-gaps_example :
    let k = arrive 50 stream_stats 65535 (arrival 3 ∷ arrival 1 ∷ []) in
    (k.stats.gaps % 2 ^ 64 ≡ 1)
    × (k.stats.gaps_sum % 2 ^ 64 ≡ 3)
    × (k.stats.packets % 2 ^ 64 ≡ 2)
    × (k.stats.late ≡ 0)
    × (k.stats.resets ≡ 0)
arrive-gaps_example =
    arrive-gaps 50 (arrival 3 ∷ arrival 1 ∷ []) stream_stats 65535
      (record { at_seq = refl; seen = omega arith; room = omega arith })
      ((omega arith, omega arith), ((omega arith, omega arith), tt)) (omega arith)

-- Addresses are numbers, and a socket keeps what was sent where.
abbrev send_log : List (Option ℕ) → Bytes → Option ℕ → List (Option ℕ) × ℕ
send_log s b addr = (addr ∷ s, length b)

abbrev ignored : ℕ → ℕ
ignored n = n

same_number : (a b : ℕ) → (a == b) ≡ true → a ≡ b
same_number a b h = ground arith

abbrev reads : List (ℕ × Option ℕ)
reads = (1, some 8) ∷ (2, none) ∷ (3, some 9) ∷ (4, none) ∷ []

started_symmetric : (new_udp_conn {A = ℕ} true).symmetric ≡ true
unfolding new_udp_conn
started_symmetric = refl

last_address : last_addr ◌==◌ 10 same_number (valid (new_udp_conn {A = ℕ} true).dst) reads ≡ some 9
last_address = refl

write-read_all_example :
    write send_log ignored (read_all ◌==◌ 10 same_number reads (new_udp_conn true)) [] (1 ∷ [])
    ≡ (some 9 ∷ [], 1)
write-read_all_example =
    write-read_all ◌==◌ 10 same_number send_log ignored reads (new_udp_conn true) 9 [] (1 ∷ [])
      started_symmetric last_address

abbrev fixed : UdpConn ℕ
fixed = record {
  symmetric = false;
  src = none;
  dst = some (some 4);
  src_change_count = 0;
  dst_change_count = 0;
  last_src_print = 0;
  last_dst_print = 0;
}
