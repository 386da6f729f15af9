-- ===== src/Service/Tests.antt =====
-- Runs of the service on small tables.
use sip_video.Prelude.{ℕ, ◌≤◌, ◌≡◌, refl, Option, none, some, true, false, List, [], ◌∷◌}
use sip_video.Text.{Bytes, bytes}
use sip_video.Calls.State.{lookup, insert, delete}
use sip_video.Service.Transfers.{
  Transfers, request_transfer, request_for, receive, finish_transfer, finish_with,
}
use sip_video.Service.Transfers.Single.{
  processes, has_entry, requests, finishes, step, run, run-single, Op,
}
use sip_video.Service.Transfers.Waiters.{receive_all, finish_transfer-receive_all}

abbrev allows : Bytes → Option ℕ
allows call = none

-- Two requests for one transfer of a call, which is refused.
abbrev ops : List (Op ℕ)
ops =
    finishes (bytes "a") (some 603)
    ∷ requests (bytes "a") (bytes "tel:1")
    ∷ requests (bytes "a") (bytes "tel:1")
    ∷ []

run-single_example :
    (processes (bytes "a") (run allows ops).running ≤ 1)
    × (processes (bytes "a") (run allows ops).running
        ≡ has_entry (lookup (bytes "a") (run allows ops).pending_transfers))
run-single_example = run-single allows ops (bytes "a")

abbrev ended : Transfers ℕ
ended = record {
  pending_transfers = [];
  heap = record { transfer_to = bytes "tel:1"; buffer = some (some 603); closed = true } ∷ [];
  running = [];
}

run_test : run allows ops ≡ ended
unfolding run step request_transfer request_for finish_transfer finish_with lookup insert delete
run_test = refl

-- The transfer before it is refused.
abbrev refused_soon : Transfers ℕ
refused_soon = record {
  pending_transfers = (bytes "a", 0) ∷ [];
  heap = record { transfer_to = bytes "tel:1"; buffer = none; closed = false } ∷ [];
  running = (bytes "a", 0) ∷ [];
}

-- The second request is told of a success.
finish_transfer-receive_all_example :
    (receive 0 refused_soon ≡ (refused_soon, none))
    × (receive_all 2 0 (finish_transfer (bytes "a") (some 603) refused_soon)
        ≡ some (some 603) ∷ some none ∷ [])
finish_transfer-receive_all_example =
    finish_transfer-receive_all 1 (bytes "a") (some 603) refused_soon 0 []
      (record { transfer_to = bytes "tel:1"; buffer = none; closed = false }) refl refl refl refl
