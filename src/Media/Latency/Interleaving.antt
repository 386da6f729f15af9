-- ===== src/Media/Latency/Interleaving.antt =====
-- What `LatencyStats` of pkg/sip/media_latency.go holds after any interleaving of its writers.
use sip_video.Prelude.{
  ◌&&◌, sum, ℕ, zero, suc, ◌+◌, ◌%◌, ◌^◌, ◌≤◌, ◌<◌, ◌≡◌, refl, ap, ◌∙◌, Option, none, some, Bool,
  true, false, List, [], ◌∷◌, length, get_elem?, set, All, arith, Option-cases, inl, inr, leb,
  if◌then◌else◌,
}
use sip_video.Media.Latency.{
  LatencyStats, Thread, counting, summing, loading, comparing, finished, step_thread,
}

-- The shared values and the threads.
pub record Shared : Type 0 where
  pub stats : LatencyStats
  pub threads : List Thread

abbrev pub put : Shared → ℕ → LatencyStats × Thread → Shared
put s i (stats, t) = record { stats = stats; threads = set s.threads i t }

abbrev pub step_found : Shared → ℕ → Option Thread → Shared
step_found s i none = s
step_found s i (some t) = put s i (step_thread s.stats t)

-- One operation of the `i`-th thread.
abbrev pub step : Shared → ℕ → Shared
step s i = step_found s i (get_elem? s.threads i)

abbrev pub run : Shared → List ℕ → Shared
run s [] = s
run s (i ∷ is) = run (step s i) is

abbrev pub ns_of : Thread → ℕ
ns_of (counting ns) = ns
ns_of (summing ns) = ns
ns_of (loading ns) = ns
ns_of (comparing ns old) = ns
ns_of (finished ns) = ns

abbrev pub counted : Thread → ℕ
counted (counting ns) = 0
counted _ = 1

abbrev pub summed : Thread → ℕ
summed (counting ns) = 0
summed (summing ns) = 0
summed (loading ns) = ns
summed (comparing ns old) = ns
summed (finished ns) = ns

abbrev pub total : (Thread → ℕ) → List Thread → ℕ
total f [] = 0
total f (t ∷ ts) = f t + total f ts

abbrev pub max_of : ℕ → ℕ → ℕ
max_of a b = if leb a b then b else a

abbrev pub maximum : List Thread → ℕ
maximum [] = 0
maximum (t ∷ ts) = max_of (ns_of t) (maximum ts)

-- What the shared maximum owes to a thread.
abbrev pub IsBelow : ℕ → Thread → Type 0
IsBelow m (comparing ns old) = old ≤ m
IsBelow m (finished ns) = ns ≤ m
IsBelow m (counting ns) = 0 ≤ m
IsBelow m (summing ns) = 0 ≤ m
IsBelow m (loading ns) = 0 ≤ m

pub record IsConsistent (s : Shared) : Type 0 where
  pub counts : s.stats.count ≡ total counted s.threads % 2 ^ 64
  pub sums : s.stats.sum_ns ≡ total summed s.threads % 2 ^ 64
  pub below : All (IsBelow s.stats.max_ns) s.threads
  pub attained : s.stats.max_ns ≤ maximum s.threads

total-set :
    (f : Thread → ℕ) (ts : List Thread) (i : ℕ) (t u : Thread)
    → get_elem? ts i ≡ some t
    → total f (set ts i u) + f t ≡ total f ts + f u
total-set f [] i t u e = cc
total-set f (x ∷ ts) zero t u e = ground arith
total-set f (x ∷ ts) (suc i) t u e = omega (arith, total-set f ts i t u e)

maximum-set :
    (ts : List Thread) (i : ℕ) (t u : Thread)
    → get_elem? ts i ≡ some t
    → ns_of u ≡ ns_of t
    → maximum (set ts i u) ≡ maximum ts
maximum-set [] i t u e h = cc
maximum-set (x ∷ ts) zero t u e h = ground arith
maximum-set (x ∷ ts) (suc i) t u e h = ap (max_of (ns_of x)) (maximum-set ts i t u e h)

ns_of-le : (ts : List Thread) (i : ℕ) (t : Thread) → get_elem? ts i ≡ some t → ns_of t ≤ maximum ts
ns_of-le [] i t e = cc
ns_of-le (x ∷ ts) zero t e = ground arith
ns_of-le (x ∷ ts) (suc i) t e = ground (arith, ns_of-le ts i t e)

IsBelow-mono : (m n : ℕ) (t : Thread) → m ≤ n → IsBelow m t → IsBelow n t
IsBelow-mono m n (counting ns) h b = omega arith
IsBelow-mono m n (summing ns) h b = omega arith
IsBelow-mono m n (loading ns) h b = omega arith
IsBelow-mono m n (comparing ns old) h b = omega arith
IsBelow-mono m n (finished ns) h b = omega arith

IsBelow-All : (m n : ℕ) (ts : List Thread) → m ≤ n → All (IsBelow m) ts → All (IsBelow n) ts
IsBelow-All m n [] h b = tt
IsBelow-All m n (x ∷ ts) h b = (IsBelow-mono m n x h b.0, IsBelow-All m n ts h b.1)

IsBelow-set :
    (m n : ℕ) (ts : List Thread) (i : ℕ) (u : Thread)
    → m ≤ n
    → All (IsBelow m) ts
    → IsBelow n u
    → All (IsBelow n) (set ts i u)
IsBelow-set m n [] i u h b c = tt
IsBelow-set m n (x ∷ ts) zero u h b c = (c, IsBelow-All m n ts h b.1)
IsBelow-set m n (x ∷ ts) (suc i) u h b c =
    (IsBelow-mono m n x h b.0, IsBelow-set m n ts i u h b.1 c)

IsBelow-get :
    (m : ℕ) (ts : List Thread) (i : ℕ) (t : Thread)
    → get_elem? ts i ≡ some t
    → All (IsBelow m) ts
    → IsBelow m t
IsBelow-get m [] i t e b = cc
IsBelow-get m (x ∷ ts) zero t e b = let q : t ≡ x = cc in rw q b.0
IsBelow-get m (x ∷ ts) (suc i) t e b = IsBelow-get m ts i t e b.1

-- One operation: what it adds, and what it does to the maximum.
record Moves (s : LatencyStats) (t : Thread) (r : LatencyStats × Thread) : Type 0 where
  adds : (s.count + counted r.1) % 2 ^ 64 ≡ (r.0.count + counted t) % 2 ^ 64
  sums_up : (s.sum_ns + summed r.1) % 2 ^ 64 ≡ (r.0.sum_ns + summed t) % 2 ^ 64
  small : r.0.count < 2 ^ 64
  small_sum : r.0.sum_ns < 2 ^ 64
  same : ns_of r.1 ≡ ns_of t
  grows : s.max_ns ≤ r.0.max_ns
  owes : IsBelow r.0.max_ns r.1
  reached : r.0.max_ns ≤ max_of (ns_of t) s.max_ns

step_thread-Moves :
    (s : LatencyStats) (t : Thread)
    → s.count < 2 ^ 64
    → s.sum_ns < 2 ^ 64
    → IsBelow s.max_ns t
    → Moves s t (step_thread s t)
unfolding step_thread
step_thread-Moves s (counting ns) h k b = ground arith
step_thread-Moves s (summing ns) h k b = ground arith
step_thread-Moves s (loading ns) h k b = ground arith
step_thread-Moves s (comparing ns old) h k b = ground arith
step_thread-Moves s (finished ns) h k b = ground arith

put-IsConsistent :
    (s : Shared) (i : ℕ) (t : Thread) (r : LatencyStats × Thread)
    → IsConsistent s
    → get_elem? s.threads i ≡ some t
    → Moves s.stats t r
    → IsConsistent (put s i r)
put-IsConsistent s i t (stats, u) v e m = record {
  counts = omega (arith, total-set counted s.threads i t u e, v.counts, m.adds, m.small);
  sums = omega (arith, total-set summed s.threads i t u e, v.sums, m.sums_up, m.small_sum);
  below = IsBelow-set s.stats.max_ns stats.max_ns s.threads i u m.grows v.below m.owes;
  attained = ground (
    arith,
    maximum-set s.threads i t u e m.same,
    ns_of-le s.threads i t e,
    m.reached,
    v.attained,
  );
}

-- What no operation changes: the durations of the threads.
pub record IsSame (s t : Shared) : Type 0 where
  pub same_total : total ns_of t.threads ≡ total ns_of s.threads
  pub same_number : length t.threads ≡ length s.threads
  pub same_maximum : maximum t.threads ≡ maximum s.threads

length-set : {A : Type 0} (xs : List A) (i : ℕ) (x : A) → length (set xs i x) ≡ length xs
length-set [] i x = refl
length-set (y ∷ xs) zero x = refl
length-set (y ∷ xs) (suc i) x = ap suc (length-set xs i x)

step-IsConsistent :
    (s : Shared) (i : ℕ) → IsConsistent s → IsConsistent (step s i) × IsSame s (step s i)
step-IsConsistent s i v = elim (Option-cases (get_elem? s.threads i)) [
  | inl e ↦
      rw (e, step_found) (v, record { same_total = refl; same_number = refl; same_maximum = refl })
  | inr (t, e) ↦
      let r = step_thread s.stats t in
      let m =
        step_thread-Moves s.stats t (omega (arith, v.counts)) (omega (arith, v.sums))
          (IsBelow-get s.stats.max_ns s.threads i t e v.below) in
      rw (e, step_found)
        (
          put-IsConsistent s i t r v e m,
          record {
            same_total = omega (arith, total-set ns_of s.threads i t r.1 e, m.same);
            same_number = length-set s.threads i r.1;
            same_maximum = maximum-set s.threads i t r.1 e m.same;
          },
        )
]

run-IsConsistent :
    (s : Shared) (is : List ℕ) → IsConsistent s → IsConsistent (run s is) × IsSame s (run s is)
run-IsConsistent s [] v = (v, record { same_total = refl; same_number = refl; same_maximum = refl })
run-IsConsistent s (i ∷ is) v =
    let (w, same) = step-IsConsistent s i v in
    let (end, rest) = run-IsConsistent (step s i) is w in
    (
      end,
      record {
        same_total = rest.same_total ∙ same.same_total;
        same_number = rest.same_number ∙ same.same_number;
        same_maximum = rest.same_maximum ∙ same.same_maximum;
      },
    )

abbrev pub is_finished : Thread → Bool
is_finished (finished ns) = true
is_finished _ = false

abbrev pub all_finished : List Thread → Bool
all_finished [] = true
all_finished (t ∷ ts) = is_finished t && all_finished ts

abbrev pub starting : List ℕ → List Thread
starting [] = []
starting (ns ∷ nss) = counting ns ∷ starting nss

abbrev pub starts : List ℕ → Shared
starts nss = record { stats = record { count = 0; sum_ns = 0; max_ns = 0 }; threads = starting nss }

abbrev pub largest : List ℕ → ℕ
largest [] = 0
largest (ns ∷ nss) = max_of ns (largest nss)

record Totals (nss : List ℕ) : Type 0 where
  none_counted : total counted (starting nss) ≡ 0
  none_summed : total summed (starting nss) ≡ 0
  all_ns : total ns_of (starting nss) ≡ sum nss
  number : length (starting nss) ≡ length nss
  greatest : maximum (starting nss) ≡ largest nss
  owed : All (IsBelow 0) (starting nss)

starting-Totals : (nss : List ℕ) → Totals nss
starting-Totals [] = record {
  none_counted = refl;
  none_summed = refl;
  all_ns = refl;
  number = refl;
  greatest = refl;
  owed = tt;
}
starting-Totals (ns ∷ nss) =
    let t = starting-Totals nss in
    record {
      none_counted = omega (arith, t.none_counted);
      none_summed = omega (arith, t.none_summed);
      all_ns = ap (λ n. ns + n) t.all_ns;
      number = ap suc t.number;
      greatest = ap (max_of ns) t.greatest;
      owed = (omega arith, t.owed);
    }

record Ended (m : ℕ) (ts : List Thread) : Type 0 where
  every : total counted ts ≡ length ts
  whole : total summed ts ≡ total ns_of ts
  bound : maximum ts ≤ m

all_finished-Ended :
    (m : ℕ) (ts : List Thread) → all_finished ts ≡ true → All (IsBelow m) ts → Ended m ts
all_finished-Ended m [] f b = record { every = refl; whole = refl; bound = omega arith }
all_finished-Ended m (finished ns ∷ ts) f b =
    let e = all_finished-Ended m ts f b.1 in
    record {
      every = omega (arith, e.every);
      whole = ap (λ n. ns + n) e.whole;
      bound = ground (arith, e.bound, b.0);
    }
all_finished-Ended m (counting ns ∷ ts) f b = cc
all_finished-Ended m (summing ns ∷ ts) f b = cc
all_finished-Ended m (loading ns ∷ ts) f b = cc
all_finished-Ended m (comparing ns old ∷ ts) f b = cc

-- However the atomic operations of concurrent recordings interleave, once all of them have ended the
-- count is their number and the sum their sum, both modulo 2 ^ 64, and the maximum is the largest of
-- them: no compare-and-swap loses a larger value.
pub run-totals :
    (nss : List ℕ) (is : List ℕ)
    → all_finished (run (starts nss) is).threads ≡ true
    → let stats = (run (starts nss) is).stats in
      (stats.count ≡ length nss % 2 ^ 64)
      × (stats.sum_ns ≡ sum nss % 2 ^ 64)
      × (stats.max_ns ≡ largest nss)
run-totals nss is f =
    let t = starting-Totals nss in
    let s = run (starts nss) is in
    let start : IsConsistent (starts nss) = record {
      counts = omega (arith, t.none_counted);
      sums = omega (arith, t.none_summed);
      below = t.owed;
      attained = omega arith;
    } in
    let (v, same) = run-IsConsistent (starts nss) is start in
    let e = all_finished-Ended s.stats.max_ns s.threads f v.below in
    (
      omega (arith, v.counts, e.every, same.same_number, t.number),
      omega (arith, v.sums, e.whole, same.same_total, t.all_ns),
      omega (arith, v.attained, e.bound, same.same_maximum, t.greatest),
    )
