-- ===== src/Pdu/RailLaws.antt =====
-- What a rail's flags, fault and page say of its scans.
use open_skyhawk.Base.{
  Bool-cases, inl, inr, ℕ, ◌+◌, ◌*◌, ◌/◌, ◌%◌, ◌^◌, ◌≤◌, ◌<◌, ◌≡◌, Bool, true, false, List, [], ◌∷◌,
  arith, length, ◌==◌, ltb, if◌then◌else◌, ap,
}
use native.Mathlib.Nat.{le-div_iff_mul-le, div-lt_iff_lt-mul}
use open_skyhawk.Pdu.Latch.{reset}
use open_skyhawk.Pdu.Rail.{
  FaultCode, none, Config, RailMonitor, Scan, update_latches, update_stats, sample, flags,
  fault_code, v_avg, v_min, run,
}

abbrev pub is_none : FaultCode → Bool
is_none none = true
is_none _ = false

-- A rail reports a fault exactly when its flag byte is not zero.
pub fault_code-flags : (m : RailMonitor) → is_none (fault_code m) ≡ (flags m == 0)
unfolding fault_code flags
fault_code-flags m = ground arith

-- A scan during power-up blanking holds every flag clear, whatever was wrong before it and whatever it
-- measures; the measurements are kept.
pub sample_disarmed :
    (cfg : Config) (s : Scan) (m : RailMonitor)
    → s.armed ≡ false
    → (flags (sample cfg s m) ≡ 0)
      × (fault_code (sample cfg s m) ≡ none)
      × ((sample cfg s m).last_mv ≡ s.v_mv)
      × ((sample cfg s m).n ≡ (m.n + 1) % 2 ^ 32)
unfolding sample update_stats flags fault_code reset
sample_disarmed cfg s m h = (ground arith, ground arith, ground arith, ground arith)

-- the voltage statistics of a window
record Window (m : RailMonitor) : Type 0 where
  floor : m.min_mv * m.n ≤ m.sum_mv
  ceiling : m.sum_mv ≤ 65535 * m.n
  top : m.min_mv ≤ 65535

abbrev pub InRange : List Scan → Type 0
InRange [] = Unit
InRange (s ∷ ss) = (s.v_mv ≤ 65535) × InRange ss

floor_step : (v m n sum : ℕ) → m * n ≤ sum → (if ltb v m then v else m) * (n + 1) ≤ sum + v
floor_step v m n sum h = elim (Bool-cases (ltb v m)) [
  | inl e ↦ let less : v * n ≤ m * n = mul_mono v m n (ground arith) in rw e (omega (arith, less))
  | inr e ↦ let more : m ≤ v = ground arith in rw e (omega arith)
]
  where
    mul_mono : (v m n : ℕ) → v ≤ m → v * n ≤ m * n
    mul_mono v m n h = grind arith

update_stats-Window :
    (s : Scan) (m : RailMonitor)
    → s.v_mv ≤ 65535
    → m.n < 65536
    → Window m
    → Window (update_stats s m)
unfolding update_stats
update_stats-Window s m p q w =
    let sum : (m.sum_mv + s.v_mv) % 2 ^ 32 ≡ m.sum_mv + s.v_mv = omega (arith, w.ceiling) in
    let n : (m.n + 1) % 2 ^ 32 ≡ m.n + 1 = omega arith in
    record {
      floor = rw (sum, n) (floor_step s.v_mv m.min_mv m.n m.sum_mv w.floor);
      ceiling = rw (sum, n) (omega (arith, w.ceiling));
      top = ground (arith, w.top);
    }

-- The latches leave the statistics alone.
sample-stats :
    (cfg : Config) (s : Scan) (m : RailMonitor)
    → ((sample cfg s m).min_mv ≡ (update_stats s m).min_mv)
      × ((sample cfg s m).n ≡ (update_stats s m).n)
      × ((sample cfg s m).sum_mv ≡ (update_stats s m).sum_mv)
unfolding sample update_latches
sample-stats cfg s m = (ground arith, ground arith, ground arith)

sample-Window :
    (cfg : Config) (s : Scan) (m : RailMonitor)
    → s.v_mv ≤ 65535
    → m.n < 65536
    → Window m
    → Window (sample cfg s m)
sample-Window cfg s m p q w =
    let (min, n, sum) = sample-stats cfg s m in
    let k = update_stats-Window s m p q w in
    record { floor = rw (min, n, sum) k.floor; ceiling = rw (n, sum) k.ceiling; top = rw min k.top }

sample-n : (cfg : Config) (s : Scan) (m : RailMonitor) → (sample cfg s m).n ≤ m.n + 1
unfolding update_stats
sample-n cfg s m = omega (arith, (sample-stats cfg s m).1)

run-Window :
    (cfg : Config) (ss : List Scan) (m : RailMonitor)
    → InRange ss
    → m.n + length ss ≤ 65536
    → Window m
    → Window (run cfg ss m) × ((run cfg ss m).n ≤ m.n + length ss)
unfolding run
run-Window cfg [] m r l w = (w, omega arith)
run-Window cfg (s ∷ ss) m r l w =
    let one = sample-n cfg s m in
    let (k, n) =
      run-Window cfg ss (sample cfg s m) r.1 (omega (arith, one))
        (sample-Window cfg s m r.0 (omega arith) w) in
    (k, omega (arith, n, one))

quotient : (a n sum : ℕ) → 0 < n → a * n ≤ sum → a ≤ sum / n
quotient a n sum p h = (le-div_iff_mul-le p).1 h

quotient_top : (n sum : ℕ) → 0 < n → sum ≤ 65535 * n → sum / n < 65536
quotient_top n sum p h = (div-lt_iff_lt-mul p).1 (omega (arith, p))

average :
    (m : RailMonitor)
    → Window m
    → (if m.n == 0 then m.last_mv else m.min_mv)
      ≤ (if m.n == 0 then m.last_mv else m.sum_mv / m.n % 2 ^ 16)
average m w = elim (Bool-cases (m.n == 0)) [
  | inl e ↦ rw e (omega arith)
  | inr e ↦
      let some : 0 < m.n = ground arith in
      let a = quotient m.min_mv m.n m.sum_mv some w.floor in
      let b = quotient_top m.n m.sum_mv some w.ceiling in rw e (omega (arith, a, b))
]

-- The page of a window of fewer than 65536 scans, each of a 16-bit voltage, that starts afresh: its
-- minimum is at most its average.
pub v_min-le-v_avg :
    (cfg : Config) (ss : List Scan) (m : RailMonitor)
    → InRange ss
    → length ss < 65536
    → m.n ≡ 0
    → m.sum_mv ≡ 0
    → m.min_mv ≡ 65535
    → v_min (run cfg ss m) ≤ v_avg (run cfg ss m)
unfolding v_min v_avg
v_min-le-v_avg cfg ss m r l n sum min =
    let start : Window m = record {
      floor = omega (arith, n, sum, ap (λ x. m.min_mv * x) n);
      ceiling = omega arith;
      top = omega arith;
    } in
    let (w, _) = run-Window cfg ss m r (omega arith) start in average (run cfg ss m) w
