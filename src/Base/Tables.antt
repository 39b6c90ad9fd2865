-- ===== src/Base/Tables.antt =====
-- Checking every value of a small range by evaluation.
use Prim.Native.Nat.{ℕ, zero, suc, ◌+◌, ◌<◌}
use mathlib.Core.Path.{◌≡◌}
use mathlib.Core.Bool.{Bool, true, ◌&&◌}
use native.Mathlib.Omega.{arith}

-- The test holds from `i` on, for a count of numbers.
unfoldable pub holds_from : (ℕ → Bool) → ℕ → ℕ → Bool
holds_from test i zero = true
holds_from test i (suc count) = test i && holds_from test (i + 1) count

module _ (test : ℕ → Bool) where
  from_table : (count i k : ℕ) → holds_from test i count ≡ true → k < count → test (i + k) ≡ true
  unfolding holds_from
  from_table zero i k e l = absurd (omega arith)
  from_table (suc count) i zero e l = ground arith
  from_table (suc count) i (suc k) e l = ground (arith, from_table count (i + 1) k)

  -- A table that was evaluated gives the test at each number below its size.
  pub at_table : (size : ℕ) {k : ℕ} → holds_from test 0 size ≡ true → k < size → test k ≡ true
  at_table size {k} e l = ground (arith, from_table size 0 k)
