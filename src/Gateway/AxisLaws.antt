-- ===== src/Gateway/AxisLaws.antt =====
-- The mapping of an axis (AxisCal.cpp): its range and its direction.
use native.Mathlib.Nat.{le-div_iff_mul-le, div-lt_iff_lt-mul, div-mul-le_self}
use open_skyhawk.Base.{ℕ, ◌-◌, ◌*◌, ◌/◌, ◌≤◌, ◌<◌, arith, Bool-cases, inl, inr}
use open_skyhawk.Gateway.AxisCal.{AxisCal, axis_cal_valid, axis_cal_apply}

quotient_mono : (a b k : ℕ) → 0 < k → a ≤ b → a / k ≤ b / k
quotient_mono a b k p l =
    let least = div-mul-le_self a k in (le-div_iff_mul-le p).1 (omega (arith, least))

-- The segments of an axis: below its centre and above.
lower_below : (d k : ℕ) → d < k → d * 32768 / k < 32768
lower_below d k l = (div-lt_iff_lt-mul (omega arith)).1 (omega arith)

upper_below : (d k : ℕ) → d < k → d * 32767 / k < 32767
upper_below d k l = (div-lt_iff_lt-mul (omega arith)).1 (omega arith)

-- Of two raw values the higher one, which is below 65536, never gives a lower axis value, whatever the
-- calibration, and its axis value is below 65536.
pub axis_cal_apply_mono :
    (c : AxisCal) (a b : ℕ)
    → a ≤ b
    → b < 65536
    → (axis_cal_apply c a ≤ axis_cal_apply c b) × (axis_cal_apply c b < 65536)
unfolding axis_cal_apply axis_cal_valid
axis_cal_apply_mono c a b l h = elim (Bool-cases (axis_cal_valid c)) [
  | inr e ↦ ground (arith, e)
  | inl e ↦
      let low : c.min < c.centre = ground (arith, e) in
      let high : c.centre < c.max = ground (arith, e) in
      let lows =
        quotient_mono ((a - c.min) * 32768) ((b - c.min) * 32768) (c.centre - c.min) (omega arith)
          (omega arith) in
      let highs =
        quotient_mono ((a - c.centre) * 32767) ((b - c.centre) * 32767) (c.max - c.centre)
          (omega arith) (omega arith) in
      let low_end = λ (x : ℕ) (i : x - c.min < c.centre - c.min).
        lower_below (x - c.min) (c.centre - c.min) i in
      let high_end = λ (x : ℕ) (i : x - c.centre < c.max - c.centre).
        upper_below (x - c.centre) (c.max - c.centre) i in
      ground (arith, e, lows, highs, low_end a, low_end b, high_end a, high_end b)
]
