-- ===== src/Pdu/Thermal.antt =====
-- `BoardThermal` (PowerMonitor/BoardThermal.h and .cpp): the board's temperature and its flags.
use open_skyhawk.Base.{
  ℕ, ◌-◌, ◌≡◌, ◌⊎◌, Bool, true, false, List, [], ◌∷◌, arith, bit_or, not, if◌then◌else◌,
}
use open_skyhawk.Base.Int.{ℤ, pos, negsuc, ltb_ℤ, ◌≤ℤ◌}
use open_skyhawk.Pdu.Rail.{FaultCode, none, over_temperature, sensor_fault}

-- NTC_TEMP_UNAVAILABLE, the least int16_t
abbrev pub ntc_temp_unavailable : ℤ
ntc_temp_unavailable = negsuc 32767

-- PDU_TEMP_WARN_DC, PDU_TEMP_CRIT_DC and PDU_TEMP_HYST_DC, in tenths of a degree
abbrev pub temp_warn_dc : ℕ
temp_warn_dc = 600

abbrev pub temp_crit_dc : ℕ
temp_crit_dc = 750

abbrev pub temp_hyst_dc : ℕ
temp_hyst_dc = 30

pub record BoardThermal : Type 0 where
  pub temp_dc : ℤ
  pub warn : Bool
  pub crit : Bool
  pub ntc_fault : Bool

-- a limit with hysteresis: what an alarm becomes at a temperature
abbrev pub alarm : ℕ → ℤ → Bool → Bool
alarm limit t on = if on then ltb_ℤ (pos (limit - temp_hyst_dc)) t else not (ltb_ℤ t (pos limit))

-- `sample(tempDC, ntcFault, armed)`
unfoldable pub thermal_sample : ℤ → Bool → Bool → BoardThermal → BoardThermal
thermal_sample t ntc_fault armed b =
    let b = record b { temp_dc = if ntc_fault then ntc_temp_unavailable else t } in
    if not armed
    then record b { warn = false; crit = false; ntc_fault = false }
    else (let b = record b { ntc_fault = ntc_fault } in
        if ntc_fault
        then b
        else record b { warn = alarm temp_warn_dc t b.warn; crit = alarm temp_crit_dc t b.crit })

-- `flags()`
unfoldable pub thermal_flags : BoardThermal → ℕ
thermal_flags b =
    let f = if b.warn then 0x04 else 0 in
    let f = if b.crit then bit_or f 0x08 else f in if b.ntc_fault then bit_or f 0x10 else f

-- `faultCode()`
unfoldable pub thermal_fault_code : BoardThermal → FaultCode
thermal_fault_code b =
    if b.crit then over_temperature else if b.ntc_fault then sensor_fault else none

-- one reading: the temperature, whether the sensor failed, and whether the monitor is armed
pub record Reading : Type 0 where
  pub temp : ℤ
  pub failed : Bool
  pub armed : Bool

-- the monitor over a list of readings
unfoldable pub readings : BoardThermal → List Reading → BoardThermal
readings b [] = b
readings b (r ∷ rs) = readings (thermal_sample r.temp r.failed r.armed b) rs

abbrev pub Hot : List Reading → Type 0
Hot [] = Unit
Hot (r ∷ rs) = (r.armed ≡ true) × ((r.failed ≡ true) ⊎ (pos 721 ≤ℤ r.temp)) × Hot rs

abbrev pub Cool : List Reading → Type 0
Cool [] = Unit
Cool (r ∷ rs) = ((r.armed ≡ false) ⊎ (r.failed ≡ true) ⊎ (r.temp ≤ℤ pos 749)) × Cool rs

-- A critical board stays critical over any armed readings that each are a sensor failure or above
-- 72.0 °C, the limit less the hysteresis, and reports over-temperature.
pub readings-Hot :
    (b : BoardThermal) (rs : List Reading)
    → b.crit ≡ true
    → Hot rs
    → ((readings b rs).crit ≡ true) × (thermal_fault_code (readings b rs) ≡ over_temperature)
unfolding readings thermal_sample thermal_fault_code
readings-Hot b [] c h = (c, ground arith)
readings-Hot b (r ∷ rs) c h =
    readings-Hot (thermal_sample r.temp r.failed r.armed b) rs (ground arith) h.2

-- A board that is not critical does not become so over readings that each are unarmed, a sensor
-- failure, or below 75.0 °C.
pub readings-Cool :
    (b : BoardThermal) (rs : List Reading) → b.crit ≡ false → Cool rs → (readings b rs).crit ≡ false
unfolding readings thermal_sample
readings-Cool b [] c h = c
readings-Cool b (r ∷ rs) c h =
    readings-Cool (thermal_sample r.temp r.failed r.armed b) rs (ground arith) h.1
