-- ===== src/Pdu/Rail.antt =====
-- `RailMonitor` (PowerMonitor/RailMonitor.h and .cpp) and the clamps of PduMath.cpp.
use open_skyhawk.Base.{
  ℕ, zero, suc, ◌+◌, ◌-◌, ◌*◌, ◌/◌, ◌%◌, ◌^◌, Bool, not, List, [], ◌∷◌, bit_or, ◌==◌, ltb,
  if◌then◌else◌,
}
use open_skyhawk.Base.Int.{ℤ, pos, negsuc, ◌+ℤ◌, ltb_ℤ}
use open_skyhawk.Pdu.Latch.{Latch, update, reset}

-- `enum class NodeFaultCode`
pub data FaultCode : Type 0 where
  none i2c_peripheral over_voltage under_voltage short_circuit host_link_lost fuse_open : FaultCode
  over_temperature sensor_fault duplicate_node_id : FaultCode

-- PDU_V_HYST_MV, PDU_V_SET_MS, PDU_OC_SET_MS, PDU_CLEAR_MS and PDU_FUSE_OPEN_MV at their defaults
abbrev pub v_hyst_mv : ℕ
v_hyst_mv = 100

abbrev pub v_set_ms : ℕ
v_set_ms = 50

abbrev pub oc_set_ms : ℕ
oc_set_ms = 100

abbrev pub clear_ms : ℕ
clear_ms = 500

abbrev pub fuse_open_mv : ℕ
fuse_open_mv = 1000

-- `RailMonitor::Config`, without the rail's name, which only faultDetail() prints
pub record Config : Type 0 where
  pub page : ℕ
  pub uv_mv : ℕ
  pub ov_mv : ℕ
  pub oc_ma : ℕ
  pub fuse_open_check : Bool

-- The signed sums and currents are integers; the C++ leaves their overflow undefined. The
-- divisor `(int32_t)_n` is `n` below 2 ^ 31.
pub record RailMonitor : Type 0 where
  pub uv : Latch
  pub ov : Latch
  pub oc : Latch
  pub fuse : Latch
  pub sensor : Latch
  pub sum_mv : ℕ
  pub sum_ma : ℤ
  pub n : ℕ
  pub min_mv : ℕ
  pub peak_ma : ℕ
  pub last_mv : ℕ
  pub last_ma : ℤ

-- `clampI16`
unfoldable pub clamp_i16 : ℤ → ℤ
clamp_i16 (pos v) = if ltb 32767 v then pos 32767 else pos v
clamp_i16 (negsuc v) = if ltb 32767 v then negsuc 32767 else negsuc v

-- `clampU16`
unfoldable pub clamp_u16 : ℤ → ℕ
clamp_u16 (pos v) = if ltb 65535 v then 65535 else v
clamp_u16 (negsuc v) = 0

-- `(uint16_t)v` of an int16_t
abbrev pub u16_of : ℤ → ℕ
u16_of (pos v) = v % 2 ^ 16
u16_of (negsuc v) = 2 ^ 16 - 1 - v % 2 ^ 16

-- `v / n` of C++, towards zero
abbrev pub neg : ℕ → ℤ
neg zero = pos 0
neg (suc n) = negsuc n

abbrev pub div_ℤ : ℤ → ℕ → ℤ
div_ℤ (pos v) n = pos (v / n)
div_ℤ (negsuc v) n = neg ((v + 1) / n)

-- one sample of a scan
pub record Scan : Type 0 where
  pub v_mv : ℕ
  pub i_ma : ℤ
  pub v_railed : Bool
  pub now_ms : ℕ
  pub armed : Bool

-- the five latches on an armed scan
unfoldable pub update_latches : Config → Scan → RailMonitor → RailMonitor
update_latches cfg s m =
    let v = s.v_mv in
    record m {
      uv = update (ltb v cfg.uv_mv) (ltb (cfg.uv_mv + v_hyst_mv) v) v_set_ms clear_ms s.now_ms m.uv;
      ov = update (ltb cfg.ov_mv v) (ltb (v + v_hyst_mv) cfg.ov_mv) v_set_ms clear_ms s.now_ms m.ov;
      oc =
          update (ltb_ℤ (pos cfg.oc_ma) s.i_ma) (ltb_ℤ s.i_ma (pos (cfg.oc_ma * 9 / 10))) oc_set_ms
            clear_ms s.now_ms m.oc;
      fuse =
          if cfg.fuse_open_check
          then update (ltb v fuse_open_mv) (ltb (fuse_open_mv + v_hyst_mv) v) v_set_ms clear_ms
              s.now_ms m.fuse
          else m.fuse;
      sensor = update s.v_railed (not s.v_railed) v_set_ms clear_ms s.now_ms m.sensor;
    }

-- the statistics, which run armed or not
unfoldable pub update_stats : Scan → RailMonitor → RailMonitor
update_stats s m = record m {
  last_mv = s.v_mv;
  last_ma = s.i_ma;
  sum_mv = (m.sum_mv + s.v_mv) % 2 ^ 32;
  sum_ma = m.sum_ma +ℤ s.i_ma;
  n = (m.n + 1) % 2 ^ 32;
  min_mv = if ltb s.v_mv m.min_mv then s.v_mv else m.min_mv;
  peak_ma = if ltb_ℤ (pos m.peak_ma) s.i_ma then clamp_u16 s.i_ma else m.peak_ma;
}

-- `sample(vMv, iMa, vRailed, nowMs, armed)`
unfoldable pub sample : Config → Scan → RailMonitor → RailMonitor
sample cfg s m =
    let m = update_stats s m in
    if not s.armed
    then record m {
      uv = reset m.uv;
      ov = reset m.ov;
      oc = reset m.oc;
      fuse = reset m.fuse;
      sensor = reset m.sensor;
    }
    else update_latches cfg s m

abbrev pub flag : Bool → ℕ → ℕ → ℕ
flag on bit f = if on then bit_or f bit else f

-- `flags()`
unfoldable pub flags : RailMonitor → ℕ
flags m =
    flag m.sensor.on 0x10
      (flag m.fuse.on 0x08 (flag m.oc.on 0x04 (flag m.ov.on 0x02 (flag m.uv.on 0x01 0))))

-- `faultCode()`
unfoldable pub fault_code : RailMonitor → FaultCode
fault_code m =
    if m.fuse.on
    then fuse_open
    else if m.oc.on
    then short_circuit
    else if m.ov.on
    then over_voltage
    else if m.uv.on
    then under_voltage
    else if m.sensor.on
    then sensor_fault
    else none

-- the three measured fields of a page
unfoldable pub v_avg : RailMonitor → ℕ
v_avg m = if m.n == 0 then m.last_mv else m.sum_mv / m.n % 2 ^ 16

unfoldable pub v_min : RailMonitor → ℕ
v_min m = if m.n == 0 then m.last_mv else m.min_mv

unfoldable pub i_avg : RailMonitor → ℤ
i_avg m = clamp_i16 (if m.n == 0 then m.last_ma else div_ℤ m.sum_ma m.n)

-- `putLe16`
abbrev pub put_le16 : ℕ → List ℕ → List ℕ
put_le16 v rest = v % 256 ∷ v / 256 % 256 ∷ rest

-- `buildPage(resetWindow)`: the frame's bytes and the monitor after it
unfoldable pub build_page : Config → Bool → RailMonitor → List ℕ × RailMonitor
build_page cfg reset_window m = (
  cfg.page ∷ flags m ∷ put_le16 (v_avg m) (put_le16 (v_min m) (put_le16 (u16_of (i_avg m)) [])),
  if reset_window then record m { sum_mv = 0; sum_ma = pos 0; n = 0; min_mv = 65535 } else m,
)

-- the monitor over the scans since a page
unfoldable pub run : Config → List Scan → RailMonitor → RailMonitor
run cfg [] m = m
run cfg (s ∷ ss) m = run cfg ss (sample cfg s m)
