-- ===== src/Pdu/Examples.antt =====
-- The monitor's theorems at concrete scans.
use open_skyhawk.Base.{ℕ, ◌≤◌, ◌≡◌, refl, true, false, List, [], ◌∷◌, arith, length, ◌==◌}
use open_skyhawk.Base.Int.{pos, negsuc, ◌+ℤ◌}
use open_skyhawk.Pdu.Latch
use open_skyhawk.Pdu.Latch.{Latch, Sample, update, elapsed, run_short, run_lasting}
use open_skyhawk.Pdu.Rail.{
  Config, RailMonitor, Scan, sample, flags, fault_code, v_min, v_avg, build_page,
}
use open_skyhawk.Pdu.Rail
use open_skyhawk.Pdu.RailLaws.{is_none, fault_code-flags, v_min-le-v_avg}
use open_skyhawk.Pdu.Thermal.{BoardThermal, Reading}
use open_skyhawk.Pdu.Schedule.{
  TelemSchedule, telem_start, telem_next, telem_sent, Event, poll, sent, first_edge, periodic_slots,
  rotation, periodic_slots_rotate,
}

abbrev idle : Latch
idle = record { on = false; pending = false; since = 0 }

abbrev dip : List Sample
dip =
    record { cond = true; clear = false; now = 1000 }
    ∷ record { cond = true; clear = false; now = 1040 }
    ∷ []

run_short_example : (Latch.run 50 500 idle dip).on ≡ false
run_short_example = run_short 50 500 1000 dip idle (omega arith) refl refl (omega arith)

abbrev waiting : Latch
waiting = record { on = false; pending = true; since = 1000 }

abbrev rail_12v : Config
rail_12v = record { page = 1; uv_mv = 11000; ov_mv = 13000; oc_ma = 5000; fuse_open_check = true }

abbrev fresh : RailMonitor
fresh = record {
  uv = idle;
  ov = idle;
  oc = idle;
  fuse = idle;
  sensor = idle;
  sum_mv = 0;
  sum_ma = pos 0;
  n = 0;
  min_mv = 65535;
  peak_ma = 0;
  last_mv = 0;
  last_ma = pos 0;
}

abbrev tripped : RailMonitor
tripped = record fresh { fuse = record { on = true; pending = false; since = 7 } }

abbrev first_scan : Scan
first_scan = record { v_mv = 12000; i_ma = pos 800; v_railed = false; now_ms = 10; armed = false }

abbrev second_scan : Scan
second_scan = record { v_mv = 10000; i_ma = negsuc 3; v_railed = false; now_ms = 20; armed = true }

fault_code-flags_example : is_none (fault_code tripped) ≡ (flags tripped == 0)
fault_code-flags_example = fault_code-flags tripped

v_min-le-v_avg_example :
    v_min (Rail.run rail_12v (first_scan ∷ second_scan ∷ []) fresh)
    ≤ v_avg (Rail.run rail_12v (first_scan ∷ second_scan ∷ []) fresh)
v_min-le-v_avg_example =
    v_min-le-v_avg rail_12v (first_scan ∷ second_scan ∷ []) fresh (omega arith) (omega arith) refl
      refl refl

page_bytes :
    (build_page rail_12v true (Rail.run rail_12v (first_scan ∷ second_scan ∷ []) fresh)).0
    ≡ 1 ∷ 0 ∷ 248 ∷ 42 ∷ 16 ∷ 39 ∷ 142 ∷ 1 ∷ []
unfolding build_page Rail.run flags v_avg v_min Rail.i_avg sample Rail.clamp_i16 Rail.update_latches
    update Rail.update_stats Latch.reset ◌+ℤ◌
page_bytes = refl

abbrev hot : BoardThermal
hot = record { temp_dc = pos 760; warn = true; crit = true; ntc_fault = false }

abbrev cool : BoardThermal
cool = record { temp_dc = pos 200; warn = false; crit = false; ntc_fault = false }

abbrev cool_readings : List Reading
cool_readings = record { temp = pos 749; failed = false; armed = true } ∷ []

abbrev booted : TelemSchedule
booted = record {
  last_periodic = 5000;
  rr = 0;
  last_sent = 4900 ∷ 4900 ∷ 4900 ∷ [];
  last_flags = 0 ∷ 0 ∷ 0 ∷ [];
}

booted_start : telem_start 5000 ≡ booted
unfolding telem_start
booted_start = refl

abbrev clear : List ℕ
clear = 0 ∷ 0 ∷ 0 ∷ []

abbrev polls : List Event
polls =
    poll 6000 clear
    ∷ sent 0 0 6000
    ∷ poll 6500 clear
    ∷ poll 9000 clear
    ∷ poll 9999 clear
    ∷ poll 10001 clear
    ∷ []

periodic_slots_rotate_example :
    periodic_slots booted polls ≡ rotation booted.rr (length (periodic_slots booted polls))
periodic_slots_rotate_example = periodic_slots_rotate polls booted

polls_rotate : periodic_slots booted polls ≡ 0 ∷ 1 ∷ 2 ∷ []
unfolding periodic_slots telem_next telem_sent first_edge
polls_rotate = refl
