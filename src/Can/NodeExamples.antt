-- ===== src/Can/NodeExamples.antt =====
-- A node's received frames and its WARNING latch at concrete frames and times.
use open_skyhawk.Base.{ℕ, ◌≡◌, refl, true, false, List, [], ◌∷◌, some, arith}
use open_skyhawk.Can.Node.{Build, Node, starting}
use open_skyhawk.Can.Receive.{Arrival, Reads, rx_loop}
use open_skyhawk.Can.Service.{Call}
use open_skyhawk.Can.Run.{NodeEvent, start, ready, drained, serviced}
use open_skyhawk.Can.Fifo.{Shows}
use open_skyhawk.Can.Queue.{plain, queue_loop, Refines, rx_loop-queue_loop}
use open_skyhawk.Can.Heat.{too_hot, hot_after}

abbrev build : Build
build = record {
  node_id = 5;
  rx_ring_size = 8;
  batch_hold_ms = 0;
  overheat_c = some 80;
  fw_major = 1;
  fw_minor = 2;
  fw_patch = 3;
  bootloader = 1;
}

abbrev pub off : Node
off = record {
  rx_ring = λ i. record { can_id = 0; bytes = [] };
  rx_head = 0;
  rx_tail = 0;
  rx_drops = 0;
  rx_overruns = 0;
  batches = [];
  ready_sent = false;
  resync_pending = false;
  resync_since_ms = 0;
  status = starting;
  loopback = false;
  own_hb_loop_pending = 0;
  status_armed = false;
  last_hb_ms = 0;
  last_health_ms = 0;
  last_health = record { die_temp = 0x80; flags = 0; fault_id = 0; node_kind = 0 };
  last_master_ms = 0;
  ever_saw_master = false;
  master_hb_pending = false;
  master_lost = false;
  overheat = false;
  warn_asserted = false;
  last_dup_ms = 0;
  dup_seen = false;
  out = [];
}

-- the ring's last place is next
abbrev wrapping : Node
wrapping = record off { rx_head = 7; rx_tail = 7 }

-- a SYNC_REQ, and before the second turn the master's heartbeat
abbrev turns : List (Arrival × ℕ)
turns =
    (record { overrun = false; fifo = record { can_id = 0x012; bytes = 5 ∷ [] } ∷ [] }, 10)
    ∷ (record { overrun = true; fifo = record { can_id = 0x100; bytes = 0 ∷ [] } ∷ [] }, 11)
    ∷ (record { overrun = false; fifo = [] }, 12)
    ∷ []

wrapping-Shows : Shows 8 wrapping []
wrapping-Shows = record { ring = refl; room = omega arith; head = omega arith; tail = omega arith }

rx_loop-queue_loop_example :
    Refines build (rx_loop build turns wrapping) (queue_loop build turns [] (plain wrapping))
rx_loop-queue_loop_example = rx_loop-queue_loop build turns [] wrapping wrapping-Shows

abbrev quiet : Reads
quiet = record {
  first = record { overrun = false; fifo = [] };
  tx_idle = true;
  now = 10;
  turns = turns;
  late = 13;
  esr = 0;
}

abbrev at_time : ℕ → Call
at_time t = record { now = t; kind = 1; rx_count = 2; esr = 0; die_temp = 25; sources = [] }

-- the master is heard once, and silent for two seconds
abbrev events : List NodeEvent
events = start false ∷ ready ∷ serviced (at_time 5) ∷ drained quiet ∷ serviced (at_time 20) ∷ []

-- at 80 °C the board is too hot, at -1 °C it is not
hot_cold :
    (hot_after build (record (at_time 2020) { die_temp = 80 }) (record off { status_armed = true })
      ≡ true)
    × (hot_after build
          (record (at_time 2020) { die_temp = 255 })
          (record off { status_armed = true })
        ≡ false)
unfolding hot_after too_hot
hot_cold = (refl, refl)
