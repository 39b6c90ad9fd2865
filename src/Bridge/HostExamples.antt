-- ===== src/Bridge/HostExamples.antt =====
-- The bridge and the uploader at concrete nodes, frames and entries.
use open_skyhawk.Base.{
  ℕ, zero, suc, ◌≡◌, refl, true, false, List, [], ◌∷◌, ◌||◌, none, some, inl, arith, replicate,
}
use open_skyhawk.Upload.Examples.{fresh}
use open_skyhawk.Bridge.State.{put, no_node, Bridge, row_from}
use open_skyhawk.Bridge.Rows.{Row, node_row, emit_boot_rsp}
use open_skyhawk.Bridge.Nodes.{emit_all_nodes}
use open_skyhawk.Bridge.Sync.{service_roster}
use open_skyhawk.Bridge.Dispatch.{DcsBiosInputEntry, lookup_dcs_entry}
use open_skyhawk.Bridge.Loop.{Event, can_rx, export_write, loop_pass, bridge_run}
use open_skyhawk.Bridge.Dead.{Tracks, dead_total}
use open_skyhawk.Bridge.Warning.{hot_passes, hot_last, run-Tracks}
use open_skyhawk.Bridge.Heard.{heard}
use open_skyhawk.Bridge.Hex.{seen_of}
use open_skyhawk.Bridge.BootLine.{heard-emit_boot_rsp}
use open_skyhawk.Can.Service.{Call}
use open_skyhawk.Can.NodeExamples.{off}
use open_skyhawk.Can.Node.{Build, Node, Health, can_id_hb, can_id_health, can_id_ready}
use open_skyhawk.Can.Payloads.{is_hot, make_heartbeat_payload, make_ready_payload, health_bytes}
use open_skyhawk.Bridge.State.{node}
use open_skyhawk.Bridge.Receive.{on_can_rx}
use open_skyhawk.Bridge.Reports.{HasVersions, on_can_rx-reports}
use open_skyhawk.Bridge.Roster.{service_roster-known}
use open_skyhawk.Bridge.Lookup.{Ascends, find_entry, lookup_dcs_entry-find_entry}
use open_skyhawk.Upload.Reply.{on_boot_reply}

abbrev started : Bridge
started = record {
  nodes = λ i. no_node;
  dead_count = 0;
  warning = false;
  roster_pending = false;
  roster_next = row_from 0;
  roster_count = 0;
  sync_queue = λ i. false;
  syncing = 0;
  sync_sent_ms = 0;
  last_model_time_sec = none;
  model_time = [];
  model_time_dirty = false;
  relay = record { f = []; need = 0; esc = false };
  out = [];
}

abbrev own : Row
own = node_row 0 true no_node

abbrev controls : List DcsBiosInputEntry
controls =
    record { cmd_id = 0x8001; name = b'A' ∷ [] }
    ∷ record { cmd_id = 0x8004; name = b'G' ∷ [] }
    ∷ record { cmd_id = 0x8010; name = b'L' ∷ [] }
    ∷ []

-- the bridge's own build and CANProtocol's state, and a call of the service
abbrev bridge_build : Build
bridge_build = record {
  node_id = 0;
  rx_ring_size = 32;
  batch_hold_ms = 0;
  overheat_c = some 80;
  fw_major = 1;
  fw_minor = 0;
  fw_patch = 0;
  bootloader = 1;
}

abbrev serving : Node
serving = record off { status_armed = true }

abbrev at_heat : ℕ → ℕ → Call
at_heat t c = record { now = t; kind = 3; rx_count = 0; esr = 0; die_temp = c; sources = [] }

-- node 3 is heard, asks for a sync, times out, and is forgotten by the host; then the bridge is hot
abbrev events : List (Event × ℕ)
events =
    (can_rx 0x103 (0 ∷ 0 ∷ 0 ∷ 5 ∷ 0 ∷ 6 ∷ 0 ∷ 0 ∷ []), 10)
    ∷ (loop_pass (true ∷ []) own (at_heat 11 25) serving, 11)
    ∷ (loop_pass (true ∷ []) own (at_heat 4000 25) serving, 4000)
    ∷ (export_write 0x7FF4 3, 4001)
    ∷ (loop_pass (true ∷ []) own (at_heat 5000 90) serving, 5000)
    ∷ []

started-Tracks : Tracks false started
unfolding dead_total
started-Tracks = record { counted = refl; lit = refl; seen = λ i. inl refl }

run-Tracks_example :
    (let e = bridge_run bridge_build controls 0x0436 events started in
      Tracks (hot_passes bridge_build events) e
      × (e.warning ≡ (e.warning || hot_last bridge_build events)))
run-Tracks_example =
    run-Tracks bridge_build refl controls 0x0436 events false started started-Tracks

-- the last pass finds it too hot
events_hot : hot_last bridge_build events ≡ true
unfolding hot_last is_hot
events_hot = refl

-- node 3 is alive, of version 2
abbrev met : Bridge
met = record started { nodes = put started.nodes 2 (record no_node { alive = true; fw_major = 2 }) }

service_roster-known_example :
    (let e = service_roster (replicate 65 true) own (emit_all_nodes met) in
      (e.roster_pending ≡ false)
      × ((heard e.out 20 fresh).seen 3 ≡ seen_of (node_row 3 true (met.nodes 2)) 20))
service_roster-known_example =
    service_roster-known 20 65 fresh own met 2 (omega arith) (omega arith) refl

heard-emit_boot_rsp_example :
    heard (emit_boot_rsp 0x783 (1 ∷ 2 ∷ []) started).out 20 fresh
    ≡ on_boot_reply 0x783 (1 ∷ 2 ∷ []) 20 fresh
unfolding heard
heard-emit_boot_rsp_example =
    heard-emit_boot_rsp 0x783 (1 ∷ 2 ∷ []) 20 fresh started (omega arith) (omega arith)

controls-Ascends : Ascends controls
controls-Ascends zero (suc zero) l h = omega arith
controls-Ascends zero (suc (suc zero)) l h = omega arith
controls-Ascends (suc zero) (suc (suc zero)) l h = omega arith
controls-Ascends i (suc (suc (suc j))) l h = absurd (omega arith)
controls-Ascends i j l h = absurd (omega arith)

lookup_dcs_entry-find_entry_example : lookup_dcs_entry controls 0x8004 ≡ find_entry controls 0x8004
lookup_dcs_entry-find_entry_example = lookup_dcs_entry-find_entry controls 0x8004 controls-Ascends

abbrev panel : Build
panel = record {
  node_id = 3;
  rx_ring_size = 8;
  batch_hold_ms = 0;
  overheat_c = none;
  fw_major = 1;
  fw_minor = 4;
  fw_patch = 2;
  bootloader = 1;
}

abbrev warm : Health
warm = record { die_temp = 31; flags = 2; fault_id = 7; node_kind = 1 }

on_can_rx-reports_example :
    (let x =
        node 3 (on_can_rx controls (can_id_hb 3) (make_heartbeat_payload 3 7 0 5000) 20 started) in
      let y = node 3 (on_can_rx controls (can_id_health 3) (health_bytes 3 warm) 20 started) in
      let e = on_can_rx controls (can_id_ready 3) (make_ready_payload panel 0) 20 started in
      let z = node 3 e in
      ((x.alive ≡ true)
        × (x.last_seen_ms ≡ 20)
        × (x.last.uptime ≡ 5)
        × (x.last.rx_count ≡ 7)
        × (x.last.esr ≡ 0))
      × ((y.die_temp ≡ 31) × (y.health_flags ≡ 2) × (y.fault_id ≡ 7) × (y.node_kind ≡ 1))
      × ((z.alive ≡ true) × HasVersions panel z × (e.sync_queue 2 ≡ true)))
on_can_rx-reports_example =
    on_can_rx-reports controls 3 7 0 5000 20 warm panel started (omega arith) (omega arith)
