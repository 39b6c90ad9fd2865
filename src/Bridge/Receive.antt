-- ===== src/Bridge/Receive.antt =====
-- `onCanRx` (PanelBridge.cpp): what a frame from the bus does.
use open_skyhawk.Base.{
  ℕ, ◌+◌, ◌-◌, ◌%◌, Bool, true, false, not, ◌&&◌, ◌||◌, List, length, ◌==◌, ltb, leb, if◌then◌else◌,
}
use open_skyhawk.Boot.Session.{at, at16}
use open_skyhawk.Upload.Tick.{node_boot_state_app}
use open_skyhawk.Upload.Reply.{unconfigured_rsp_id}
use open_skyhawk.Bridge.Relay.{max_node_id}
use open_skyhawk.Bridge.State.{Heartbeat, Bridge, node, set_node, queue_sync}
use open_skyhawk.Bridge.Rows.{emit_node, emit_telem}
use open_skyhawk.Bridge.Nodes.{mark_node_alive, on_boot_rsp}
use open_skyhawk.Bridge.Dispatch.{
  DcsBiosInputEntry, dispatch_evt_slot, dispatch_rel_slot, dispatch_dir_slot, dispatch_action_slot,
  dispatch_pair,
}

-- HB_n
unfoldable pub on_heartbeat : ℕ → List ℕ → ℕ → Bridge → Bridge
on_heartbeat id d now b =
    let ns = node id b in
    let hb : Heartbeat = record {
      flags = at d 1;
      uptime = at16 d 2;
      rx_count = at16 d 4;
      esr = at16 d 6;
    } in
    let last = if leb 8 (length d) then hb else ns.last in
    let left_boot = not (ns.boot_state == node_boot_state_app) || ns.updating in
    let c =
      set_node id (record ns { last = last; boot_state = node_boot_state_app; updating = false })
        b in
    let (woke, e) = mark_node_alive id now c in
    if woke then queue_sync id e else if left_boot then emit_node id true e else e

-- HEALTH_n
unfoldable pub on_health : ℕ → List ℕ → Bridge → Bridge
on_health id d b =
    let ns = node id b in
    let c =
      set_node id
        (record ns {
          die_temp = at d 1;
          health_flags = at d 2;
          fault_mask = at d 3;
          fault_id = at d 4;
          node_kind = at d 5;
        })
        b in
    if ltb (length d) 8
    then b
    else if not (at d 5 == ns.node_kind) && ns.alive
    then emit_node id true c
    else c

-- A fresh boot is queued for a sync; an answer to one lets the next node be asked.
unfoldable pub ready_answered : Bool → ℕ → Bridge → Bridge
ready_answered resync id b =
    if not resync then queue_sync id b else if id == b.syncing then record b { syncing = 0 } else b

-- READY_n
unfoldable pub on_ready : ℕ → List ℕ → ℕ → Bridge → Bridge
on_ready id d now b =
    let ns = node id b in
    let byte = λ (i : ℕ). if leb 3 (length d) then at d i else 0 in
    let resync = ltb 4 (length d) && at d 4 % 2 == 1 in
    let fw_changed =
      not (byte 0 == ns.fw_major)
      || (not (byte 1 == ns.fw_minor)
          || (not (byte 2 == ns.fw_patch)
              || (not (byte 3 == ns.bootloader) || not (ns.boot_state == node_boot_state_app)))) in
    let c =
      set_node id
        (record ns {
          fw_major = byte 0;
          fw_minor = byte 1;
          fw_patch = byte 2;
          bootloader = byte 3;
          boot_state = node_boot_state_app;
          updating = false;
        })
        b in
    let (woke, e) = mark_node_alive id now c in
    ready_answered resync id (if not woke && fw_changed then emit_node id true e else e)

-- `canId >= base + 1 && canId <= base + MAX_NODE_ID`
abbrev pub from_node : ℕ → ℕ → Bool
from_node base can_id = leb (base + 1) can_id && leb can_id (base + max_node_id)

-- `onCanRx(canId, data, len)` at the time `now`
unfoldable pub on_can_rx : List DcsBiosInputEntry → ℕ → List ℕ → ℕ → Bridge → Bridge
on_can_rx map can_id d now b =
    if from_node 0x780 can_id || can_id == unconfigured_rsp_id
    then on_boot_rsp can_id d now b
    else if from_node 0x100 can_id
    then on_heartbeat (can_id - 0x100) d now b
    else if from_node 0x140 can_id
    then on_health (can_id - 0x140) d b
    else if from_node 0x180 can_id
    then (if length d == 8 && not (at d 0 == 0) then emit_telem (can_id - 0x180) d b else b)
    else if from_node 0x200 can_id
    then dispatch_pair (dispatch_evt_slot map) d b
    else if from_node 0x500 can_id
    then dispatch_pair (dispatch_rel_slot map) d b
    else if from_node 0x600 can_id
    then dispatch_pair (dispatch_dir_slot map) d b
    else if from_node 0x700 can_id
    then dispatch_pair (dispatch_action_slot map) d b
    else if from_node 0x300 can_id
    then b
    else if from_node 0x400 can_id
    then on_ready (can_id - 0x400) d now b
    else b
