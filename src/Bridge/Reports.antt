-- ===== src/Bridge/Reports.antt =====
-- What a node reports of itself (CANProtocol.cpp) and what the bridge makes of it (PanelBridge.cpp).
use open_skyhawk.Base.{
  leb, not, ◌&&◌, if_intro, ap, ◌∙◌, ◌/◌, length, ltb, if◌then◌else◌, List, ℕ, ◌+◌, ◌-◌, ◌%◌, ◌^◌,
  ◌≤◌, ◌<◌, ◌≡◌, refl, Bool, true, false, ◌||◌, ◌==◌, arith,
}
use open_skyhawk.Upload.Reply.{unconfigured_rsp_id}
use open_skyhawk.Can.Node.{Build, Health, can_id_hb, can_id_health, can_id_ready}
use open_skyhawk.Can.Payloads.{make_heartbeat_payload, make_ready_payload, health_bytes}
use open_skyhawk.Bridge.State.{queue_sync, NodeState, Bridge, node, set_node}
use open_skyhawk.Boot.Session.{at, at16}
use open_skyhawk.Upload.Tick.{node_boot_state_app}
use open_skyhawk.Bridge.Rows.{emit_node}
use open_skyhawk.Bridge.Nodes.{is_dead, mark_node_alive, one_less_dead}
use open_skyhawk.Bridge.Dispatch.{DcsBiosInputEntry}
use open_skyhawk.Bridge.Receive.{
  on_heartbeat, on_health, on_ready, ready_answered, from_node, on_can_rx,
}

module _ (map : List DcsBiosInputEntry) (id : ℕ) (d : List ℕ) (now : ℕ) (b : Bridge) where
  on_can_rx-hb : 1 ≤ id → id ≤ 63 → on_can_rx map (can_id_hb id) d now b ≡ on_heartbeat id d now b
  unfolding on_can_rx
  on_can_rx-hb l h =
      let own : can_id_hb id - 0x100 ≡ id = omega arith in
      let no_boot : (from_node 0x780 (can_id_hb id) || can_id_hb id == unconfigured_rsp_id)
          ≡ false =
        ground arith in
      let yes_hb : from_node 0x100 (can_id_hb id) ≡ true = ground arith in
      rw (no_boot, yes_hb, own) refl

  on_can_rx-health : 1 ≤ id → id ≤ 63 → on_can_rx map (can_id_health id) d now b ≡ on_health id d b
  unfolding on_can_rx
  on_can_rx-health l h =
      let own : can_id_health id - 0x140 ≡ id = omega arith in
      let no_boot : (from_node 0x780 (can_id_health id) || can_id_health id == unconfigured_rsp_id)
          ≡ false =
        ground arith in
      let no_hb : from_node 0x100 (can_id_health id) ≡ false = ground arith in
      let yes_health : from_node 0x140 (can_id_health id) ≡ true = ground arith in
      rw (no_boot, no_hb, yes_health, own) refl

  on_can_rx-ready : 1 ≤ id → id ≤ 63 → on_can_rx map (can_id_ready id) d now b ≡ on_ready id d now b
  unfolding on_can_rx
  on_can_rx-ready l h =
      let own : can_id_ready id - 0x400 ≡ id = omega arith in
      let no_boot : (from_node 0x780 (can_id_ready id) || can_id_ready id == unconfigured_rsp_id)
          ≡ false =
        ground arith in
      let no : (base : ℕ) → base + 63 < 0x401 → from_node base (can_id_ready id) ≡ false =
        λ base k. ground arith in
      let above : (base : ℕ) → 0x440 ≤ base → from_node base (can_id_ready id) ≡ false =
        λ base k. ground arith in
      let yes_ready : from_node 0x400 (can_id_ready id) ≡ true = ground arith in
      rw
        (
          no_boot,
          no 0x100 (omega arith),
          no 0x140 (omega arith),
          no 0x180 (omega arith),
          no 0x200 (omega arith),
          no 0x300 (omega arith),
          above 0x500 (omega arith),
          above 0x600 (omega arith),
          above 0x700 (omega arith),
          yes_ready,
          own,
        )
        refl

heartbeat-length :
    (id rx_count esr t : ℕ) → leb 8 (length (make_heartbeat_payload id rx_count esr t)) ≡ true
unfolding make_heartbeat_payload
heartbeat-length id rx_count esr t = refl

heartbeat-fields :
    (id rx_count esr t : ℕ)
    → (let d = make_heartbeat_payload id rx_count esr t in
        (at16 d 2 ≡ t / 1000 % 2 ^ 16)
        × (at16 d 4 ≡ rx_count % 2 ^ 16)
        × (at16 d 6 ≡ esr / 2 ^ 16 % 2 ^ 16))
unfolding make_heartbeat_payload
heartbeat-fields id rx_count esr t = (omega arith, omega arith, omega arith)

-- Which node a bridge has is not changed by what it puts out or queues.
one_less_dead-nodes : (b : Bridge) → (one_less_dead b).nodes ≡ b.nodes
unfolding one_less_dead
one_less_dead-nodes b = if_intro (λ (c : Bridge). c.nodes ≡ b.nodes) (ltb 0 b.dead_count) refl refl

emit_node_if-nodes :
    (id : ℕ) (c : Bool) (b : Bridge) → (if c then emit_node id true b else b).nodes ≡ b.nodes
unfolding emit_node
emit_node_if-nodes id true b = refl
emit_node_if-nodes id false b = refl

queue_or_emit-nodes :
    (id : ℕ) (woke c : Bool) (b : Bridge)
    → (if woke then queue_sync id b else if c then emit_node id true b else b).nodes ≡ b.nodes
queue_or_emit-nodes id true c b = refl
queue_or_emit-nodes id false c b = emit_node_if-nodes id c b

-- what a node that is heard becomes
abbrev pub heard_at : ℕ → NodeState → NodeState
heard_at now ns = record ns { alive = true; ever_seen = true; last_seen_ms = now }

set_node-read : (id : ℕ) (ns : NodeState) (b : Bridge) → node id (set_node id ns b) ≡ ns
set_node-read id ns b = let own : (id - 1 == id - 1) ≡ true = ground arith in rw own refl

mark_node_alive-read :
    (id now : ℕ) (b : Bridge) → node id (mark_node_alive id now b).1 ≡ heard_at now (node id b)
unfolding mark_node_alive emit_node
mark_node_alive-read id now b =
    let ns = node id b in
    let b1 = set_node id (heard_at now ns) b in
    let fewer =
      if_intro (λ (c : Bridge). c.nodes ≡ b1.nodes) (is_dead ns) (one_less_dead-nodes b1) refl in
    let own = set_node-read id (heard_at now ns) b in
    if_intro (λ (r : Bool × Bridge). node id r.1 ≡ heard_at now ns) ns.alive own
      (ap (λ f. f (id - 1)) fewer ∙ own)

on_heartbeat-read :
    (id rx_count esr t now : ℕ) (b : Bridge)
    → (let ns = node id (on_heartbeat id (make_heartbeat_payload id rx_count esr t) now b) in
        (ns.alive ≡ true)
        × (ns.last_seen_ms ≡ now)
        × (ns.last.uptime ≡ t / 1000 % 2 ^ 16)
        × (ns.last.rx_count ≡ rx_count % 2 ^ 16)
        × (ns.last.esr ≡ esr / 2 ^ 16 % 2 ^ 16))
unfolding on_heartbeat
on_heartbeat-read id rx_count esr t now b =
    let d = make_heartbeat_payload id rx_count esr t in
    let ns = node id b in
    let v : NodeState = record ns {
      last = record { flags = at d 1; uptime = at16 d 2; rx_count = at16 d 4; esr = at16 d 6 };
      boot_state = node_boot_state_app;
      updating = false;
    } in
    let c = set_node id v b in
    let e = (mark_node_alive id now c).1 in
    let whole : leb 8 (length d) ≡ true = heartbeat-length id rx_count esr t in
    let kept =
      queue_or_emit-nodes id (mark_node_alive id now c).0
        (not (ns.boot_state == node_boot_state_app) || ns.updating) e in
    let told : node id (on_heartbeat id d now b) ≡ heard_at now v = rw whole (
      ap (λ f. f (id - 1)) kept
      ∙ mark_node_alive-read id now c
      ∙ ap (heard_at now) (set_node-read id v b)) in
    let f = heartbeat-fields id rx_count esr t in rw told (refl, refl, f.0, f.1, f.2)

on_health-read :
    (id : ℕ) (h : Health) (b : Bridge)
    → (let ns = node id (on_health id (health_bytes id h) b) in
        (ns.die_temp ≡ h.die_temp % 2 ^ 8)
        × (ns.health_flags ≡ h.flags % 2 ^ 8)
        × (ns.fault_id ≡ h.fault_id % 2 ^ 8)
        × (ns.node_kind ≡ h.node_kind % 2 ^ 8))
unfolding on_health
on_health-read id h b =
    let ns = node id b in
    let v : NodeState = record ns {
      die_temp = h.die_temp % 2 ^ 8;
      health_flags = h.flags % 2 ^ 8;
      fault_mask = 0;
      fault_id = h.fault_id % 2 ^ 8;
      node_kind = h.node_kind % 2 ^ 8;
    } in
    let c = set_node id v b in
    let kept = emit_node_if-nodes id (not (h.node_kind % 2 ^ 8 == ns.node_kind) && ns.alive) c in
    let told : node id (on_health id (health_bytes id h) b) ≡ v =
      ap (λ f. f (id - 1)) kept ∙ set_node-read id v b in
    rw told (refl, refl, refl, refl)

-- the versions that a node's record holds
abbrev pub HasVersions : Build → NodeState → Type 0
HasVersions w ns =
    (ns.fw_major ≡ w.fw_major % 2 ^ 8)
    × (ns.fw_minor ≡ w.fw_minor % 2 ^ 8)
    × (ns.fw_patch ≡ w.fw_patch % 2 ^ 8)
    × (ns.bootloader ≡ w.bootloader % 2 ^ 8)

on_ready-read :
    (id : ℕ) (w : Build) (now : ℕ) (b : Bridge)
    → (let e = on_ready id (make_ready_payload w 0) now b in
        let ns = node id e in (ns.alive ≡ true) × HasVersions w ns × (e.sync_queue (id - 1) ≡ true))
unfolding on_ready make_ready_payload ready_answered
on_ready-read id w now b =
    let ns = node id b in
    let v : NodeState = record ns {
      fw_major = w.fw_major % 2 ^ 8;
      fw_minor = w.fw_minor % 2 ^ 8;
      fw_patch = w.fw_patch % 2 ^ 8;
      bootloader = w.bootloader % 2 ^ 8;
      boot_state = node_boot_state_app;
      updating = false;
    } in
    let c = set_node id v b in
    let e = (mark_node_alive id now c).1 in
    let kept = emit_node_if-nodes id _ e in
    let told : node id (on_ready id (make_ready_payload w 0) now b) ≡ heard_at now v =
      ap (λ f. f (id - 1)) kept
      ∙ mark_node_alive-read id now c
      ∙ ap (heard_at now) (set_node-read id v b) in
    let own : (id - 1 == id - 1) ≡ true = ground arith in
    rw told (refl, (refl, refl, refl, refl), rw own refl)

-- From the frames of a node between 1 and 63 the bridge learns: by its heartbeat that it is alive,
-- when that came, its seconds since boot, its count of frames and its error counters; by its health
-- frame its temperature, flags, fault and kind, as bytes; by its boot announcement that it is alive
-- and its versions, as bytes, and then it queues a sync of the node.
pub on_can_rx-reports :
    (map : List DcsBiosInputEntry) (id rx_count esr t now : ℕ) (h : Health) (w : Build) (b : Bridge)
    → 1 ≤ id
    → id ≤ 63
    → (let x =
          node id (on_can_rx map (can_id_hb id) (make_heartbeat_payload id rx_count esr t) now b) in
        let y = node id (on_can_rx map (can_id_health id) (health_bytes id h) now b) in
        let e = on_can_rx map (can_id_ready id) (make_ready_payload w 0) now b in
        let z = node id e in
        ((x.alive ≡ true)
          × (x.last_seen_ms ≡ now)
          × (x.last.uptime ≡ t / 1000 % 2 ^ 16)
          × (x.last.rx_count ≡ rx_count % 2 ^ 16)
          × (x.last.esr ≡ esr / 2 ^ 16 % 2 ^ 16))
        × ((y.die_temp ≡ h.die_temp % 2 ^ 8)
            × (y.health_flags ≡ h.flags % 2 ^ 8)
            × (y.fault_id ≡ h.fault_id % 2 ^ 8)
            × (y.node_kind ≡ h.node_kind % 2 ^ 8))
        × ((z.alive ≡ true) × HasVersions w z × (e.sync_queue (id - 1) ≡ true)))
on_can_rx-reports map id rx_count esr t now h w b lo hi =
    let p = on_can_rx-hb map id (make_heartbeat_payload id rx_count esr t) now b lo hi in
    let q = on_can_rx-health map id (health_bytes id h) now b lo hi in
    let r = on_can_rx-ready map id (make_ready_payload w 0) now b lo hi in
    rw (p, q, r)
      (on_heartbeat-read id rx_count esr t now b, on_health-read id h b, on_ready-read id w now b)
