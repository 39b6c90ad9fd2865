-- ===== src/Bridge/Dead.antt =====
-- The count of dead nodes and the warning (PanelBridge.cpp).
use open_skyhawk.Base.{
  ℕ, zero, suc, ◌+◌, ◌-◌, ◌%◌, ◌≤◌, ◌<◌, ◌≡◌, ◌⊎◌, inl, inr, refl, Bool, true, false, not, ◌&&◌,
  ◌||◌, List, length, ◌==◌, ltb, leb, arith, if◌then◌else◌, if_intro, Bool-cases,
}
use open_skyhawk.Bridge.State.{Heartbeat, NodeState, no_node, Bridge, put, node, set_node}
use open_skyhawk.Bridge.Rows.{emit_node}
use open_skyhawk.Boot.Reply
use open_skyhawk.Boot.Session.{at, at16}
use open_skyhawk.Upload.Tick.{node_boot_state_app}
use open_skyhawk.Bridge.Receive.{on_heartbeat, on_health, ready_answered, on_ready}
use open_skyhawk.Bridge.Nodes.{
  one_less_dead, is_dead, mark_node_alive, forget_node, note_boot_traffic, learn_boot,
  on_boot_reply,
}

-- how many of the first `n` nodes are dead
unfoldable pub dead_total : ℕ → (ℕ → NodeState) → ℕ
dead_total zero f = 0
dead_total (suc n) f = (if is_dead (f n) then 1 else 0) + dead_total n f

-- The count is that of the nodes that timed out; the warning is on while there is one, and otherwise on
-- only if something else, as `r` says, has raised it; a node that is alive has been seen.
pub record Tracks (r : Bool) (b : Bridge) : Type 0 where
  pub counted : b.dead_count ≡ dead_total 63 b.nodes
  pub lit : b.warning ≡ (ltb 0 b.dead_count || b.warning && r)
  pub seen : (i : ℕ) → ((b.nodes i).alive ≡ false) ⊎ ((b.nodes i).ever_seen ≡ true)

pub dead_total_le : (n : ℕ) (f : ℕ → NodeState) → dead_total n f ≤ n
unfolding dead_total
dead_total_le zero f = omega arith
dead_total_le (suc n) f = ground (arith, dead_total_le n f)

dead_total-put_above :
    (n i : ℕ) (v : NodeState) (f : ℕ → NodeState)
    → n ≤ i
    → dead_total n (put f i v) ≡ dead_total n f
unfolding dead_total
dead_total-put_above zero i v f h = refl
dead_total-put_above (suc n) i v f h = ground (arith, dead_total-put_above n i v f)

pub dead_total-put :
    (n i : ℕ) (v : NodeState) (f : ℕ → NodeState)
    → i < n
    → dead_total n (put f i v) + (if is_dead (f i) then 1 else 0)
      ≡ dead_total n f + (if is_dead v then 1 else 0)
unfolding dead_total
dead_total-put zero i v f h = absurd (omega arith)
dead_total-put (suc n) i v f h = elim (Bool-cases (i == n)) [
  | inl e ↦
      let same : i ≡ n = ground (arith, e) in rw same (ground (arith, dead_total-put_above n n v f))
  | inr e ↦ ground (arith, e, dead_total-put n i v f)
]

learn_boot_life :
    (d : List ℕ) (ns : NodeState)
    → ((learn_boot d ns).1.alive ≡ ns.alive) × ((learn_boot d ns).1.ever_seen ≡ ns.ever_seen)
unfolding learn_boot
learn_boot_life d ns = (ground arith, ground arith)

module _ {r : Bool} (id : ℕ) (known : 1 ≤ id) (small : id ≤ 63) where
  pub mark_node_alive-Tracks :
      (now : ℕ) (b : Bridge) → Tracks r b → Tracks r (mark_node_alive id now b).1
  unfolding mark_node_alive one_less_dead emit_node
  mark_node_alive-Tracks now b t =
      let ns = node id b in
      let v = record ns { alive = true; ever_seen = true; last_seen_ms = now } in
      let sum = dead_total-put 63 (id - 1) v b.nodes (omega arith) in
      record {
        counted = ground (arith, sum, t.counted, t.lit);
        lit = ground (arith, sum, t.counted, t.lit);
        seen = λ i. ground (arith, t.seen i);
      }

  pub forget_node-Tracks : (b : Bridge) → Tracks r b → Tracks r (forget_node id b)
  unfolding forget_node one_less_dead
  forget_node-Tracks b t =
      let sum = dead_total-put 63 (id - 1) no_node b.nodes (omega arith) in
      record {
        counted = ground (arith, sum, t.counted, t.lit);
        lit = ground (arith, sum, t.counted, t.lit);
        seen = λ i. ground (arith, t.seen i);
      }

  -- A change of a node that leaves its life alone leaves the count alone.
  pub set_node-Tracks :
      (v : NodeState) (b : Bridge)
      → v.alive ≡ (node id b).alive
      → v.ever_seen ≡ (node id b).ever_seen
      → Tracks r b
      → Tracks r (set_node id v b)
  set_node-Tracks v b a e t =
      let sum = dead_total-put 63 (id - 1) v b.nodes (omega arith) in
      record {
        counted = ground (arith, sum, t.counted, t.lit, a, e);
        lit = t.lit;
        seen = λ i. ground (arith, a, e, t.seen i, t.seen (id - 1));
      }

  pub note_boot_traffic-Tracks :
      (now : ℕ) (b : Bridge) → Tracks r b → Tracks r (note_boot_traffic id now b)
  unfolding note_boot_traffic emit_node
  note_boot_traffic-Tracks now b t =
      let v = record (node id b) { last_boot_ms = now; updating = true } in
      let s = set_node-Tracks v b refl refl t in
      record {
        counted = ground (arith, s.counted);
        lit = ground (arith, s.lit);
        seen = λ i. ground (arith, s.seen i);
      }

  pub emit_node-Tracks :
      (present : Bool) (b : Bridge) → Tracks r b → Tracks r (emit_node id present b)
  unfolding emit_node
  emit_node-Tracks present b t = record { counted = t.counted; lit = t.lit; seen = t.seen }

  pub on_boot_reply-Tracks :
      (d : List ℕ) (now : ℕ) (b : Bridge) → Tracks r b → Tracks r (on_boot_reply id d now b)
  unfolding on_boot_reply
  on_boot_reply-Tracks d now b t =
      let (changed, ns) = learn_boot d (node id b) in
      let (alive, seen) = learn_boot_life d (node id b) in
      let b1 = set_node id ns b in
      let t1 = set_node-Tracks ns b alive seen t in
      let announced = at d 0 == Reply.announce in
      let b2 = if announced then b1 else note_boot_traffic id now b1 in
      let t2 : Tracks r b2 =
        if_intro (Tracks r) announced t1 (note_boot_traffic-Tracks now b1 t1) in
      let t3 = mark_node_alive-Tracks now b2 t2 in
      let woke = (mark_node_alive id now b2).0 in
      if_intro (Tracks r) (not woke && changed) (emit_node-Tracks true _ t3) t3

  pub on_heartbeat-Tracks :
      (d : List ℕ) (now : ℕ) (b : Bridge) → Tracks r b → Tracks r (on_heartbeat id d now b)
  unfolding on_heartbeat
  on_heartbeat-Tracks d now b t =
      let ns = node id b in
      let hb : Heartbeat = record {
        flags = at d 1;
        uptime = at16 d 2;
        rx_count = at16 d 4;
        esr = at16 d 6;
      } in
      let last = if leb 8 (length d) then hb else ns.last in
      let v = record ns { last = last; boot_state = node_boot_state_app; updating = false } in
      let c = set_node id v b in
      let m = mark_node_alive-Tracks now c (set_node-Tracks v b refl refl t) in
      let woke = (mark_node_alive id now c).0 in
      if_intro (Tracks r) woke (record { counted = m.counted; lit = m.lit; seen = m.seen })
        (if_intro (Tracks r) (not (ns.boot_state == node_boot_state_app) || ns.updating)
          (emit_node-Tracks true _ m) m)

  pub on_health-Tracks : (d : List ℕ) (b : Bridge) → Tracks r b → Tracks r (on_health id d b)
  unfolding on_health
  on_health-Tracks d b t =
      let ns = node id b in
      let v = record ns {
        die_temp = at d 1;
        health_flags = at d 2;
        fault_mask = at d 3;
        fault_id = at d 4;
        node_kind = at d 5;
      } in
      let s = set_node-Tracks v b refl refl t in
      if_intro (Tracks r) (ltb (length d) 8) t (
        if_intro (Tracks r) (not (at d 5 == ns.node_kind) && ns.alive) (emit_node-Tracks true _ s)
          s)

  ready_answered-Tracks :
      (resync : Bool) (b : Bridge) → Tracks r b → Tracks r (ready_answered resync id b)
  unfolding ready_answered
  ready_answered-Tracks resync b t =
      if_intro (Tracks r) (not resync) (record { counted = t.counted; lit = t.lit; seen = t.seen })
        (if_intro (Tracks r) (id == b.syncing)
          (record { counted = t.counted; lit = t.lit; seen = t.seen }) t)

  pub on_ready-Tracks :
      (d : List ℕ) (now : ℕ) (b : Bridge) → Tracks r b → Tracks r (on_ready id d now b)
  unfolding on_ready
  on_ready-Tracks d now b t =
      let ns = node id b in
      let byte = λ (i : ℕ). if leb 3 (length d) then at d i else 0 in
      let v = record ns {
        fw_major = byte 0;
        fw_minor = byte 1;
        fw_patch = byte 2;
        bootloader = byte 3;
        boot_state = node_boot_state_app;
        updating = false;
      } in
      let c = set_node id v b in
      let (woke, e) = mark_node_alive id now c in
      let m = mark_node_alive-Tracks now c (set_node-Tracks v b refl refl t) in
      let n = emit_node-Tracks true e m in
      let resync = ltb 4 (length d) && at d 4 % 2 == 1 in
      ready_answered-Tracks resync _ (if_intro (Tracks r) _ n m)
