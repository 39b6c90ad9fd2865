-- ===== src/Can/Service.antt =====
-- serviceNodeStatus() (CANProtocol.cpp): the heartbeat, the health frame, the check for a second board with
-- the node's number, and the watchdog for the master.
use open_skyhawk.Base.{
  ℕ, ◌+◌, ◌%◌, ◌^◌, Bool, true, false, ◌&&◌, ◌||◌, not, List, [], ◌∷◌, Option, none, some, ◌==◌,
  leb, if◌then◌else◌,
}
use open_skyhawk.Can.Node.{
  can_id_hb, can_id_health, gateway_node_id, hb_period_ms, health_period_ms, master_timeout_ms,
  dup_node_timeout_ms, Build, Node, elapsed, overdue, put_out, sends, set_warning, log_fault_edge,
}
use open_skyhawk.Can.Payloads.{
  FaultSource, duplicate_node_id, aggregate_faults, make_heartbeat_payload, is_hot,
  make_node_health_payload, health_bytes,
}

-- What a call reads: the time, the node's kind and its count of frames, ESR, the die's temperature, and the
-- fault sources in the order of the registry.
pub record Call : Type 0 where
  pub now : ℕ
  pub kind : ℕ
  pub rx_count : ℕ
  pub esr : ℕ
  pub die_temp : ℕ
  pub sources : List FaultSource

-- "another board transmits on this NODE_ID", for the log
abbrev pub duplicate_text : List ℕ
duplicate_text =
    b'a' ∷ b'n' ∷ b'o' ∷ b't' ∷ b'h' ∷ b'e' ∷ b'r' ∷ b' ' ∷ b'b' ∷ b'o' ∷ b'a' ∷ b'r' ∷ b'd' ∷ b' '
    ∷ b't' ∷ b'r' ∷ b'a' ∷ b'n' ∷ b's' ∷ b'm' ∷ b'i' ∷ b't' ∷ b's' ∷ b' ' ∷ b'o' ∷ b'n' ∷ b' '
    ∷ b't' ∷ b'h' ∷ b'i' ∷ b's' ∷ b' ' ∷ b'N' ∷ b'O' ∷ b'D' ∷ b'E' ∷ b'_' ∷ b'I' ∷ b'D' ∷ []

-- the timers are armed on the first call
unfoldable pub arm : ℕ → Node → Node
arm now n =
    if n.status_armed
    then n
    else record n { status_armed = true; last_hb_ms = now; last_health_ms = now }

abbrev pub has_threshold : Option ℕ → Bool
has_threshold none = false
has_threshold (some c) = true

module _ (w : Build) where
  unfoldable pub service_hb : Call → Node → Node
  service_hb c n =
      let hb = make_heartbeat_payload w.node_id c.rx_count c.esr c.now in
      let m = put_out (sends (can_id_hb w.node_id) hb) (record n { last_hb_ms = c.now }) in
      if leb hb_period_ms (elapsed c.now n.last_hb_ms)
      then if n.loopback
        then record m { own_hb_loop_pending = (n.own_hb_loop_pending + 1) % 2 ^ 8 }
        else m
      else n

  unfoldable pub service_dup : Call → Node → Node
  service_dup c n =
      if n.dup_seen && overdue dup_node_timeout_ms c.now n.last_dup_ms
      then record n { dup_seen = false }
      else n

  -- the fault that the health frame carries, and its text
  unfoldable pub node_fault : Bool → List FaultSource → ℕ × List ℕ
  node_fault dup sources =
      if dup then (duplicate_node_id, duplicate_text) else aggregate_faults sources

  -- the part under NODE_OVERHEAT_C
  unfoldable pub note_heat : ℕ → Node → Node
  note_heat die_temp n =
      let hot = is_hot w.overheat_c die_temp in
      let m = record n { overheat = hot } in
      if not (has_threshold w.overheat_c)
      then n
      else if w.node_id == gateway_node_id && hot
      then put_out (set_warning true) m
      else m

  unfoldable pub service_health : Call → Node → Node
  service_health c n =
      let (fault, text) = node_fault n.dup_seen c.sources in
      let h = make_node_health_payload w c.kind c.die_temp fault in
      let m =
        put_out (sends (can_id_health w.node_id) (health_bytes w.node_id h))
          (record n { last_health_ms = c.now; last_health = h }) in
      if leb health_period_ms (elapsed c.now n.last_health_ms)
      then note_heat c.die_temp (put_out (log_fault_edge fault text) m)
      else n

  -- the watchdog for the master's heartbeat
  unfoldable pub watch_master : Call → Node → Node
  watch_master c n =
      let m =
        if n.master_hb_pending
        then record n { master_hb_pending = false; master_lost = false }
        else n in
      if m.ever_saw_master && overdue master_timeout_ms c.now m.last_master_ms
      then record m { master_lost = true }
      else m

  -- the latch is written when what it should be changes
  unfoldable pub write_warning : Node → Node
  write_warning n =
      let want = n.master_lost || n.overheat in
      if want && not n.warn_asserted || not want && n.warn_asserted
      then put_out (set_warning want) (record n { warn_asserted = want })
      else n

  -- `serviceNodeStatus`
  unfoldable pub service_node_status : Call → Node → Node
  service_node_status c n =
      let m = service_health c (service_dup c (service_hb c (arm c.now n))) in
      if w.node_id == gateway_node_id then m else write_warning (watch_master c m)
