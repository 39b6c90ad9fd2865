-- ===== src/Bridge/Heat.antt =====
-- What serviceNodeStatus() (CANProtocol.cpp) writes to the bridge's WARNING latch (PanelBridge.cpp).
use open_skyhawk.Base.{ℕ, ◌≡◌, ◌∙◌, Bool, true, ◌&&◌, ◌||◌, leb, arith}
use open_skyhawk.Can.Node.{
  Build, elapsed, health_period_ms, Node, sends, set_warning, log_fault_edge, put_out, can_id_hb,
  can_id_health, gateway_node_id,
}
use open_skyhawk.Can.Payloads.{
  is_hot, make_heartbeat_payload, make_node_health_payload, health_bytes,
}
use open_skyhawk.Can.Service.{
  Call, arm, service_hb, service_dup, node_fault, note_heat, service_health, service_node_status,
}
use open_skyhawk.Can.Latch.{latch_from, latch_from-snoc}
use open_skyhawk.Can.Heat.{health_due}

-- whether a call finds the board too hot: with a health frame due, the die at the threshold or above
abbrev pub found_hot : Build → Call → Node → Bool
found_hot w c n = health_due c n && is_hot w.overheat_c c.die_temp

-- the latch after what went out, from `b` on
abbrev latched : Bool → Node → Bool
latched b n = latch_from n.out b

module _ (w : Build) (b : Bool) where
  note_heat-latched :
      (t : ℕ) (n : Node)
      → w.node_id ≡ gateway_node_id
      → latched b (note_heat w t n) ≡ (latched b n || is_hot w.overheat_c t)
  unfolding note_heat is_hot
  note_heat-latched t n g =
      let s = latch_from-snoc n.out (set_warning true) b in ground (arith, g, s)

  service_health-latched :
      (c : Call) (n : Node)
      → w.node_id ≡ gateway_node_id
      → latched b (service_health w c n) ≡ (
          latched b n
          || leb health_period_ms (elapsed c.now n.last_health_ms)
            && is_hot w.overheat_c c.die_temp)
  unfolding service_health
  service_health-latched c n g =
      let (fault, text) = node_fault w n.dup_seen c.sources in
      let h = make_node_health_payload w c.kind c.die_temp fault in
      let m = record n { last_health_ms = c.now; last_health = h } in
      let frame = sends (can_id_health w.node_id) (health_bytes w.node_id h) in
      let sent = put_out frame m in
      let told = put_out (log_fault_edge fault text) sent in
      let same : latched b told ≡ latched b n =
        latch_from-snoc sent.out (log_fault_edge fault text) b ∙ latch_from-snoc n.out frame b in
      let heat = note_heat-latched c.die_temp told g in ground (arith, heat, same)

  service_hb-latched :
      (c : Call) (n : Node)
      → (latched b (service_dup w c (service_hb w c n)) ≡ latched b n)
        × ((service_dup w c (service_hb w c n)).last_health_ms ≡ n.last_health_ms)
  unfolding service_dup service_hb
  service_hb-latched c n =
      let hb = make_heartbeat_payload w.node_id c.rx_count c.esr c.now in
      let s = latch_from-snoc n.out (sends (can_id_hb w.node_id) hb) b in
      (ground (arith, s), ground arith)

  -- On the bridge the service raises the latch where it finds the board too hot, and never clears it.
  pub service-raises :
      (c : Call) (n : Node)
      → w.node_id ≡ gateway_node_id
      → latched b (service_node_status w c n) ≡ (latched b n || found_hot w c n)
  unfolding service_node_status arm
  service-raises c n g =
      let m = arm c.now n in
      let same = service_hb-latched c m in
      let heat = service_health-latched c (service_dup w c (service_hb w c m)) g in
      ground (arith, g, heat, same.0, same.1)
