-- ===== src/Can/Heat.antt =====
-- Whether serviceNodeStatus() (CANProtocol.cpp) finds the board too hot.
use open_skyhawk.Base.{
  leb, ℕ, ◌+◌, ◌%◌, ◌<◌, ◌≡◌, refl, Bool, false, ◌&&◌, Option, none, some, arith, if◌then◌else◌,
}
use open_skyhawk.Can.Node.{
  Build, elapsed, health_period_ms, Node, sends, log_fault_edge, put_out, can_id_health,
}
use open_skyhawk.Can.Payloads.{is_hot, make_node_health_payload, health_bytes}
use open_skyhawk.Can.Service.{
  Call, arm, has_threshold, service_hb, service_dup, node_fault, note_heat, service_health,
}
use open_skyhawk.Can.Latch.{before_watch}

-- A die temperature, the byte of an int8_t, at the threshold or above: both are taken up by 128, the range
-- of the int8_t below 0.
unfoldable pub too_hot : Option ℕ → ℕ → Bool
too_hot none t = false
too_hot (some c) t = leb (c + 128) ((t + 128) % 256)

-- whether a call finds a health frame due: the first one only arms the timer
abbrev pub health_due : Call → Node → Bool
health_due c n = n.status_armed && leb health_period_ms (elapsed c.now n.last_health_ms)

-- What a call leaves of the heat: with a threshold it is looked at whenever a health frame is due.
unfoldable pub hot_after : Build → Call → Node → Bool
hot_after w c n =
    if has_threshold w.overheat_c && health_due c n
    then too_hot w.overheat_c c.die_temp
    else n.overheat

is_hot-too_hot : (threshold : Option ℕ) (t : ℕ) → t < 256 → is_hot threshold t ≡ too_hot threshold t
unfolding is_hot too_hot
is_hot-too_hot none t l = refl
is_hot-too_hot (some c) t l = ground arith

-- The second node has the timer of the health frame and the heat of the first.
record Warm (n m : Node) : Type 0 where
  last : m.last_health_ms ≡ n.last_health_ms
  heat : m.overheat ≡ n.overheat

module _ (w : Build) where
  note_heat-overheat :
      (t : ℕ) (n : Node)
      → (note_heat w t n).overheat
        ≡ (if has_threshold w.overheat_c then is_hot w.overheat_c t else n.overheat)
  unfolding note_heat
  note_heat-overheat t n = ground arith

  service_health-overheat :
      (c : Call) (n : Node)
      → (service_health w c n).overheat ≡ (
          if has_threshold w.overheat_c && leb health_period_ms (elapsed c.now n.last_health_ms)
          then is_hot w.overheat_c c.die_temp
          else n.overheat)
  unfolding service_health
  service_health-overheat c n =
      let (fault, text) = node_fault w n.dup_seen c.sources in
      let h = make_node_health_payload w c.kind c.die_temp fault in
      let m = record n { last_health_ms = c.now; last_health = h } in
      let sent = put_out (sends (can_id_health w.node_id) (health_bytes w.node_id h)) m in
      let told = put_out (log_fault_edge fault text) sent in
      ground (arith, note_heat-overheat c.die_temp told)

  service_hb-Warm : (c : Call) (n : Node) → Warm n (service_dup w c (service_hb w c n))
  unfolding service_dup service_hb
  service_hb-Warm c n = record { last = ground arith; heat = ground arith }

  pub before_watch-overheat :
      (c : Call) (n : Node) → c.die_temp < 256 → (before_watch w c n).overheat ≡ hot_after w c n
  unfolding arm hot_after
  before_watch-overheat c n l =
      let same = service_hb-Warm c (arm c.now n) in
      let e = service_health-overheat c (service_dup w c (service_hb w c (arm c.now n))) in
      ground (arith, e, same.last, same.heat, is_hot-too_hot w.overheat_c c.die_temp l)
