-- ===== src/Bridge/Warning.antt =====
-- The count of dead nodes and the warning, over all that the bridge does (PanelBridge.cpp).
use open_skyhawk.Base.{ℕ, ◌≡◌, subst, Bool, false, ◌||◌, List, [], ◌∷◌, arith}
use open_skyhawk.Bridge.State.{Bridge}
use open_skyhawk.Bridge.Rows.{Row}
use open_skyhawk.Bridge.Nodes.{check_node_timeouts}
use open_skyhawk.Bridge.Sync.{service_sync, service_roster}
use open_skyhawk.Bridge.Dispatch.{DcsBiosInputEntry}
use open_skyhawk.Bridge.Loop.{
  Event, can_rx, export_write, loop_pass, service_status, loop_once, bridge_step, bridge_run,
}
use open_skyhawk.Can.Node.{Build, Node, gateway_node_id}
use open_skyhawk.Can.Service.{Call}
use open_skyhawk.Can.Latch.{latch_from}
use open_skyhawk.Bridge.Heat.{found_hot, service-raises}
use open_skyhawk.Bridge.Dead.{Tracks}
use open_skyhawk.Bridge.Unchanged.{service_sync-Same, service_roster-Same}
use open_skyhawk.Bridge.Handlers.{
  Same-Tracks, check_from-Tracks, on_can_rx-Tracks, on_dcs_bios_write-Tracks,
}

-- The latch is raised by something else.
raise-Tracks :
    (r h l : Bool) (b : Bridge)
    → l ≡ (b.warning || h)
    → Tracks r b
    → Tracks (r || h) (record b { warning = l })
raise-Tracks r h l b e t = record {
  counted = t.counted;
  lit = ground (arith, e, t.lit);
  seen = t.seen;
}

-- whether some pass of the loop finds the bridge too hot
unfoldable pub hot_passes : Build → List (Event × ℕ) → Bool
hot_passes w [] = false
hot_passes w ((can_rx id d, now) ∷ es) = hot_passes w es
hot_passes w ((export_write a v, now) ∷ es) = hot_passes w es
hot_passes w ((loop_pass rooms self c n, now) ∷ es) = found_hot w c n || hot_passes w es

-- whether the last event is a pass that finds the bridge too hot
unfoldable pub hot_last : Build → List (Event × ℕ) → Bool
hot_last w [] = false
hot_last w ((can_rx id d, now) ∷ []) = false
hot_last w ((export_write a v, now) ∷ []) = false
hot_last w ((loop_pass rooms self c n, now) ∷ []) = found_hot w c n
hot_last w (e ∷ f ∷ es) = hot_last w (f ∷ es)

module _ (w : Build) (gateway : w.node_id ≡ gateway_node_id) where
  loop_once-Tracks :
      (r : Bool) (rooms : List Bool) (self : Row) (c : Call) (now : ℕ) (b : Bridge) (n : Node)
      → Tracks r b
      → Tracks (r || found_hot w c n) (loop_once w rooms self c now (b, n)).0
  unfolding loop_once service_status check_node_timeouts latch_from
  loop_once-Tracks r rooms self c now b n t =
      let alive = check_node_timeouts now b in
      let synced = service_sync now alive in
      let checked = check_from-Tracks now 63 0 b (omega arith) t in
      let before =
        Same-Tracks synced _ (service_roster-Same rooms self synced)
          (Same-Tracks alive synced (service_sync-Same alive now) checked) in
      let e = service_roster rooms self synced in
      raise-Tracks r (found_hot w c n) _ e
        (service-raises w e.warning c (record n { out = [] }) gateway) before

  events-Tracks :
      (map : List DcsBiosInputEntry) (mod_time : ℕ) (es : List (Event × ℕ)) (r : Bool) (b : Bridge)
      → Tracks r b
      → Tracks (r || hot_passes w es) (bridge_run w map mod_time es b)
  unfolding bridge_run bridge_step hot_passes
  events-Tracks map mod_time [] r b t = subst (λ q. Tracks q b) (ground arith) t
  events-Tracks map mod_time ((can_rx id d, now) ∷ es) r b t =
      events-Tracks map mod_time es r _ (on_can_rx-Tracks map id d now b t)
  events-Tracks map mod_time ((export_write a v, now) ∷ es) r b t =
      events-Tracks map mod_time es r _ (on_dcs_bios_write-Tracks mod_time a v now b t)
  events-Tracks map mod_time ((loop_pass rooms self c n, now) ∷ es) r b t =
      let hot = found_hot w c n in
      let rest =
        events-Tracks map mod_time es (r || hot) _ (loop_once-Tracks r rooms self c now b n t) in
      subst (λ q. Tracks q (bridge_run w map mod_time es (loop_once w rooms self c now (b, n)).0))
        (ground arith) rest

  loop_once-hot :
      (rooms : List Bool) (self : Row) (c : Call) (now : ℕ) (b : Bridge) (n : Node)
      → (let l = (loop_once w rooms self c now (b, n)).0.warning in l ≡ (l || found_hot w c n))
  unfolding loop_once service_status latch_from
  loop_once-hot rooms self c now b n =
      let e = service_roster rooms self (service_sync now (check_node_timeouts now b)) in
      ground (arith, service-raises w e.warning c (record n { out = [] }) gateway)

  events-hot :
      (map : List DcsBiosInputEntry) (mod_time : ℕ) (es : List (Event × ℕ)) (b : Bridge)
      → (let l = (bridge_run w map mod_time es b).warning in l ≡ (l || hot_last w es))
  unfolding bridge_run bridge_step hot_last
  events-hot map mod_time [] b = ground arith
  events-hot map mod_time ((can_rx id d, now) ∷ []) b = ground arith
  events-hot map mod_time ((export_write a v, now) ∷ []) b = ground arith
  events-hot map mod_time ((loop_pass rooms self c n, now) ∷ []) b =
      loop_once-hot rooms self c now b n
  events-hot map mod_time ((e, now) ∷ f ∷ es) b =
      events-hot map mod_time (f ∷ es) (bridge_step w map mod_time e now b)

  -- From a bridge that keeps to it, and whatever frames come from CAN and words from the host, and
  -- however the loop passes: the count of dead nodes is the number of nodes that were seen before and
  -- are not alive; the WARNING is on while that is not 0, and while it is 0 on only if it was raised by
  -- something else before, or a pass has found the bridge too hot; and a node that is alive has been
  -- seen. After a pass that finds the bridge too hot the WARNING is on.
  pub run-Tracks :
      (map : List DcsBiosInputEntry) (mod_time : ℕ) (es : List (Event × ℕ)) (r : Bool) (b : Bridge)
      → Tracks r b
      → (let e = bridge_run w map mod_time es b in
          Tracks (r || hot_passes w es) e × (e.warning ≡ (e.warning || hot_last w es)))
  run-Tracks map mod_time es r b t =
      (events-Tracks map mod_time es r b t, events-hot map mod_time es b)
