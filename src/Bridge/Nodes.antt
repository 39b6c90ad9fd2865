-- ===== src/Bridge/Nodes.antt =====
-- The life of a node as the bridge sees it (PanelBridge.cpp): heard of, timed out, forgotten.
use open_skyhawk.Base.{
  ℕ, zero, suc, ◌+◌, ◌-◌, ◌%◌, ◌^◌, Bool, true, false, not, ◌&&◌, ◌||◌, List, length, ◌==◌, ltb,
  leb, if◌then◌else◌,
}
use open_skyhawk.Boot.Reply
use open_skyhawk.Boot.Session.{at}
use open_skyhawk.Upload.Reply.{unconfigured_rsp_id, st_ok}
use open_skyhawk.Bridge.Relay.{max_node_id}
use open_skyhawk.Bridge.State.{
  NodeState, no_node, node_alive, node_dead, self_row, Bridge, hb_timeout_ms, node_boot_updating_ms,
  elapsed, put, emit, node, set_node,
}
use open_skyhawk.Bridge.Rows.{emit_node, emit_boot_rsp}

-- `_deadCount > 0 && --_deadCount == 0` clears the warning
unfoldable pub one_less_dead : Bridge → Bridge
one_less_dead b =
    if ltb 0 b.dead_count
    then record b {
      dead_count = b.dead_count - 1;
      warning = b.warning && not (b.dead_count - 1 == 0);
    }
    else b

-- a node that timed out, not just one that was never seen
abbrev pub is_dead : NodeState → Bool
is_dead ns = ns.ever_seen && not ns.alive

-- `markNodeAlive(nodeId, now)`
unfoldable pub mark_node_alive : ℕ → ℕ → Bridge → Bool × Bridge
mark_node_alive id now b =
    let ns = node id b in
    let b1 = set_node id (record ns { alive = true; ever_seen = true; last_seen_ms = now }) b in
    let b2 = if is_dead ns then one_less_dead b1 else b1 in
    if ns.alive then (false, b1) else (true, emit_node id true (emit (node_alive id) b2))

-- `forgetNode(nodeId)`
unfoldable pub forget_node : ℕ → Bridge → Bridge
forget_node id b =
    let c = record (set_node id no_node b) { sync_queue = put b.sync_queue (id - 1) false } in
    if is_dead (node id b) then one_less_dead c else c

-- `emitAllNodes`
unfoldable pub emit_all_nodes : Bridge → Bridge
emit_all_nodes b = record b { roster_pending = true; roster_next = self_row; roster_count = 0 }

-- `noteBootTraffic(nodeId, now)`
unfoldable pub note_boot_traffic : ℕ → ℕ → Bridge → Bridge
note_boot_traffic id now b =
    let ns = node id b in
    let c = set_node id (record ns { last_boot_ms = now; updating = true }) b in
    if not ns.updating && ns.alive then emit_node id true c else c

-- `APP_INVALID`
abbrev pub app_invalid_code : ℕ
app_invalid_code = 0x02

-- what a reply says of the node's bootloader, and whether that is news
unfoldable pub learn_boot : List ℕ → NodeState → Bool × NodeState
learn_boot d ns =
    if ltb 4 (length d) && (at d 0 == Reply.announce || at d 0 == Reply.connected)
    then (
      not (at d 1 == ns.bootloader) || not (at d 4 == ns.boot_state),
      record ns { bootloader = at d 1; boot_state = at d 4 },
    )
    else if leb 2 (length d) && (at d 0 == Reply.begun && at d 1 == st_ok)
    then (not (ns.boot_state == app_invalid_code), record ns { boot_state = app_invalid_code })
    else (false, ns)

-- the part of `onBootRsp` for a node that stays
unfoldable pub on_boot_reply : ℕ → List ℕ → ℕ → Bridge → Bridge
on_boot_reply id d now b =
    let (changed, ns) = learn_boot d (node id b) in
    let b1 = set_node id ns b in
    let b2 = if at d 0 == Reply.announce then b1 else note_boot_traffic id now b1 in
    let (woke, b3) = mark_node_alive id now b2 in
    if not woke && changed then emit_node id true b3 else b3

-- `onBootRsp`
unfoldable pub on_boot_rsp : ℕ → List ℕ → ℕ → Bridge → Bridge
on_boot_rsp can_id d now b =
    let id = can_id - 0x780 in
    let c = emit_boot_rsp can_id d b in
    if can_id == unconfigured_rsp_id
    then c
    else if leb 2 (length d) && (at d 0 == Reply.node_set && at d 1 == st_ok)
    then emit_all_nodes (forget_node id c)
    else on_boot_reply id d now c

-- `(int32_t)(now - since) > limit`
abbrev pub past : ℕ → ℕ → ℕ → Bool
past now since limit = ltb limit (elapsed now since) && ltb (elapsed now since) (2 ^ 31)

-- update traffic that has stopped
unfoldable pub end_update : ℕ → ℕ → Bridge → Bridge
end_update i now b =
    let ns = b.nodes i in
    let c = set_node (i + 1) (record ns { updating = false }) b in
    if ns.updating && past now ns.last_boot_ms node_boot_updating_ms
    then (if ns.alive then emit_node (i + 1) true c else c)
    else b

-- a node that has not been heard of for too long
unfoldable pub time_out : ℕ → ℕ → Bridge → Bridge
time_out i now b =
    let ns = b.nodes i in
    let c = record (set_node (i + 1) (record ns { alive = false }) b) {
      dead_count = (b.dead_count + 1) % 256;
      warning = true;
    } in
    if ns.alive && past now ns.last_seen_ms hb_timeout_ms
    then emit_node (i + 1) false (emit (node_dead (i + 1)) c)
    else b

-- the loop of `checkNodeTimeouts`, from node index `i` with `k` to go
unfoldable pub check_from : ℕ → ℕ → ℕ → Bridge → Bridge
check_from zero i now b = b
check_from (suc k) i now b = check_from k (i + 1) now (time_out i now (end_update i now b))

-- `checkNodeTimeouts(now)`
unfoldable pub check_node_timeouts : ℕ → Bridge → Bridge
unfolding check_from
check_node_timeouts now b = check_from max_node_id 0 now b
