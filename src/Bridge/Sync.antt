-- ===== src/Bridge/Sync.antt =====
-- Asking one node at a time for its inputs, and the roster a row at a time (PanelBridge.cpp).
use open_skyhawk.Base.{
  ℕ, zero, suc, ◌+◌, ◌-◌, ◌%◌, ◌^◌, Bool, true, false, not, ◌&&◌, ◌||◌, List, [], ◌∷◌, Option, none,
  some, ◌==◌, ltb, leb, if◌then◌else◌,
}
use open_skyhawk.Bridge.Relay.{max_node_id}
use open_skyhawk.Bridge.State.{
  NodeState, Out, message, sync_req, RosterNext, self_row, row_from, Bridge, sync_timeout_ms,
  elapsed, put, emit,
}
use open_skyhawk.Bridge.Rows.{Row, row_message, decimal, node_status_end_msg_name, emit_node}

-- the lowest bit that is set, of `k` bits from `i` on
unfoldable pub first_set : ℕ → ℕ → (ℕ → Bool) → Option ℕ
first_set zero i q = none
first_set (suc k) i q = let rest = first_set k (i + 1) q in if q i then some i else rest

-- `(int32_t)(now - _syncSentMs) < SYNC_TIMEOUT_MS`
abbrev pub sync_waits : ℕ → Bridge → Bool
sync_waits now b =
    let d = elapsed now b.sync_sent_ms in
    not (b.syncing == 0) && (ltb d sync_timeout_ms || leb (2 ^ 31) d)

-- the node that is asked next, if one waits
unfoldable pub ask_next : Option ℕ → ℕ → Bridge → Bridge
ask_next none now b = record b { syncing = 0 }
ask_next (some i) now b =
    emit (sync_req (i + 1))
      (record b { sync_queue = put b.sync_queue i false; syncing = i + 1; sync_sent_ms = now })

-- `serviceSync(now)`
unfoldable pub service_sync : ℕ → Bridge → Bridge
service_sync now b = if sync_waits now b then b else ask_next (first_set 64 0 b.sync_queue) now b

-- the index of the first node alive, of `k` from `i` on
unfoldable pub next_alive : ℕ → ℕ → (ℕ → NodeState) → Option ℕ
next_alive zero i ns = none
next_alive (suc k) i ns =
    let rest = next_alive k (i + 1) ns in if (ns i).alive then some i else rest

abbrev pub roster_end : ℕ → Out
roster_end n = message node_status_end_msg_name (decimal 3 n)

-- the row of the next node that is alive, or the end of the roster
unfoldable pub next_row : Option ℕ → Bridge → Bridge
next_row (some i) b = record (emit_node (i + 1) true b) {
  roster_count = (b.roster_count + 1) % 256;
  roster_next = row_from (i + 1);
}
next_row none b = record (emit (roster_end b.roster_count) b) {
  roster_pending = false;
  roster_next = row_from max_node_id;
}

-- One turn of the loop of `serviceRoster`. `self` is the bridge's own row, from what CANProtocol and
-- STM32Board say of it.
unfoldable pub roster_turn : RosterNext → Row → Bridge → Bridge
roster_turn self_row self b =
    emit (row_message self) (record b { roster_count = 1; roster_next = row_from 0 })
roster_turn (row_from n) self b = next_row (next_alive (max_node_id - n) n b.nodes) b

-- `serviceRoster`: for each test of the loop, whether the UART has room for a line
unfoldable pub service_roster : List Bool → Row → Bridge → Bridge
service_roster [] self b = b
service_roster (room ∷ rooms) self b =
    let rest = service_roster rooms self (roster_turn b.roster_next self b) in
    if b.roster_pending && room then rest else b
