-- ===== src/Can/Watch.antt =====
-- The WARNING latch of a node (CANProtocol.cpp): what the service writes to it.
use open_skyhawk.Base.{ℕ, ◌≡◌, List}
use open_skyhawk.Can.Node.{Node, RxQueueEntry, can_id_hb, gateway_node_id}

-- The second node's watchdog is the first one's.
record Watched (n m : Node) : Type 0 where
  ever : m.ever_saw_master ≡ n.ever_saw_master
  last : m.last_master_ms ≡ n.last_master_ms
  lost : m.master_lost ≡ n.master_lost
  pending : m.master_hb_pending ≡ n.master_hb_pending

-- the frame HB_0
abbrev pub master_hb : List ℕ → RxQueueEntry
master_hb d = record { can_id = can_id_hb gateway_node_id; bytes = d }
