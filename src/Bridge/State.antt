-- ===== src/Bridge/State.antt =====
-- The state of the bridge (PanelBridge.cpp): its table of nodes, what waits to be done, and what it has
-- put out so far.
use open_skyhawk.Base.{
  ℕ, ◌+◌, ◌-◌, ◌%◌, ◌^◌, Bool, true, false, List, [], ◌∷◌, ◌++◌, Option, ◌==◌, if◌then◌else◌,
}
use open_skyhawk.Upload.Wire.{CanFrame}
use open_skyhawk.Bridge.Relay.{BootRelay}

-- the times and addresses of PanelBridge.cpp and NodeStatus.h
abbrev pub hb_timeout_ms : ℕ
hb_timeout_ms = 3000

abbrev pub sync_timeout_ms : ℕ
sync_timeout_ms = 150

abbrev pub node_boot_updating_ms : ℕ
node_boot_updating_ms = 3000

abbrev pub node_boot_state_updating : ℕ
node_boot_state_updating = 0x80

-- DIE_TEMP_UNAVAILABLE, as the byte that it is sent as
abbrev pub die_temp_unavailable : ℕ
die_temp_unavailable = 0x80

-- HeartbeatPayload, but for its node
pub record Heartbeat : Type 0 where
  pub flags : ℕ
  pub uptime : ℕ
  pub rx_count : ℕ
  pub esr : ℕ

pub record NodeState : Type 0 where
  pub alive : Bool
  pub ever_seen : Bool
  pub last_seen_ms : ℕ
  pub last : Heartbeat
  pub die_temp : ℕ
  pub health_flags : ℕ
  pub fault_mask : ℕ
  pub fault_id : ℕ
  pub node_kind : ℕ
  pub fw_major : ℕ
  pub fw_minor : ℕ
  pub fw_patch : ℕ
  pub bootloader : ℕ
  pub boot_state : ℕ
  pub updating : Bool
  pub last_boot_ms : ℕ

-- `NodeState{}`
abbrev pub no_node : NodeState
no_node = record {
  alive = false;
  ever_seen = false;
  last_seen_ms = 0;
  last = record { flags = 0; uptime = 0; rx_count = 0; esr = 0 };
  die_temp = die_temp_unavailable;
  health_flags = 0;
  fault_mask = 0;
  fault_id = 0;
  node_kind = 0;
  fw_major = 0;
  fw_minor = 0;
  fw_patch = 0;
  bootloader = 0;
  boot_state = 0;
  updating = false;
  last_boot_ms = 0;
}

-- What the bridge puts out: a message to the host, bytes of a HID frame, a frame to CAN, a packet for a
-- broadcast, a SYNC_REQ, the registered callbacks, and calls of STM32Board.
pub data Out : Type 0 where
  message : List ℕ → List ℕ → Out
  serial : List ℕ → Out
  can_frame : CanFrame → Out
  broadcast : ℕ → ℕ → Out
  sync_req node_alive node_dead : ℕ → Out
  link_active enter_bootloader : Out

-- `_rosterNext`: the bridge's own row, or the row at an index
pub data RosterNext : Type 0 where
  self_row : RosterNext
  row_from : ℕ → RosterNext

-- The globals. `warning` is the LED's latch that setWarning() writes, `model_time` the five characters of
-- the export dispatcher, `out` what went out so far.
pub record Bridge : Type 0 where
  pub nodes : ℕ → NodeState
  pub dead_count : ℕ
  pub warning : Bool
  pub roster_pending : Bool
  pub roster_next : RosterNext
  pub roster_count : ℕ
  pub sync_queue : ℕ → Bool
  pub syncing : ℕ
  pub sync_sent_ms : ℕ
  pub last_model_time_sec : Option ℕ
  pub model_time : List ℕ
  pub model_time_dirty : Bool
  pub relay : BootRelay
  pub out : List Out

-- `now - since` on uint32_t
abbrev pub elapsed : ℕ → ℕ → ℕ
elapsed now since = (now + 2 ^ 32 - since) % 2 ^ 32

abbrev pub put {ℓ} : {A : Type ℓ} → (ℕ → A) → ℕ → A → ℕ → A
put f i v j = if j == i then v else f j

abbrev pub emit : Out → Bridge → Bridge
emit o b = record b { out = b.out ++ o ∷ [] }

-- `_nodes[nodeId - 1]`
abbrev pub node : ℕ → Bridge → NodeState
node id b = b.nodes (id - 1)

abbrev pub set_node : ℕ → NodeState → Bridge → Bridge
set_node id v b = record b { nodes = put b.nodes (id - 1) v }

-- `queueSync(nodeId)`
abbrev pub queue_sync : ℕ → Bridge → Bridge
queue_sync id b = record b { sync_queue = put b.sync_queue (id - 1) true }
