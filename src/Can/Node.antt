-- ===== src/Can/Node.antt =====
-- The state of CANProtocol.cpp on a node, but for the transmit side, and what it puts out.
use open_skyhawk.Base.{ℕ, ◌+◌, ◌-◌, ◌%◌, ◌^◌, ◌/◌, Bool, ◌&&◌, List, [], ◌∷◌, ◌++◌, Option, ltb}
use open_skyhawk.Can.Batch.{BatchState, Frame}

-- the identifiers of CANProtocol.h
abbrev pub can_id_ctrl_bcast : ℕ
can_id_ctrl_bcast = 0x7E0

abbrev pub can_id_test_seq : ℕ
can_id_test_seq = 0x011

abbrev pub can_id_sync_req : ℕ
can_id_sync_req = 0x012

abbrev pub can_id_hb : ℕ → ℕ
can_id_hb n = 0x100 + n

abbrev pub can_id_health : ℕ → ℕ
can_id_health n = 0x140 + n

abbrev pub can_id_evt : ℕ → ℕ
can_id_evt n = 0x200 + n

abbrev pub can_id_evt_rel : ℕ → ℕ
can_id_evt_rel n = 0x500 + n

abbrev pub can_id_evt_dir : ℕ → ℕ
can_id_evt_dir n = 0x600 + n

abbrev pub can_id_evt_action : ℕ → ℕ
can_id_evt_action n = 0x700 + n

abbrev pub can_id_echo : ℕ → ℕ
can_id_echo n = 0x300 + n

abbrev pub can_id_ready : ℕ → ℕ
can_id_ready n = 0x400 + n

-- `canIdBootCmd(n)` of BootProtocol.h
abbrev pub can_id_boot_cmd : ℕ → ℕ
can_id_boot_cmd n = 0x740 + n

abbrev pub gateway_node_id : ℕ
gateway_node_id = 0

abbrev pub hb_period_ms : ℕ
hb_period_ms = 500

abbrev pub health_period_ms : ℕ
health_period_ms = 1000

abbrev pub master_timeout_ms : ℕ
master_timeout_ms = 1500

abbrev pub dup_node_timeout_ms : ℕ
dup_node_timeout_ms = 3000

-- `enum class CanStatus`
pub data CanStatus : Type 0 where
  starting normal tx_error bus_off : CanStatus

pub record RxQueueEntry : Type 0 where
  pub can_id : ℕ
  pub bytes : List ℕ

-- What the build sets: NODE_ID, RX_RING_SIZE, BATCH_HOLD_MS, NODE_OVERHEAT_C where it is defined, the
-- firmware's version, and what STM32Board::bootloaderVersion() gives.
pub record Build : Type 0 where
  pub node_id : ℕ
  pub rx_ring_size : ℕ
  pub batch_hold_ms : ℕ
  pub overheat_c : Option ℕ
  pub fw_major : ℕ
  pub fw_minor : ℕ
  pub fw_patch : ℕ
  pub bootloader : ℕ

-- What goes out: a call of send(), the callbacks, and calls of STM32Board.
pub data Out : Type 0 where
  sends : ℕ → List ℕ → Out
  sync_req : Out
  received : ℕ → List ℕ → Out
  enter_bootloader : Out
  status_change : CanStatus → Out
  set_warning : Bool → Out
  log_fault_edge : ℕ → List ℕ → Out

-- NodeHealthPayload
pub record Health : Type 0 where
  pub die_temp : ℕ
  pub flags : ℕ
  pub fault_id : ℕ
  pub node_kind : ℕ

-- The globals.
pub record Node : Type 0 where
  pub rx_ring : ℕ → RxQueueEntry
  pub rx_head : ℕ
  pub rx_tail : ℕ
  pub rx_drops : ℕ
  pub rx_overruns : ℕ
  pub batches : List BatchState
  pub ready_sent : Bool
  pub resync_pending : Bool
  pub resync_since_ms : ℕ
  pub status : CanStatus
  pub loopback : Bool
  pub own_hb_loop_pending : ℕ
  pub status_armed : Bool
  pub last_hb_ms : ℕ
  pub last_health_ms : ℕ
  pub last_health : Health
  pub last_master_ms : ℕ
  pub ever_saw_master : Bool
  pub master_hb_pending : Bool
  pub master_lost : Bool
  pub overheat : Bool
  pub warn_asserted : Bool
  pub last_dup_ms : ℕ
  pub dup_seen : Bool
  pub out : List Out

-- `now - since` on uint32_t
abbrev pub elapsed : ℕ → ℕ → ℕ
elapsed now since = (now + 2 ^ 32 - since) % 2 ^ 32

-- `(int32_t)(now - since) > (int32_t)limit`
abbrev pub overdue : ℕ → ℕ → ℕ → Bool
overdue limit now since = let d = elapsed now since in ltb limit d && ltb d (2 ^ 31)

abbrev pub put_out : Out → Node → Node
put_out o n = record n { out = n.out ++ o ∷ [] }

-- a uint16_t, low byte first
abbrev pub le16 : ℕ → List ℕ
le16 v = v % 256 ∷ v / 256 % 256 ∷ []

-- the bytes of a `ControlPacketPair`
abbrev pub pair_bytes : Frame → List ℕ
pair_bytes f = le16 f.a.control_id ++ (le16 f.a.value ++ (le16 f.b.control_id ++ le16 f.b.value))

-- the frames that batching hands to send()
unfoldable pub send_frames : List Frame → Node → Node
send_frames [] n = n
send_frames (f ∷ fs) n = send_frames fs (put_out (sends f.can_id (pair_bytes f)) n)
