-- ===== src/Bridge/Rows.antt =====
-- The lines that the bridge writes for the host (PanelBridge.cpp): their numbers in hex and in decimal.
use open_skyhawk.Base.{
  ℕ, zero, suc, ◌+◌, ◌-◌, ◌/◌, ◌%◌, Bool, List, [], ◌∷◌, ◌++◌, length, take, ltb, if◌then◌else◌,
  bit_or,
}
use open_skyhawk.Upload.Lines.{boot_rsp_msg_name, node_status_msg_name}
use open_skyhawk.Bridge.State.{
  Heartbeat, NodeState, Out, message, serial, Bridge, emit, node, node_boot_state_updating,
}

-- a digit of "%X"
unfoldable pub hex_digit : ℕ → ℕ
hex_digit d = if ltb d 10 then b'0' + d else b'A' + (d - 10)

-- "%02X" of a byte and "%04X" of a uint16_t
unfoldable pub hex2 : ℕ → List ℕ
hex2 v = hex_digit (v / 16 % 16) ∷ hex_digit (v % 16) ∷ []

abbrev pub hex4 : ℕ → List ℕ
hex4 v = hex2 (v / 256 % 256) ++ hex2 (v % 256)

unfoldable pub hex_all : List ℕ → List ℕ
hex_all [] = []
hex_all (b ∷ bs) = hex2 b ++ hex_all bs

-- "%u", `k` digits at most
unfoldable pub decimal : ℕ → ℕ → List ℕ
decimal zero n = []
decimal (suc k) n =
    let rest = decimal k (n / 10) in
    if ltb n 10 then (b'0' + n) ∷ [] else rest ++ (b'0' + n % 10) ∷ []

-- a row's arguments, in the order of `emitRow`
pub record Row : Type 0 where
  pub id : ℕ
  pub present : Bool
  pub hb : Heartbeat
  pub die_temp : ℕ
  pub health_flags : ℕ
  pub fault_mask : ℕ
  pub fault_id : ℕ
  pub node_kind : ℕ
  pub fw_major : ℕ
  pub fw_minor : ℕ
  pub fw_patch : ℕ
  pub bootloader : ℕ
  pub boot_state : ℕ

-- the hex of `emitRow`
unfoldable pub row_hex : Row → List ℕ
row_hex r =
    hex2 r.id
    ++ (hex2 (if r.present then 1 else 0)
        ++ (hex2 r.hb.flags
            ++ (hex4 r.hb.uptime
                ++ (hex4 r.hb.rx_count
                    ++ (hex4 r.hb.esr
                        ++ (hex2 r.die_temp
                            ++ (hex2 r.health_flags
                                ++ (hex2 r.fault_mask
                                    ++ (hex2 r.fault_id
                                        ++ (hex2 r.node_kind
                                            ++ (hex2 r.fw_major
                                                ++ (hex2 r.fw_minor
                                                    ++ (hex2 r.fw_patch
                                                        ++ (hex2 r.bootloader
                                                            ++ hex2 r.boot_state))))))))))))))

-- `emitRow`
abbrev pub row_message : Row → Out
row_message r = message node_status_msg_name (row_hex r)

-- the row of a node, as `emitNode` passes it on
abbrev pub node_row : ℕ → Bool → NodeState → Row
node_row id present ns = record {
  id = id;
  present = present;
  hb = ns.last;
  die_temp = ns.die_temp;
  health_flags = ns.health_flags;
  fault_mask = ns.fault_mask;
  fault_id = ns.fault_id;
  node_kind = ns.node_kind;
  fw_major = ns.fw_major;
  fw_minor = ns.fw_minor;
  fw_patch = ns.fw_patch;
  bootloader = ns.bootloader;
  boot_state = if ns.updating then bit_or ns.boot_state node_boot_state_updating else ns.boot_state;
}

-- `emitNode(nodeId, present)`
unfoldable pub emit_node : ℕ → Bool → Bridge → Bridge
emit_node id present b = emit (row_message (node_row id present (node id b))) b

-- "_NODE_TELEM" and "_NODE_STATUS_END"
abbrev pub node_telem_msg_name : List ℕ
node_telem_msg_name =
    b'_' ∷ b'N' ∷ b'O' ∷ b'D' ∷ b'E' ∷ b'_' ∷ b'T' ∷ b'E' ∷ b'L' ∷ b'E' ∷ b'M' ∷ []

abbrev pub node_status_end_msg_name : List ℕ
node_status_end_msg_name = node_status_msg_name ++ b'_' ∷ b'E' ∷ b'N' ∷ b'D' ∷ []

-- `emitTelem`, of the eight bytes of a frame
unfoldable pub emit_telem : ℕ → List ℕ → Bridge → Bridge
emit_telem id d b = emit (message node_telem_msg_name (hex2 id ++ hex_all (take 8 d))) b

-- `emitBootRsp`
unfoldable pub emit_boot_rsp : ℕ → List ℕ → Bridge → Bridge
emit_boot_rsp id d b =
    let head = hex_digit (id / 256 % 16) ∷ (hex2 (id % 256) ++ hex_digit (length d % 16) ∷ []) in
    emit (message boot_rsp_msg_name (head ++ hex_all (take 8 d))) b

-- `sendHidFrame`
unfoldable pub send_hid_frame : ℕ → ℕ → Bridge → Bridge
send_hid_frame id v b = emit (serial (0xAA ∷ 0x55 ∷ id % 256 ∷ id / 256 ∷ v % 256 ∷ v / 256 ∷ [])) b
