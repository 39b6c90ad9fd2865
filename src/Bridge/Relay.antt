-- ===== src/Bridge/Relay.antt =====
-- `BootRelay` (PanelBridge.cpp): the frames of the export records that a host writes, put on CAN.
use open_skyhawk.Base.{
  ℕ, ◌+◌, ◌*◌, ◌/◌, ◌%◌, ◌^◌, Bool, true, false, ◌&&◌, ◌||◌, List, [], ◌∷◌, ◌++◌, length, get_or,
  drop, bit_and, ◌==◌, ltb, leb, if◌then◌else◌,
}
use open_skyhawk.Upload.Wire.{
  CanFrame, relay_export_address, relay_frame_mark, relay_escape, relay_esc_55, relay_esc_56,
}

-- `canIdBootCmd(n)`, MAX_NODE_ID and UNCONFIGURED_CMD_ID
abbrev pub can_id_boot_cmd : ℕ → ℕ
can_id_boot_cmd n = 0x740 + n

abbrev pub max_node_id : ℕ
max_node_id = 63

abbrev pub unconfigured_cmd_id : ℕ
unconfigured_cmd_id = 0x7C0

-- The bytes of `_f` below `_pos`, `_need` and `_esc`.
pub record BootRelay : Type 0 where
  pub f : List ℕ
  pub need : ℕ
  pub esc : Bool

-- the identifiers that the host may put on the bus
abbrev pub is_allowed : ℕ → Bool
is_allowed id =
    leb (can_id_boot_cmd 1) id && leb id (can_id_boot_cmd max_node_id) || id == unconfigured_cmd_id

-- what a whole frame hands to `CANProtocol::send`
unfoldable pub forward : List ℕ → List CanFrame
forward f =
    let id = get_or f 0 0 + 2 ^ 8 * get_or f 1 0 in
    if is_allowed id then record { id = id; bytes = drop 2 f } ∷ [] else []

-- `_f[_pos++] = b`, and the end of a frame
unfoldable pub take_byte : ℕ → BootRelay → List CanFrame × BootRelay
take_byte b r =
    let f = r.f ++ b ∷ [] in
    if ltb (length f) r.need
    then ([], record r { f = f })
    else (forward f, record r { f = f; need = 0 })

-- `feed(b)`
unfoldable pub feed : ℕ → BootRelay → List CanFrame × BootRelay
feed b r =
    if r.need == 0
    then (if bit_and b 0xF0 == relay_frame_mark && leb (bit_and b 0x0F) 8
        then ([], record { f = []; need = 2 + bit_and b 0x0F; esc = false })
        else ([], r))
    else if r.esc
    then (if b == relay_esc_55
        then take_byte 0x55 (record r { esc = false })
        else if b == relay_esc_56
        then take_byte 0x56 (record r { esc = false })
        else ([], record r { esc = false; need = 0 }))
    else if b == relay_escape
    then ([], record r { esc = true })
    else take_byte b r

unfoldable pub feed_all : List ℕ → BootRelay → List CanFrame × BootRelay
feed_all [] r = ([], r)
feed_all (b ∷ bs) r = let (fs, r') = feed b r in let (gs, r'') = feed_all bs r' in (fs ++ gs, r'')

-- `onWrite(address, data)`
unfoldable pub on_write : ℕ → ℕ → BootRelay → List CanFrame × BootRelay
on_write address word r =
    let r = if address == relay_export_address then record r { need = 0 } else r in
    let (fs, r') = feed (word % 256) r in
    let (gs, r'') = feed (word / 256 % 256) r' in (fs ++ gs, r'')

-- the writes of a record: each an address and a word
unfoldable pub on_writes : List (ℕ × ℕ) → BootRelay → List CanFrame × BootRelay
on_writes [] r = ([], r)
on_writes ((a, v) ∷ ws) r =
    let (fs, r') = on_write a v r in let (gs, r'') = on_writes ws r' in (fs ++ gs, r'')
