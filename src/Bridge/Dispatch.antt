-- ===== src/Bridge/Dispatch.antt =====
-- The slots of event frames, routed to the sim or to the joystick (PanelBridge.cpp).
use open_skyhawk.Base.{
  ℕ, zero, suc, ◌+◌, ◌-◌, ◌/◌, ◌^◌, Bool, ◌&&◌, List, [], ◌∷◌, length, get_or, Option, none, some,
  ◌==◌, ltb, leb, if◌then◌else◌,
}
use open_skyhawk.Boot.Session.{at16}
use open_skyhawk.Bridge.State.{message, Bridge, emit}
use open_skyhawk.Bridge.Rows.{decimal, send_hid_frame}

abbrev pub ctrl_id_dcs_min : ℕ
ctrl_id_dcs_min = 0x8000

abbrev pub ctrl_id_dcs_max : ℕ
ctrl_id_dcs_max = 0x86FF

-- an entry of A4EC_INPUT_MAP, which a tool generates: a control's number and its DCS-BIOS name
pub record DcsBiosInputEntry : Type 0 where
  pub cmd_id : ℕ
  pub name : List ℕ

abbrev no_entry : DcsBiosInputEntry
no_entry = record { cmd_id = 0; name = [] }

-- `map[i]`
abbrev pub entry : List DcsBiosInputEntry → ℕ → DcsBiosInputEntry
entry map i = get_or map i no_entry

-- The loop of `lookupDcsEntry` on the entries from `lo` on and below `hi`, where the C++ has the last one
-- that is left, `hi - 1`; `k` rounds at most.
unfoldable pub lookup_from : ℕ → List DcsBiosInputEntry → ℕ → ℕ → ℕ → Option DcsBiosInputEntry
lookup_from zero map id lo hi = none
lookup_from (suc k) map id lo hi =
    let mid = (lo + (hi - 1)) / 2 in
    let e = entry map mid in
    let rest =
      lookup_from k map id (if ltb e.cmd_id id then mid + 1 else lo)
        (if ltb e.cmd_id id then hi else mid) in
    if leb hi lo then none else if e.cmd_id == id then some e else rest

-- `lookupDcsEntry(controlId)`
unfoldable pub lookup_dcs_entry : List DcsBiosInputEntry → ℕ → Option DcsBiosInputEntry
lookup_dcs_entry map id = lookup_from (length map) map id 0 (length map)

-- "%+d" of an int16_t
unfoldable pub signed_decimal : ℕ → List ℕ
signed_decimal v = if ltb v (2 ^ 15) then b'+' ∷ decimal 5 v else b'-' ∷ decimal 5 (2 ^ 16 - v)

abbrev pub is_dcs : ℕ → Bool
is_dcs id = leb ctrl_id_dcs_min id && leb id ctrl_id_dcs_max

module _ (map : List DcsBiosInputEntry) where
  -- `sendDcs(controlId, arg)`
  unfoldable pub send_dcs : ℕ → List ℕ → Bridge → Bridge
  send_dcs id arg b = elim (lookup_dcs_entry map id) [
    | none ↦ b
    | some e ↦ emit (message e.name arg) b
  ]

  -- `dispatchDcsInput`, "%u"
  unfoldable pub dispatch_dcs_input : ℕ → ℕ → Bridge → Bridge
  dispatch_dcs_input id v b = send_dcs id (decimal 5 v) b

  -- `dispatchDcsRel`
  unfoldable pub dispatch_dcs_rel : ℕ → ℕ → Bridge → Bridge
  dispatch_dcs_rel id v b = send_dcs id (signed_decimal v) b

  -- `dispatchDcsDir`
  unfoldable pub dispatch_dcs_dir : ℕ → ℕ → Bridge → Bridge
  dispatch_dcs_dir id v b =
      if v == 1
      then send_dcs id (b'I' ∷ b'N' ∷ b'C' ∷ []) b
      else if v == 2 ^ 16 - 1
      then send_dcs id (b'D' ∷ b'E' ∷ b'C' ∷ []) b
      else b

  -- `dispatchDcsAction`
  unfoldable pub dispatch_dcs_action : ℕ → ℕ → Bridge → Bridge
  dispatch_dcs_action id v b =
      if v == 0 then send_dcs id (b'T' ∷ b'O' ∷ b'G' ∷ b'G' ∷ b'L' ∷ b'E' ∷ []) b else b

  -- `dispatchEvtSlot`
  unfoldable pub dispatch_evt_slot : ℕ → ℕ → Bridge → Bridge
  dispatch_evt_slot id v b =
      if id == 0
      then b
      else if is_dcs id
      then dispatch_dcs_input id v b
      else if ltb id ctrl_id_dcs_min
      then send_hid_frame id v b
      else b

  -- `dispatchRelSlot`, `dispatchDirSlot` and `dispatchActionSlot`
  unfoldable pub dispatch_rel_slot : ℕ → ℕ → Bridge → Bridge
  dispatch_rel_slot id v b = if id == 0 then b else if is_dcs id then dispatch_dcs_rel id v b else b

  unfoldable pub dispatch_dir_slot : ℕ → ℕ → Bridge → Bridge
  dispatch_dir_slot id v b = if id == 0 then b else if is_dcs id then dispatch_dcs_dir id v b else b

  unfoldable pub dispatch_action_slot : ℕ → ℕ → Bridge → Bridge
  dispatch_action_slot id v b =
      if id == 0 then b else if is_dcs id then dispatch_dcs_action id v b else b

-- A `ControlPacketPair` of a frame: its first slot, and its second unless it is empty.
unfoldable pub dispatch_pair : (ℕ → ℕ → Bridge → Bridge) → List ℕ → Bridge → Bridge
dispatch_pair slot d b =
    let c = slot (at16 d 0) (at16 d 2) b in
    if ltb (length d) 8 then b else if at16 d 4 == 0 then c else slot (at16 d 4) (at16 d 6) c
