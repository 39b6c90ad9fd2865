-- ===== src/Bridge/Export.antt =====
-- What the host writes on the export stream (PanelBridge.cpp): the requests to the bridge itself, the
-- relay, and all else for the nodes.
use open_skyhawk.Base.{
  ℕ, zero, suc, ◌+◌, ◌-◌, ◌*◌, ◌/◌, ◌%◌, ◌^◌, Bool, true, false, not, ◌&&◌, ◌||◌, List, [], ◌∷◌,
  get_or, set, Option, none, some, ◌==◌, ltb, leb, if◌then◌else◌,
}
use open_skyhawk.Upload.Wire.{CanFrame, relay_export_address, relay_export_words}
use open_skyhawk.Upload.Tick.{bridge_enter_export_address, node_status_req_addr}
use open_skyhawk.Bridge.Relay.{can_id_boot_cmd, max_node_id, on_write}
use open_skyhawk.Bridge.State.{
  can_frame, broadcast, link_active, enter_bootloader, Bridge, put, emit, node,
}
use open_skyhawk.Bridge.Nodes.{forget_node, emit_all_nodes, note_boot_traffic}

abbrev pub node_forget_req_addr : ℕ
node_forget_req_addr = 0xFF04

abbrev pub in_relay_window : ℕ → Bool
in_relay_window a =
    leb relay_export_address a && ltb a (relay_export_address + 2 * relay_export_words)

-- `handleDcsBiosExport(address, value)`
unfoldable pub handle_dcs_bios_export : ℕ → ℕ → Bridge → Bridge
handle_dcs_bios_export a v b =
    if a == 0
      || (a == node_status_req_addr
          || (a == node_forget_req_addr || (a == bridge_enter_export_address || in_relay_window a)))
    then b
    else emit (broadcast a v) (emit link_active b)

-- `onForgetRequest(value)`
unfoldable pub on_forget_request : ℕ → Bridge → Bridge
on_forget_request v b =
    let id = v % 256 in
    if ltb id 1 || (ltb max_node_id id || (not (node id b).ever_seen || (node id b).alive))
    then b
    else emit_all_nodes (forget_node id b)

-- the seconds of a model time, up to a point and of five characters at most
unfoldable pub seconds : ℕ → ℕ → List ℕ → ℕ
seconds zero sec cs = sec
seconds (suc k) sec [] = sec
seconds (suc k) sec (c ∷ cs) =
    let rest = seconds k (if leb b'0' c && leb c b'9' then sec * 10 + (c - b'0') else sec) cs in
    if c == 0 || c == b'.' then sec else rest

-- every node that is alive, of `k` from index `i` on, queued for a sync
unfoldable pub queue_alive : ℕ → ℕ → Bridge → Bridge
queue_alive zero i b = b
queue_alive (suc k) i b =
    queue_alive k (i + 1)
      (record b { sync_queue = put b.sync_queue i ((b.nodes i).alive || b.sync_queue i) })

-- the first model time, or one that may have gone back
unfoldable pub new_model_time : Option ℕ → ℕ → Bridge → Bridge
new_model_time none sec b = record b { last_model_time_sec = some sec }
new_model_time (some last) sec b =
    record (if ltb sec last then queue_alive max_node_id 0 b else b) {
      last_model_time_sec = some sec;
    }

-- `onModelTimeChange`
unfoldable pub on_model_time_change : Bridge → Bridge
on_model_time_change b = new_model_time b.last_model_time_sec (seconds 5 0 b.model_time) b

-- `setChar(i, c)`
unfoldable pub set_char : ℕ → ℕ → Bridge → Bridge
set_char i c b =
    if get_or b.model_time i 0 == c
    then b
    else record b { model_time = set b.model_time i c; model_time_dirty = true }

-- a frame that the relay hands to `CANProtocol::send`, and the node's traffic that it shows
unfoldable pub relay_frame : CanFrame → ℕ → Bridge → Bridge
relay_frame f now b =
    let id = f.id - can_id_boot_cmd 0 in
    let to_node = leb (can_id_boot_cmd 1) f.id && leb f.id (can_id_boot_cmd max_node_id) in
    let c = emit (can_frame f) b in
    if to_node && not ((node id b).bootloader == 0) then note_boot_traffic id now c else c

unfoldable pub relay_frames : List CanFrame → ℕ → Bridge → Bridge
relay_frames [] now b = b
relay_frames (f ∷ fs) now b = relay_frames fs now (relay_frame f now b)

-- `onDcsBiosWrite` with the model time at `mod_time` (CommonData_MOD_TIME_A), an address of the sim
module _ (mod_time : ℕ) where
  abbrev pub model_time_last : ℕ
  model_time_last = mod_time + 5 - 1

  -- the latch of the model time
  unfoldable pub latch_model_time : ℕ → ℕ → Bridge → Bridge
  latch_model_time a v b =
      let c =
        if b.model_time_dirty && ltb model_time_last a
        then on_model_time_change (record b { model_time_dirty = false })
        else b in
      let i = a - mod_time in
      let e = set_char i (v % 256) c in
      if leb mod_time a && leb a model_time_last
      then (if ltb (i + 1) 5 then set_char (i + 1) (v / 256 % 256) e else e)
      else c

  unfoldable pub on_dcs_bios_write : ℕ → ℕ → ℕ → Bridge → Bridge
  on_dcs_bios_write a v now b =
      let c = latch_model_time a v b in
      let (fs, r) = on_write a v c.relay in
      if a == node_status_req_addr
      then emit_all_nodes c
      else if a == node_forget_req_addr
      then on_forget_request v c
      else if a == bridge_enter_export_address
      then emit enter_bootloader c
      else if in_relay_window a
      then relay_frames fs now (record c { relay = r })
      else handle_dcs_bios_export (a % 2 ^ 16) (v % 2 ^ 16) c
