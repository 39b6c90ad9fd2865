-- ===== src/Upload/Tick.antt =====
-- `tick` (Uploader.cpp): what the uploader sends and when it gives up.
use open_skyhawk.Base.{
  ℕ, zero, suc, ◌+◌, ◌-◌, ◌*◌, ◌/◌, ◌%◌, ◌^◌, Bool, true, false, not, ◌&&◌, List, [], ◌∷◌, ◌++◌,
  ◌==◌, ltb, leb, if◌then◌else◌,
}
use open_skyhawk.Boot.Cmd
use open_skyhawk.Boot.Flash.{Mem}
use open_skyhawk.Boot.Protocol.{block_size, data_bytes, data_frames}
use open_skyhawk.Upload.Wire.{CanFrame, send_frames}
use open_skyhawk.Upload.Protocol.{
  UplState, idle, staging, staged, flashing, UplPhase, entering_boot, connected, setting_id,
  erasing, writing, verifying, rebooting, confirming, ok, no_response, no_bootloader, id_mismatch,
  write_failed, verify_failed, version_mismatch, timeout, session_idle_ms, status_every_ms,
  connect_every_ms, enter_timeout_ms, reply_timeout_ms, erase_timeout_ms, ack_timeout_ms,
  max_stalls, confirm_timeout_ms, window_blocks,
}
use open_skyhawk.Upload.Image.{id_node, id_fw, crc16_bytes, slice}
use open_skyhawk.Upload.Session.{
  Seen, Uploader, elapsed, lo, hi, send_cmd, send_status, enter, finish, retry,
}

-- BRIDGE_ENTER_EXPORT_ADDRESS, NODE_STATUS_REQ_ADDR and NODE_BOOT_STATE_APP
abbrev pub bridge_enter_export_address : ℕ
bridge_enter_export_address = 0xFF02

abbrev pub node_status_req_addr : ℕ
node_status_req_addr = 0xFF00

abbrev pub node_boot_state_app : ℕ
node_boot_state_app = 0x00

-- `sendBridgeExport`
unfoldable pub send_bridge_export : ℕ → Uploader → Uploader
send_bridge_export a u =
    let bytes = 0x55 ∷ 0x55 ∷ 0x55 ∷ 0x55 ∷ lo a ∷ hi a ∷ 2 ∷ 0 ∷ 1 ∷ 0 ∷ [] in
    record u { wire = record (u.wire) { uart = u.wire.uart ++ bytes ∷ [] } }

-- the DATA frames of a block at `base` in the image, from frame `k` with `n` to go
unfoldable pub data_frames_from : ℕ → Mem → ℕ → ℕ → ℕ → List CanFrame
data_frames_from id img base k zero = []
data_frames_from id img base k (suc n) =
    let at = k * data_bytes in
    let cnt = if leb (at + data_bytes) block_size then data_bytes else block_size - at in
    record { id = id; bytes = (Cmd.data_0 + k) ∷ slice img (base + at) cnt }
    ∷ data_frames_from id img base (k + 1) n

-- the frames of block `b`: its header with its check, then the data
unfoldable pub block_frames : ℕ → Mem → ℕ → List CanFrame
unfolding data_frames_from
block_frames id img b =
    let base = b * block_size in
    let check = crc16_bytes img base block_size 0xFFFF in
    record { id = id; bytes = Cmd.block ∷ lo b ∷ hi b ∷ lo check ∷ hi check ∷ [] }
    ∷ data_frames_from id img base 0 data_frames

-- `sendBlock(b)`
unfoldable pub send_block : ℕ → Uploader → Uploader
send_block b u = record u { wire = send_frames u.bridge (block_frames u.cmd_id u.img b) u.wire }

-- a command sent once in its phase
abbrev pub send_once : List ℕ → Uploader → Uploader
send_once d u = if u.sent_once then u else send_cmd d (record u { sent_once = true })

-- UPL_PHASE_ENTERING_BOOT
unfoldable pub tick_entering : ℕ → Uploader → Uploader
tick_entering now u =
    let s = u.seen (u.target % 64) in
    let lost = not u.unconfigured && (s.present && s.bootloader == 0) in
    if ltb enter_timeout_ms (elapsed now u.phase_ms)
    then (if ltb 0 u.attempt
        then retry write_failed now u
        else finish (if lost then no_bootloader else no_response) now u)
    else if u.unconfigured && not u.uid_known
    then u
    else if u.bridge && (not u.bridge_heard && ltb (elapsed now u.phase_ms) 2000)
    then (if leb 500 (elapsed now u.last_enter_ms)
        then send_bridge_export bridge_enter_export_address (record u { last_enter_ms = now })
        else u)
    else if leb connect_every_ms (elapsed now u.last_send_ms)
    then send_cmd
        (if u.unconfigured then Cmd.connect ∷ lo u.uid ∷ hi u.uid ∷ [] else Cmd.connect ∷ [])
        (record u { last_send_ms = now })
    else u

-- UPL_PHASE_SETTING_ID
unfoldable pub tick_setting_id : ℕ → Uploader → Uploader
tick_setting_id now u =
    let v = send_once (Cmd.set_node_id ∷ u.new_id ∷ []) u in
    if ltb reply_timeout_ms (elapsed now u.phase_ms) then retry id_mismatch now v else v

-- the four bytes of a uint32_t
abbrev pub bytes32 : ℕ → List ℕ
bytes32 v = lo v ∷ hi v ∷ lo (v / 2 ^ 16) ∷ lo (v / 2 ^ 24) ∷ []

-- UPL_PHASE_ERASING
unfoldable pub tick_erasing : ℕ → Uploader → Uploader
tick_erasing now u =
    let v = send_once (Cmd.begin ∷ bytes32 u.len) u in
    if ltb erase_timeout_ms (elapsed now u.phase_ms) then retry write_failed now v else v

-- one block, if the window has room for it
unfoldable pub send_next : Uploader → Uploader
send_next u =
    if ltb u.sent u.blocks && ltb u.sent (u.acked + window_blocks)
    then send_block u.sent (record u { sent = (u.sent + 1) % 2 ^ 16 })
    else u

-- UPL_PHASE_WRITING
unfoldable pub tick_writing : ℕ → Uploader → Uploader
tick_writing now u =
    let v = record u { stalls = (u.stalls + 1) % 256 } in
    let back = record v { sent = v.acked; ack_deadline = (now + ack_timeout_ms) % 2 ^ 32 } in
    if ltb (elapsed now u.ack_deadline) (2 ^ 31)
    then (if ltb max_stalls v.stalls then retry write_failed now v else send_next back)
    else send_next u

-- UPL_PHASE_VERIFYING
unfoldable pub tick_verifying : ℕ → Uploader → Uploader
tick_verifying now u =
    let v = send_once (Cmd.end ∷ bytes32 u.crc) u in
    if ltb reply_timeout_ms (elapsed now u.phase_ms) then retry verify_failed now v else v

-- UPL_PHASE_REBOOTING
unfoldable pub tick_rebooting : ℕ → Uploader → Uploader
tick_rebooting now u =
    let v = send_once (Cmd.go ∷ []) u in
    if ltb reply_timeout_ms (elapsed now u.phase_ms)
    then enter confirming now (record v { confirm_from_ms = now })
    else v

abbrev pub same_fw : ℕ × ℕ × ℕ → ℕ × ℕ × ℕ → Bool
same_fw a b = a.0 == b.0 && (a.1 == b.1 && a.2 == b.2)

-- a row of the image's node that is newer than GO, with the app running
abbrev pub confirms : Uploader → Seen → Bool
confirms u s =
    not (s.ms == 0)
    && ltb (elapsed s.ms u.confirm_from_ms) (2 ^ 31)
    && (s.present && s.boot_state == node_boot_state_app)

-- UPL_PHASE_CONFIRMING
unfoldable pub tick_confirming : ℕ → Uploader → Uploader
tick_confirming now u =
    let v =
      if u.bridge && leb 500 (elapsed now u.last_enter_ms)
      then send_bridge_export node_status_req_addr (record u { last_enter_ms = now })
      else u in
    let s = u.seen (id_node u.img % 64) in
    if confirms u s
    then finish (if same_fw s.fw (id_fw u.img) then ok else version_mismatch) now v
    else if ltb confirm_timeout_ms (elapsed now u.phase_ms)
    then finish timeout now v
    else v

-- the `switch` over the phases
unfoldable pub tick_phase : UplPhase → ℕ → Uploader → Uploader
tick_phase entering_boot now u = tick_entering now u
tick_phase setting_id now u = tick_setting_id now u
tick_phase erasing now u = tick_erasing now u
tick_phase writing now u = tick_writing now u
tick_phase verifying now u = tick_verifying now u
tick_phase rebooting now u = tick_rebooting now u
tick_phase confirming now u = tick_confirming now u
tick_phase connected now u = u

abbrev pub is_writing : UplPhase → Bool
is_writing writing = true
is_writing _ = false

-- staging or staged: the session is dropped once the client has gone quiet
abbrev pub tick_session : ℕ → Uploader → Uploader
tick_session now u =
    if ltb session_idle_ms (elapsed now u.last_client_ms) then record u { state = idle } else u

-- `tick(now)` in each state
unfoldable pub tick_state : UplState → ℕ → Uploader → Uploader
tick_state idle now u = u
tick_state staging now u = tick_session now u
tick_state staged now u = tick_session now u
tick_state flashing now u =
    let u =
      if leb status_every_ms (elapsed now u.last_status_ms) && is_writing u.phase
      then send_status now u
      else u in
    tick_phase u.phase now u

unfoldable pub tick : ℕ → Uploader → Uploader
tick now u = tick_state u.state now u
