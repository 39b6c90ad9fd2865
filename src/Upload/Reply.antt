-- ===== src/Upload/Reply.antt =====
-- `onBootReply` (Uploader.cpp): a frame from the bootloader that is being flashed.
use open_skyhawk.Base.{
  ℕ, ◌+◌, ◌-◌, ◌*◌, ◌%◌, ◌^◌, Bool, true, false, not, ◌&&◌, ◌||◌, List, length, ◌==◌, ltb, leb,
  if◌then◌else◌,
}
use open_skyhawk.Boot.Reply
use open_skyhawk.Boot.Session.{at, at16}
use open_skyhawk.Upload.Protocol.{
  UplState, flashing, UplPhase, entering_boot, connected, setting_id, erasing, writing, verifying,
  rebooting, confirming, id_mismatch, kind_mismatch, too_big_for_board, write_failed, verify_failed,
  ack_timeout_ms,
}
use open_skyhawk.Upload.Image.{id_node, id_kind}
use open_skyhawk.Upload.Session.{Uploader, enter, finish, address, retry}

abbrev pub unconfigured_rsp_id : ℕ
unconfigured_rsp_id = 0x7C1

-- ANNOUNCE_LEN
abbrev pub announce_len : ℕ
announce_len = 8

abbrev pub bootloader_size : ℕ
bootloader_size = 0x1000

abbrev pub is_flashing : UplState → Bool
is_flashing flashing = true
is_flashing _ = false

-- the status bytes by name
abbrev pub st_ok : ℕ
st_ok = 0x00

abbrev pub st_bad_crc : ℕ
st_bad_crc = 0x01

abbrev pub st_out_of_order : ℕ
st_out_of_order = 0x04

abbrev pub st_wrong_node : ℕ
st_wrong_node = 0x07

abbrev pub st_wrong_kind : ℕ
st_wrong_kind = 0x08

-- UPL_PHASE_ENTERING_BOOT: the board's CONNECTED, and whether the image suits the board
unfoldable pub on_connected : List ℕ → ℕ → Uploader → Uploader
on_connected d now u =
    let kind = at d 3 in
    let room = (at d 5 * 1024 + 2 ^ 32 - bootloader_size) % 2 ^ 32 in
    let v = enter connected now u in
    if not (at d 0 == Reply.connected) || ltb (length d) announce_len
    then u
    else if not (kind == 0xFF) && not (kind == id_kind u.img)
    then finish kind_mismatch now v
    else if ltb room u.len
    then finish too_big_for_board now v
    else if not u.unconfigured && not (id_node u.img == u.target)
    then (if not (u.new_id == id_node u.img)
        then finish id_mismatch now v
        else enter setting_id now v)
    else enter erasing now v

-- UPL_PHASE_SETTING_ID
unfoldable pub on_node_set : List ℕ → ℕ → Uploader → Uploader
on_node_set d now u =
    if not (at d 0 == Reply.node_set) || ltb (length d) 2
    then u
    else if not (at d 1 == st_ok)
    then finish id_mismatch now u
    else enter entering_boot now (address u.new_id u)

-- UPL_PHASE_ERASING
unfoldable pub on_begun : List ℕ → ℕ → Uploader → Uploader
on_begun d now u =
    if not (at d 0 == Reply.begun) || ltb (length d) 2
    then u
    else if not (at d 1 == st_ok)
    then retry write_failed now u
    else enter writing now (record u {
      acked = 0;
      sent = 0;
      goback = 0xFFFF;
      stalls = 0;
      ack_deadline = (now + ack_timeout_ms) % 2 ^ 32;
    })

-- what an acknowledgement of status `st` moves: `_acked`, `_sent` and `_goback`
unfoldable pub acknowledge : ℕ → ℕ → Uploader → Uploader
acknowledge st next u =
    let acked = if ltb u.acked next then next else u.acked in
    if st == st_ok
    then record u { acked = acked }
    else if not (next == u.goback)
    then record u { goback = next; sent = next; acked = acked }
    else record u { acked = acked }

-- UPL_PHASE_WRITING
unfoldable pub on_block_ack : List ℕ → ℕ → Uploader → Uploader
on_block_ack d now u =
    let st = at d 3 in
    let next = at16 d 4 in
    let v = record u { stalls = 0; ack_deadline = (now + ack_timeout_ms) % 2 ^ 32 } in
    let w = acknowledge st next v in
    if not (at d 0 == Reply.block_ack) || ltb (length d) 6
    then u
    else if ltb next u.acked
    then retry write_failed now u
    else if not (st == st_ok || (st == st_out_of_order || st == st_bad_crc))
    then retry write_failed now v
    else if leb w.blocks w.acked
    then enter verifying now w
    else w

-- UPL_PHASE_VERIFYING
unfoldable pub on_ended : List ℕ → ℕ → Uploader → Uploader
on_ended d now u =
    let st = at d 1 in
    if not (at d 0 == Reply.ended) || ltb (length d) 2
    then u
    else if st == st_ok
    then enter rebooting now u
    else if st == st_wrong_node
    then finish id_mismatch now u
    else if st == st_wrong_kind
    then finish kind_mismatch now u
    else retry verify_failed now u

-- UPL_PHASE_REBOOTING
unfoldable pub on_going : List ℕ → ℕ → Uploader → Uploader
on_going d now u =
    if not (at d 0 == Reply.going) || ltb (length d) 2
    then u
    else if not (at d 1 == st_ok)
    then retry verify_failed now u
    else enter confirming now (record u { confirm_from_ms = now })

-- the `switch` over the phases
unfoldable pub in_phase : UplPhase → List ℕ → ℕ → Uploader → Uploader
in_phase entering_boot d now u = on_connected d now u
in_phase setting_id d now u = on_node_set d now u
in_phase erasing d now u = on_begun d now u
in_phase writing d now u = on_block_ack d now u
in_phase verifying d now u = on_ended d now u
in_phase rebooting d now u = on_going d now u
in_phase connected d now u = u
in_phase confirming d now u = u

-- an unconfigured board's first announcement, which names its UID
abbrev pub names_uid : ℕ → List ℕ → Uploader → Bool
names_uid id d u =
    u.unconfigured
    && id == unconfigured_rsp_id
    && not u.uid_known
    && at d 0 == Reply.announce
    && leb announce_len (length d)

-- `onBootReply(id, d, n, now)`
unfoldable pub on_boot_reply : ℕ → List ℕ → ℕ → Uploader → Uploader
on_boot_reply id d now u =
    let v = if at d 0 == Reply.announce then record u { bridge_heard = true } else u in
    if not (is_flashing u.state) || length d == 0
    then u
    else if names_uid id d u
    then record u { uid = at16 d 6; uid_known = true }
    else if not (id == u.rsp_id)
    then u
    else in_phase v.phase d now v
