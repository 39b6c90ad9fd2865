-- ===== src/Upload/Keeps.antt =====
-- What a running flash leaves alone: the staged image. A flash ends in the staged state.
use open_skyhawk.Base.{
  ℕ, ◌+◌, ◌%◌, ◌^◌, Bool-cases, Option-cases, [], ◌∷◌, ◌≡◌, ◌∙◌, ◌⊎◌, inl, inr, true, List, arith,
  leb, ◌==◌, if◌then◌else◌, ◌&&◌,
}
use open_skyhawk.Boot.Session.{at, at16}
use open_skyhawk.Boot.Reply
use open_skyhawk.Boot.Cmd
use open_skyhawk.Upload.Protocol.{
  staged, flashing, UplPhase, entering_boot, connected, setting_id, erasing, writing, verifying,
  rebooting, confirming, UplResult,
}
use open_skyhawk.Upload.Session.{
  Uploader, elapsed, send_cmd, send_status, enter, finish, address, retry,
}
use open_skyhawk.Upload.Reply.{
  on_connected, on_node_set, on_begun, acknowledge, on_block_ack, on_ended, on_going, in_phase,
  on_boot_reply, is_flashing,
}
use open_skyhawk.Upload.Tick.{
  send_bridge_export, send_once, bytes32, node_status_req_addr, send_block, tick_entering,
  tick_setting_id, tick_erasing, send_next, tick_writing, tick_verifying, tick_rebooting,
  tick_confirming, tick_phase,
}
use open_skyhawk.Upload.Lines.{
  on_bridge_line, on_status_line, node_row, starts_with, boot_rsp_msg_name, boot_rsp, on_uart_byte,
  serial_byte,
}

-- The image is the same, and the state is the same or a flash has ended.
pub record Keeps (u v : Uploader) : Type 0 where
  pub img : v.img ≡ u.img
  pub len : v.len ≡ u.len
  pub crc : v.crc ≡ u.crc
  pub state : (v.state ≡ u.state) ⊎ ((u.state ≡ flashing) × (v.state ≡ staged))

pub Keeps-refl : (u : Uploader) → Keeps u u
Keeps-refl u = ground arith

pub Keeps-trans : (u v w : Uploader) → Keeps u v → Keeps v w → Keeps u w
Keeps-trans u v w p q = ground arith

send_cmd-Keeps : (d : List ℕ) (u : Uploader) → Keeps u (send_cmd d u)
unfolding send_cmd
send_cmd-Keeps d u = ground arith

pub send_status-Keeps : (now : ℕ) (u : Uploader) → Keeps u (send_status now u)
unfolding send_status
send_status-Keeps now u = ground arith

enter-Keeps : (ph : UplPhase) (now : ℕ) (u : Uploader) → Keeps u (enter ph now u)
unfolding enter send_status
enter-Keeps ph now u = ground arith

pub enter-state : (ph : UplPhase) (now : ℕ) (u : Uploader) → (enter ph now u).state ≡ u.state
unfolding enter send_status
enter-state ph now u = ground arith

finish-Keeps :
    (r : UplResult) (now : ℕ) (u : Uploader) → u.state ≡ flashing → Keeps u (finish r now u)
unfolding finish
finish-Keeps r now u f = ground arith

retry-Keeps :
    (r : UplResult) (now : ℕ) (u : Uploader) → u.state ≡ flashing → Keeps u (retry r now u)
unfolding retry
retry-Keeps r now u f = ground (
  arith,
  finish-Keeps r now u,
  enter-Keeps entering_boot now (record u { attempt = (u.attempt + 1) % 256 }),
)

acknowledge-Keeps : (st next : ℕ) (u : Uploader) → Keeps u (acknowledge st next u)
unfolding acknowledge
acknowledge-Keeps st next u = ground arith

module _ (d : List ℕ) (now : ℕ) (u : Uploader) (f : u.state ≡ flashing) where
  on_connected-Keeps : Keeps u (on_connected d now u)
  unfolding on_connected
  on_connected-Keeps =
      let v = enter connected now u in
      let same = enter-Keeps connected now u in
      let g : v.state ≡ flashing = enter-state connected now u ∙ f in
      let kind = Keeps-trans u v _ same (finish-Keeps UplResult.kind_mismatch now v g) in
      let room = Keeps-trans u v _ same (finish-Keeps UplResult.too_big_for_board now v g) in
      let ident = Keeps-trans u v _ same (finish-Keeps UplResult.id_mismatch now v g) in
      let setting = Keeps-trans u v _ same (enter-Keeps setting_id now v) in
      let erase = Keeps-trans u v _ same (enter-Keeps erasing now v) in
      let idle = Keeps-refl u in ground (arith, kind, room, ident, setting, erase, idle)

  on_node_set-Keeps : Keeps u (on_node_set d now u)
  unfolding on_node_set address
  on_node_set-Keeps = ground (
    arith,
    f,
    finish-Keeps UplResult.id_mismatch now u,
    enter-Keeps entering_boot now (address u.new_id u),
  )

  on_begun-Keeps : Keeps u (on_begun d now u)
  unfolding on_begun
  on_begun-Keeps =
      let v = record u {
        acked = 0;
        sent = 0;
        goback = 0xFFFF;
        stalls = 0;
        ack_deadline = (now + 500) % 2 ^ 32;
      } in
      ground (arith, f, retry-Keeps UplResult.write_failed now u, enter-Keeps writing now v)

  on_block_ack-Keeps : Keeps u (on_block_ack d now u)
  unfolding on_block_ack
  on_block_ack-Keeps =
      let v = record u { stalls = 0; ack_deadline = (now + 500) % 2 ^ 32 } in
      let w = acknowledge (at d 3) (at16 d 4) v in
      ground (
        arith,
        f,
        retry-Keeps UplResult.write_failed now u,
        retry-Keeps UplResult.write_failed now v,
        acknowledge-Keeps (at d 3) (at16 d 4) v,
        enter-Keeps verifying now w,
      )

  on_ended-Keeps : Keeps u (on_ended d now u)
  unfolding on_ended
  on_ended-Keeps = ground (
    arith,
    f,
    enter-Keeps rebooting now u,
    finish-Keeps UplResult.id_mismatch now u,
    finish-Keeps UplResult.kind_mismatch now u,
    retry-Keeps UplResult.verify_failed now u,
  )

  on_going-Keeps : Keeps u (on_going d now u)
  unfolding on_going
  on_going-Keeps = ground (
    arith,
    f,
    retry-Keeps UplResult.verify_failed now u,
    enter-Keeps confirming now (record u { confirm_from_ms = now }),
  )

  in_phase-Keeps : (ph : UplPhase) → Keeps u (in_phase ph d now u)
  unfolding in_phase
  in_phase-Keeps entering_boot = on_connected-Keeps
  in_phase-Keeps setting_id = on_node_set-Keeps
  in_phase-Keeps erasing = on_begun-Keeps
  in_phase-Keeps writing = on_block_ack-Keeps
  in_phase-Keeps verifying = on_ended-Keeps
  in_phase-Keeps rebooting = on_going-Keeps
  in_phase-Keeps connected = Keeps-refl u
  in_phase-Keeps confirming = Keeps-refl u

pub on_boot_reply-Keeps :
    (id : ℕ) (d : List ℕ) (now : ℕ) (u : Uploader) → Keeps u (on_boot_reply id d now u)
unfolding on_boot_reply
on_boot_reply-Keeps id d now u =
    let v = if at d 0 == Reply.announce then record u { bridge_heard = true } else u in
    elim (Bool-cases (is_flashing u.state)) [
      | inl yes_flashing ↦
          let f : u.state ≡ flashing = ground arith in
          let g : v.state ≡ flashing = ground (arith, f) in
          let same : Keeps u v = ground arith in
          let deep = in_phase-Keeps d now v g v.phase in ground (arith, f, same, deep)
      | inr idle_state ↦ rw idle_state (Keeps-refl u)
    ]

module _ (now : ℕ) (u : Uploader) (f : u.state ≡ flashing) where
  tick_entering-Keeps : Keeps u (tick_entering now u)
  unfolding tick_entering send_cmd send_bridge_export
  tick_entering-Keeps = ground (
    arith,
    f,
    retry-Keeps UplResult.write_failed now u,
    finish-Keeps UplResult.no_bootloader now u,
    finish-Keeps UplResult.no_response now u,
  )

  tick_setting_id-Keeps : Keeps u (tick_setting_id now u)
  unfolding tick_setting_id send_cmd
  tick_setting_id-Keeps =
      let v = send_once (Cmd.set_node_id ∷ u.new_id ∷ []) u in
      ground (arith, f, retry-Keeps UplResult.id_mismatch now v)

  tick_erasing-Keeps : Keeps u (tick_erasing now u)
  unfolding tick_erasing send_cmd
  tick_erasing-Keeps =
      let v = send_once (Cmd.begin ∷ bytes32 u.len) u in
      ground (arith, f, retry-Keeps UplResult.write_failed now v)

  tick_writing-Keeps : Keeps u (tick_writing now u)
  unfolding tick_writing send_next send_block
  tick_writing-Keeps =
      let v = record u { stalls = (u.stalls + 1) % 256 } in
      ground (arith, f, retry-Keeps UplResult.write_failed now v)

  tick_verifying-Keeps : Keeps u (tick_verifying now u)
  unfolding tick_verifying send_cmd
  tick_verifying-Keeps =
      let v = send_once (Cmd.end ∷ bytes32 u.crc) u in
      ground (arith, f, retry-Keeps UplResult.verify_failed now v)

  tick_rebooting-Keeps : Keeps u (tick_rebooting now u)
  unfolding tick_rebooting send_cmd
  tick_rebooting-Keeps =
      let v = send_once (Cmd.go ∷ []) u in
      ground (arith, f, enter-Keeps confirming now (record v { confirm_from_ms = now }))

  tick_confirming-Keeps : Keeps u (tick_confirming now u)
  unfolding tick_confirming send_bridge_export
  tick_confirming-Keeps =
      let v =
        if u.bridge && leb 500 (elapsed now u.last_enter_ms)
        then send_bridge_export node_status_req_addr (record u { last_enter_ms = now })
        else u in
      ground (
        arith,
        f,
        finish-Keeps UplResult.ok now v,
        finish-Keeps UplResult.version_mismatch now v,
        finish-Keeps UplResult.timeout now v,
      )

  pub tick_phase-Keeps : (ph : UplPhase) → Keeps u (tick_phase ph now u)
  unfolding tick_phase
  tick_phase-Keeps entering_boot = tick_entering-Keeps
  tick_phase-Keeps setting_id = tick_setting_id-Keeps
  tick_phase-Keeps erasing = tick_erasing-Keeps
  tick_phase-Keeps writing = tick_writing-Keeps
  tick_phase-Keeps verifying = tick_verifying-Keeps
  tick_phase-Keeps rebooting = tick_rebooting-Keeps
  tick_phase-Keeps confirming = tick_confirming-Keeps
  tick_phase-Keeps connected = Keeps-refl u

on_status_line-Keeps :
    (line : List ℕ) (now : ℕ) (u : Uploader) → Keeps u (on_status_line line now u)
unfolding on_status_line node_row
on_status_line-Keeps line now u = ground arith

pub on_bridge_line-Keeps :
    (line : List ℕ) (now : ℕ) (u : Uploader) → Keeps u (on_bridge_line line now u).1
unfolding on_bridge_line
on_bridge_line-Keeps line now u = elim (Option-cases (starts_with line boot_rsp_msg_name)) [
  | inl other ↦ rw (other, on_bridge_line) (on_status_line-Keeps line now u)
  | inr (s, e) ↦ elim (Option-cases (boot_rsp s)) [
    | inl bad ↦ rw (e, on_bridge_line) (rw bad (Keeps-refl u))
    | inr ((id, d), g) ↦ rw (e, on_bridge_line) (rw g (on_boot_reply-Keeps id d now u))
  ]
]

pub on_uart_byte-Keeps : (c now : ℕ) (u : Uploader) → Keeps u (on_uart_byte c now u)
unfolding on_uart_byte
on_uart_byte-Keeps c now u =
    let v = record u { sf = (serial_byte c u.sf).1 } in
    let same : Keeps u v = ground arith in
    elim (Option-cases (serial_byte c u.sf).0) [
      | inl waits ↦ rw (waits, on_uart_byte) same
      | inr ((id, d), g) ↦
          rw (g, on_uart_byte) (Keeps-trans u v _ same (on_boot_reply-Keeps id d now v))
    ]
