-- ===== src/Upload/Window.antt =====
-- What a pass of the loop does to a running flash, phase by phase.
use open_skyhawk.Base.{
  ℕ, ◌+◌, ◌%◌, ◌≡◌, refl, ap, ◌⊎◌, inl, inr, Bool, true, false, not, ◌&&◌, List, [], ◌∷◌, arith,
  ltb, leb, ◌==◌, if◌then◌else◌, Bool-cases,
}
use open_skyhawk.Boot.Cmd
use open_skyhawk.Upload.Protocol.{flashing, confirming, UplResult}
use open_skyhawk.Upload.Image.{id_node, id_fw}
use open_skyhawk.Upload.Session.{Uploader, elapsed, send_cmd, finish, is_ok}
use open_skyhawk.Upload.Tick.{
  send_bridge_export, send_once, bytes32, node_status_req_addr, bridge_enter_export_address,
  send_block, tick_entering, tick_setting_id, tick_erasing, send_next, tick_writing, tick_verifying,
  tick_rebooting, tick_confirming, confirms, same_fw,
}
use open_skyhawk.Upload.Flash.{
  Flash, InFlash, Goes, finish-fields, finish-Goes, retry-Goes, if-Goes, enter-Goes,
}

module _ (now : ℕ) (u : Uploader) (f : u.state ≡ flashing) (w : Flash u) where
  stays : Goes u u
  stays = record { result = inl refl; flash = inr w }

  sends-Goes : (d : List ℕ) → Goes u (send_cmd d (record u { last_send_ms = now }))
  unfolding send_cmd
  sends-Goes d = ground (arith, f, w.tries, w.moving, w.window)

  asks-Goes : (a : ℕ) → Goes u (send_bridge_export a (record u { last_enter_ms = now }))
  unfolding send_bridge_export
  asks-Goes a = ground (arith, f, w.tries, w.moving, w.window)

  pub tick_entering-Goes : Goes u (tick_entering now u)
  unfolding tick_entering
  tick_entering-Goes =
      let s = u.seen (u.target % 64) in
      let again = retry-Goes UplResult.write_failed now u u refl refl in
      let gone = finish-Goes UplResult.no_bootloader now u u refl in
      let silent = finish-Goes UplResult.no_response now u u refl in
      let lost =
        finish_either (not u.unconfigured && (s.present && s.bootloader == 0)) gone silent in
      if-Goes u (ltb 10000 (elapsed now u.phase_ms)) (if-Goes u (ltb 0 u.attempt) again lost) (
        if-Goes u (u.unconfigured && not u.uid_known) stays (
          if-Goes u (u.bridge && (not u.bridge_heard && ltb (elapsed now u.phase_ms) 2000))
            (if-Goes u (leb 500 (elapsed now u.last_enter_ms))
              (asks-Goes bridge_enter_export_address) stays)
            (if-Goes u (leb 100 (elapsed now u.last_send_ms)) (sends-Goes _) stays)))
    where
      finish_either :
          (b : Bool)
          → Goes u (finish UplResult.no_bootloader now u)
          → Goes u (finish UplResult.no_response now u)
          → Goes u (finish (if b then UplResult.no_bootloader else UplResult.no_response) now u)
      finish_either true p q = p
      finish_either false p q = q

  pub tick_setting_id-Goes : Goes u (tick_setting_id now u)
  unfolding tick_setting_id send_cmd
  tick_setting_id-Goes =
      let v = send_once (Cmd.set_node_id ∷ u.new_id ∷ []) u in
      ground (arith, retry-Goes UplResult.id_mismatch now u v, f, w.tries, w.moving, w.window)

  pub tick_erasing-Goes : Goes u (tick_erasing now u)
  unfolding tick_erasing send_cmd
  tick_erasing-Goes =
      let v = send_once (Cmd.begin ∷ bytes32 u.len) u in
      ground (arith, retry-Goes UplResult.write_failed now u v, f, w.tries, w.moving, w.window)

  pub tick_verifying-Goes : Goes u (tick_verifying now u)
  unfolding tick_verifying send_cmd
  tick_verifying-Goes =
      let v = send_once (Cmd.end ∷ bytes32 u.crc) u in
      ground (arith, retry-Goes UplResult.verify_failed now u v, f, w.tries, w.moving, w.window)

  pub tick_rebooting-Goes : Goes u (tick_rebooting now u)
  unfolding tick_rebooting send_cmd
  tick_rebooting-Goes =
      let v = record (send_once (Cmd.go ∷ []) u) { confirm_from_ms = now } in
      ground (arith, enter-Goes confirming now u v, f, w.tries, w.moving, w.window)

  pub tick_writing-Goes : Goes u (tick_writing now u)
  unfolding tick_writing send_next send_block
  tick_writing-Goes =
      let v = record u { stalls = (u.stalls + 1) % 256 } in
      ground (arith, retry-Goes UplResult.write_failed now u v, f, w.tries, w.moving, w.window)

  pub tick_confirming-flash : InFlash (tick_confirming now u)
  unfolding tick_confirming send_bridge_export
  tick_confirming-flash =
      let v =
        if u.bridge && leb 500 (elapsed now u.last_enter_ms)
        then send_bridge_export node_status_req_addr (record u { last_enter_ms = now })
        else u in
      ground (
        arith,
        f,
        w.tries,
        w.moving,
        w.window,
        finish-fields UplResult.ok now v,
        finish-fields UplResult.version_mismatch now v,
        finish-fields UplResult.timeout now v,
      )

  pub tick_confirming-result :
      ((tick_confirming now u).state ≡ u.state)
      ⊎ (is_ok (tick_confirming now u).last_result ≡ false)
      ⊎ ((confirms u (u.seen (id_node u.img % 64)) ≡ true)
          × (same_fw (u.seen (id_node u.img % 64)).fw (id_fw u.img) ≡ true))
  unfolding tick_confirming send_bridge_export
  tick_confirming-result =
      let v =
        if u.bridge && leb 500 (elapsed now u.last_enter_ms)
        then send_bridge_export node_status_req_addr (record u { last_enter_ms = now })
        else u in
      let s = u.seen (id_node u.img % 64) in
      elim (Bool-cases (confirms u s)) [
        | inl row ↦ elim (Bool-cases (same_fw s.fw (id_fw u.img))) [
          | inl same ↦ inr (inr (row, same))
          | inr other ↦
              rw (row, other)
                (inr (inl (ap is_ok (finish-fields UplResult.version_mismatch now v).0)))
        ]
        | inr no_row ↦ ground (arith, no_row, finish-fields UplResult.timeout now v)
      ]
