-- ===== src/Upload/Flash.antt =====
-- What a running flash stays within: its tries, its window, and the only way to an OK.
use open_skyhawk.Base.{
  ℕ, ◌+◌, ◌-◌, ◌*◌, length, ◌%◌, ◌^◌, ◌≤◌, ◌≡◌, refl, ◌⊎◌, inl, inr, Bool, true, false, not, ◌&&◌,
  ◌||◌, List, arith, ltb, leb, ◌==◌, if◌then◌else◌, Bool-cases,
}
use open_skyhawk.Boot.Reply
use open_skyhawk.Boot.Session.{at, at16}
use open_skyhawk.Upload.Protocol.{
  staged, flashing, UplPhase, entering_boot, connected, setting_id, erasing, writing, verifying,
  rebooting, confirming, UplResult,
}
use open_skyhawk.Upload.Image.{id_node, id_kind}
use open_skyhawk.Upload.Session.{Uploader, send_status, enter, finish, address, retry, is_ok}
use open_skyhawk.Upload.Reply.{
  on_connected, on_node_set, on_begun, acknowledge, on_block_ack, on_ended, on_going, in_phase,
  on_boot_reply, is_flashing, names_uid, bootloader_size, announce_len, st_ok, st_wrong_node,
  st_wrong_kind, st_out_of_order, st_bad_crc,
}
use open_skyhawk.Upload.Tick.{is_writing}

abbrev pub is_connected : UplPhase → Bool
is_connected connected = true
is_connected _ = false

-- A flash is on one of its three tries, is not left in the phase that only checks the board, and sends
-- at most four blocks past the last acknowledged one.
pub record Flash (u : Uploader) : Type 0 where
  pub tries : u.attempt ≤ 2
  pub moving : is_connected u.phase ≡ false
  pub window : (is_writing u.phase ≡ false) ⊎ ((u.sent ≤ u.acked + 4) × (u.stalls ≤ 6))

abbrev pub InFlash : Uploader → Type 0
InFlash u = (is_flashing u.state ≡ false) ⊎ Flash u

-- what `enter` leaves
pub record Entered (ph : UplPhase) (u v : Uploader) : Type 0 where
  pub phase : v.phase ≡ ph
  pub state : v.state ≡ u.state
  pub attempt : v.attempt ≡ u.attempt
  pub sent : v.sent ≡ u.sent
  pub acked : v.acked ≡ u.acked
  pub stalls : v.stalls ≡ u.stalls
  pub result : v.last_result ≡ u.last_result

pub enter-Entered : (ph : UplPhase) (now : ℕ) (u : Uploader) → Entered ph u (enter ph now u)
unfolding enter send_status
enter-Entered ph now u = ground arith

-- From `u` to `v` a flash goes on, or ends without an OK.
pub record Goes (u v : Uploader) : Type 0 where
  pub result : (v.state ≡ u.state) ⊎ (is_ok v.last_result ≡ false)
  pub flash : InFlash v

pub finish-fields :
    (r : UplResult) (now : ℕ) (u : Uploader)
    → ((finish r now u).last_result ≡ r) × ((finish r now u).state ≡ staged)
unfolding finish
finish-fields r now u = (ground arith, ground arith)

pub finish-Goes :
    (r : UplResult) (now : ℕ) (u v : Uploader) → is_ok r ≡ false → Goes u (finish r now v)
finish-Goes r now u v bad = ground (arith, finish-fields r now v)

-- Entering a phase other than the checking one, and other than writing.
pub enter-Goes :
    (ph : UplPhase) (now : ℕ) (u v : Uploader)
    → v.state ≡ u.state
    → v.attempt ≤ 2
    → is_connected ph ≡ false
    → is_writing ph ≡ false
    → Goes u (enter ph now v)
enter-Goes ph now u v s a c w = ground (arith, enter-Entered ph now v)

pub retry-Goes :
    (r : UplResult) (now : ℕ) (u v : Uploader)
    → v.state ≡ u.state
    → is_ok r ≡ false
    → Goes u (retry r now v)
unfolding retry
retry-Goes r now u v s bad = ground (
  arith,
  finish-Goes r now u v,
  enter-Goes entering_boot now u (record v { attempt = (v.attempt + 1) % 256 }),
)

pub if-Goes :
    (u : Uploader) (b : Bool) {v w : Uploader} → Goes u v → Goes u w → Goes u (if b then v else w)
if-Goes u true p q = p
if-Goes u false p q = q

module _ (d : List ℕ) (now : ℕ) (u : Uploader) (f : u.state ≡ flashing) (w : Flash u) where
  on_connected-Goes : Goes u (on_connected d now u)
  unfolding on_connected
  on_connected-Goes =
      let v = enter connected now u in
      let same = enter-Entered connected now u in
      let g : v.state ≡ u.state = same.state in
      let a : v.attempt ≤ 2 = omega (arith, same.attempt, w.tries) in
      let kind = finish-Goes UplResult.kind_mismatch now u v refl in
      let room = finish-Goes UplResult.too_big_for_board now u v refl in
      let ident = finish-Goes UplResult.id_mismatch now u v refl in
      let setting = enter-Goes setting_id now u v g a refl refl in
      let erase = enter-Goes erasing now u v g a refl refl in
      let rest : Goes u u = record { result = inl refl; flash = inr w } in
      let suits =
        if-Goes u (not u.unconfigured && not (id_node u.img == u.target))
          (if-Goes u (not (u.new_id == id_node u.img)) ident setting) erase in
      let fits =
        if-Goes u (ltb ((at d 5 * 1024 + 2 ^ 32 - bootloader_size) % 2 ^ 32) u.len) room suits in
      let kinds = if-Goes u (not (at d 3 == 0xFF) && not (at d 3 == id_kind u.img)) kind fits in
      if-Goes u (not (at d 0 == Reply.connected) || ltb (length d) announce_len) rest kinds

  on_node_set-Goes : Goes u (on_node_set d now u)
  unfolding on_node_set address
  on_node_set-Goes =
      let rest : Goes u u = record { result = inl refl; flash = inr w } in
      let bad = finish-Goes UplResult.id_mismatch now u u refl in
      let again = enter-Goes entering_boot now u (address u.new_id u) refl w.tries refl refl in
      ground (arith, rest, bad, again)

  on_begun-Goes : Goes u (on_begun d now u)
  unfolding on_begun
  on_begun-Goes =
      let v = record u {
        acked = 0;
        sent = 0;
        goback = 0xFFFF;
        stalls = 0;
        ack_deadline = (now + 500) % 2 ^ 32;
      } in
      let rest : Goes u u = record { result = inl refl; flash = inr w } in
      let bad = retry-Goes UplResult.write_failed now u u refl refl in
      ground (arith, f, rest, bad, enter-Entered writing now v, w.tries)

  acknowledge-Goes :
      (st next deadline : ℕ)
      → ltb next u.acked ≡ false
      → Goes u (acknowledge st next (record u { stalls = 0; ack_deadline = deadline }))
        × ((acknowledge st next (record u { stalls = 0; ack_deadline = deadline })).state ≡ u.state)
        × ((acknowledge st next (record u { stalls = 0; ack_deadline = deadline })).attempt ≤ 2)
  unfolding acknowledge
  acknowledge-Goes st next deadline h =
      (ground (arith, w.tries, w.window, w.moving), ground arith, ground (arith, w.tries))

  on_block_ack-Goes : Goes u (on_block_ack d now u)
  unfolding on_block_ack
  on_block_ack-Goes =
      let next = at16 d 4 in
      let deadline = (now + 500) % 2 ^ 32 in
      let v = record u { stalls = 0; ack_deadline = deadline } in
      let x = acknowledge (at d 3) next v in
      let rest : Goes u u = record { result = inl refl; flash = inr w } in
      let bad = retry-Goes UplResult.write_failed now u u refl refl in
      let worse = retry-Goes UplResult.write_failed now u v refl refl in
      elim (Bool-cases (ltb next u.acked)) [
        | inl back ↦
            rw back (if-Goes u (not (at d 0 == Reply.block_ack) || ltb (length d) 6) rest bad)
        | inr on ↦
            let (go, state, tries) = acknowledge-Goes (at d 3) next deadline on in
            let done = enter-Goes verifying now u x state tries refl refl in
            rw on (
              if-Goes u (not (at d 0 == Reply.block_ack) || ltb (length d) 6) rest (
                if-Goes u
                  (not (at d 3 == st_ok || (at d 3 == st_out_of_order || at d 3 == st_bad_crc)))
                  worse (if-Goes u (leb x.blocks x.acked) done go)))
      ]

  on_ended-Goes : Goes u (on_ended d now u)
  unfolding on_ended
  on_ended-Goes =
      let rest : Goes u u = record { result = inl refl; flash = inr w } in
      let go = enter-Goes rebooting now u u refl w.tries refl refl in
      let ident = finish-Goes UplResult.id_mismatch now u u refl in
      let kind = finish-Goes UplResult.kind_mismatch now u u refl in
      let bad = retry-Goes UplResult.verify_failed now u u refl refl in
      if-Goes u (not (at d 0 == Reply.ended) || ltb (length d) 2) rest (
        if-Goes u (at d 1 == st_ok) go (
          if-Goes u (at d 1 == st_wrong_node) ident (if-Goes u (at d 1 == st_wrong_kind) kind bad)))

  on_going-Goes : Goes u (on_going d now u)
  unfolding on_going
  on_going-Goes =
      let rest : Goes u u = record { result = inl refl; flash = inr w } in
      let bad = retry-Goes UplResult.verify_failed now u u refl refl in
      let go =
        enter-Goes confirming now u (record u { confirm_from_ms = now }) refl w.tries refl refl in
      ground (arith, rest, bad, go)

  in_phase-Goes : (ph : UplPhase) → Goes u (in_phase ph d now u)
  unfolding in_phase
  in_phase-Goes entering_boot = on_connected-Goes
  in_phase-Goes setting_id = on_node_set-Goes
  in_phase-Goes erasing = on_begun-Goes
  in_phase-Goes writing = on_block_ack-Goes
  in_phase-Goes verifying = on_ended-Goes
  in_phase-Goes rebooting = on_going-Goes
  in_phase-Goes connected = record { result = inl refl; flash = inr w }
  in_phase-Goes confirming = record { result = inl refl; flash = inr w }

waits : (u : Uploader) → InFlash u → Goes u u
waits u s = record { result = inl refl; flash = s }

heard : (u : Uploader) (v : Uploader) → Goes (record u { bridge_heard = true }) v → Goes u v
heard u v g = ground (arith, g.result, g.flash)

pub on_boot_reply-Goes :
    (id : ℕ) (d : List ℕ) (now : ℕ) (u : Uploader) → InFlash u → Goes u (on_boot_reply id d now u)
unfolding on_boot_reply
on_boot_reply-Goes id d now u s = elim (Bool-cases (not (is_flashing u.state) || length d == 0)) [
  | inl quiet ↦ rw quiet (waits u s)
  | inr open_flash ↦
      let f : u.state ≡ flashing = ground (arith, open_flash) in
      let w : Flash u = ground (arith, s, f) in
      let v = record u { bridge_heard = true } in
      let named : Goes u (record u { uid = at16 d 6; uid_known = true }) =
        ground (arith, w.tries, w.moving, w.window) in
      let deep = in_phase-Goes d now u f w u.phase in
      let deeper = heard u _ (
        in_phase-Goes d now v f (record { tries = w.tries; moving = w.moving; window = w.window })
          u.phase) in
      rw open_flash (
        if-Goes u (names_uid id d u) named (
          if-Goes u (not (id == u.rsp_id)) (waits u s)
            (either (at d 0 == Reply.announce) deeper deep)))
]
  where
    either :
        (b : Bool)
        → Goes u (in_phase u.phase d now (record u { bridge_heard = true }))
        → Goes u (in_phase u.phase d now u)
        → let v = if b then record u { bridge_heard = true } else u in
          Goes u (in_phase v.phase d now v)
    either true p q = p
    either false p q = q
