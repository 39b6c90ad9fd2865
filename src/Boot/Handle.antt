-- ===== src/Boot/Handle.antt =====
-- What a frame from the host does: `set_node_id`, the cases of `handle`, and a run of frames.
use open_skyhawk.Base.{
  false, ℕ, ◌+◌, ◌-◌, ◌*◌, ◌/◌, ◌%◌, ◌^◌, Bool, true, not, ◌&&◌, ◌||◌, List, [], ◌∷◌, get_or,
  length, replicate, bit_or, ◌==◌, ltb, leb, if◌then◌else◌,
}
use open_skyhawk.Boot.Protocol.{
  BootState, requested, caught, idle_timeout_ms, Status, ok, flash_error, out_of_range,
  out_of_order, no_app, status_code, app_invalid, block_size, data_bytes, data_frames, app_addr,
  unset, kind_bridge,
}
use open_skyhawk.Boot.Cmd
use open_skyhawk.Boot.Reply
use open_skyhawk.Boot.Flash.{le32, Chip}
use open_skyhawk.Boot.Image.{app_valid}
use open_skyhawk.Boot.Options.{option_bytes_set, ob_wrp0}
use open_skyhawk.Boot.Session.{
  service, elapsed, Board, lo, hi, at, at16, is_ok, copy_in, send, announce, begin, block, end_,
}

module _ (c : Chip) where
  -- `set_node_id(id)`: the app is invalidated first
  unfoldable pub set_node_id : ℕ → Board → Status × Board
  set_node_id id b =
      let e = c.erase b.mem app_addr in
      let b1 = record b { mem = e.mem } in
      let (good, opt) = option_bytes_set c id b.kind (get_or b.opt ob_wrp0 0) b.opt in
      let b2 = record b1 { opt = opt } in
      if not b.connected || b.node == unset
      then (out_of_order, b)
      else if id == 0 || ltb 63 id || b.kind == kind_bridge
      then (out_of_range, b)
      else if not e.done
      then (flash_error, b1)
      else if not good
      then (flash_error, b2)
      else (ok, b2)

  unfoldable pub on_begin : List ℕ → Board → Board
  on_begin m b =
      let (st, b') = begin c (le32 (at m) 1) b in
      let b' = if is_ok st then record b' { state = app_invalid } else b' in
      if leb 5 (length m) then send c (Reply.begun ∷ status_code st ∷ []) b' else b

  unfoldable pub on_block : List ℕ → Board → Board
  on_block m b =
      if leb 5 (length m)
      then record b {
        ses = record (b.ses) {
          index = at16 m 1;
          want = at16 m 3;
          have = 0;
          buf = replicate block_size 0xFF;
        };
      }
      else b

  unfoldable pub on_end : List ℕ → Board → Board
  on_end m b =
      let (st, got, b') = end_ c (le32 (at m) 1) b in
      if leb 5 (length m)
      then send c
          (Reply.ended
            ∷ status_code st
            ∷ lo got
            ∷ hi got
            ∷ lo (got / 2 ^ 16)
            ∷ lo (got / 2 ^ 24)
            ∷ [])
          b'
      else b

  unfoldable pub on_go : Board → Board
  on_go b =
      if not (app_valid c b.mem)
      then send c (Reply.going ∷ status_code no_app ∷ []) b
      else record (send c (Reply.going ∷ status_code ok ∷ []) b) { attempts = 0; reset = true }

  unfoldable pub on_set_node_id : List ℕ → Board → Board
  on_set_node_id m b =
      let (st, b') = if leb 2 (length m) then set_node_id (at m 1) b else (out_of_range, b) in
      let b' = send c (Reply.node_set ∷ status_code st ∷ []) b' in
      if is_ok st then record b' { reset = true } else b'

  -- a DATA frame: its bytes go into `buf`, and the tenth of a block hands the block over
  unfoldable pub on_data : List ℕ → Board → Board
  on_data m b =
      let k = at m 0 - Cmd.data_0 in
      let to = k * data_bytes in
      let n = length m - 1 in
      let cnt = if ltb n (block_size - to) then n else block_size - to in
      let b = record b {
        ses = record (b.ses) {
          buf = copy_in cnt 0 to m b.ses.buf;
          have = bit_or b.ses.have (2 ^ k);
        };
      } in
      let full = b.ses.have == 2 ^ data_frames - 1 in
      let b0 = record b { ses = record (b.ses) { have = 0 } } in
      let (st, b') = block c b0 in
      if full
      then send c
          (Reply.block_ack
            ∷ lo b'.ses.index
            ∷ hi b'.ses.index
            ∷ status_code st
            ∷ lo b'.ses.next
            ∷ hi b'.ses.next
            ∷ [])
          b'
      else b

  -- the `switch` of `handle`
  unfoldable pub dispatch : List ℕ → Board → Board
  dispatch m b =
      let cmd = at m 0 in
      if cmd == Cmd.connect
      then announce c Reply.connected b
      else if cmd == Cmd.begin
      then on_begin m b
      else if cmd == Cmd.block
      then on_block m b
      else if cmd == Cmd.end
      then on_end m b
      else if cmd == Cmd.go
      then on_go b
      else if cmd == Cmd.set_node_id
      then on_set_node_id m b
      else if leb Cmd.data_0 cmd && leb cmd Cmd.data_9
      then on_data m b
      else b

  -- a CONNECT that an unconfigured board must ignore: not its UID
  abbrev pub foreign_connect : List ℕ → Board → Bool
  foreign_connect m b =
      at m 0 == Cmd.connect && (b.node == unset && (ltb (length m) 3 || not (at16 m 1 == c.uid16)))

  -- `handle(m, n)` for a frame of at least one byte
  unfoldable pub handle : List ℕ → Board → Board
  handle m b =
      let b1 = if at m 0 == Cmd.connect then record b { connected = true } else b in
      if foreign_connect m b
      then b
      else if b1.node == unset && not b1.connected
      then b1
      else dispatch m (record b1 { last_cmd = b1.ms })

  abbrev pub is_waiting : BootState → Bool
  is_waiting requested = true
  is_waiting caught = true
  is_waiting _ = false

  -- entered on request or caught, and no command for IDLE_TIMEOUT_MS
  abbrev pub is_idle : Board → Bool
  is_idle b = is_waiting b.state && leb idle_timeout_ms (elapsed b.ms b.last_cmd)

  -- one pass of the loop of `main`; `[]` where `next_frame` has no frame, or an empty one
  unfoldable pub loop_step : List ℕ → Board → Board
  loop_step m b =
      let b = service c b in
      if is_idle b then record b { reset = true } else if length m == 0 then b else handle m b

  -- passes of the loop, each with the time since the last; a reset ends the run
  unfoldable pub run : List (ℕ × List ℕ) → Board → Board
  run [] b = b
  run ((dt, m) ∷ ms) b =
      run ms (if b.reset then b else loop_step m (record b { ms = (b.ms + dt) % 2 ^ 32 }))
