-- ===== src/Boot/Session.antt =====
-- A transfer session and the commands of a host: `Session`, `service`, `begin`, `block`, `end`,
-- `set_node_id` and `handle`. A frame is the list of its bytes; the transport is in Boot/Serial.
use open_skyhawk.Base.{
  ℕ, zero, suc, ◌+◌, ◌-◌, ◌*◌, ◌/◌, ◌%◌, ◌^◌, Bool, true, false, not, ◌&&◌, ◌||◌, List, [], ◌∷◌,
  ◌++◌, get_or, set, bit_xor, ◌==◌, ltb, leb, if◌then◌else◌,
}
use open_skyhawk.Boot.Protocol.{
  Status, ok, bad_crc, flash_error, out_of_range, out_of_order, bad_image, wrong_node, wrong_kind,
  BootState, app_unstable, unconfigured, boot_state_code, u32, protocol_version, block_size,
  announce_interval_ms, app_addr, page, unset, identity_magic,
}
use open_skyhawk.Boot.Reply
use open_skyhawk.Boot.Flash.{Mem, le32, Chip, flash_end, flash_write}
use open_skyhawk.Boot.Image.{
  id_magic, id_length, id_crc, id_node, id_kind, crc_reset, crc_feed, identity_ok,
}

-- `struct Session`
pub record Session : Type 0 where
  pub buf : List ℕ
  pub blk0 : List ℕ
  pub total : ℕ
  pub next : ℕ
  pub index : ℕ
  pub want : ℕ
  pub have : ℕ
  pub active : Bool

-- The bootloader's globals, the flash, the stored option bytes, backup registers DR2 and DR1, the
-- LEDs, the
-- frames handed to `can_send` so far and whether it has asked for a reset.
pub record Board : Type 0 where
  pub mem : Mem
  pub opt : List ℕ
  pub ses : Session
  pub node : ℕ
  pub kind : ℕ
  pub state : BootState
  pub connected : Bool
  pub last_cmd : ℕ
  pub last_announce : ℕ
  pub ms : ℕ
  pub attempts : ℕ
  pub entry : ℕ
  pub led : Bool × Bool
  pub sent : List (List ℕ)
  pub reset : Bool

abbrev pub lo : ℕ → ℕ
lo n = n % 256

abbrev pub hi : ℕ → ℕ
hi n = n / 256 % 256

-- the byte of a frame at `i`
abbrev pub at : List ℕ → ℕ → ℕ
at m i = get_or m i 0 % 256

abbrev pub at16 : List ℕ → ℕ → ℕ
at16 m i = at m i + 256 * at m (i + 1)

abbrev pub elapsed : ℕ → ℕ → ℕ
elapsed now since = (now + 2 ^ 32 - since) % 2 ^ 32

abbrev pub is_unstable : BootState → Bool
is_unstable app_unstable = true
is_unstable _ = false

abbrev pub is_unconfigured : BootState → Bool
is_unconfigured unconfigured = true
is_unconfigured _ = false

abbrev pub is_ok : Status → Bool
is_ok ok = true
is_ok _ = false

-- one bit step of `crc16`, CRC-16/CCITT-FALSE
unfoldable pub crc16_bits : ℕ → ℕ → ℕ
crc16_bits zero c = c
crc16_bits (suc k) c =
    crc16_bits k (if leb 0x8000 c then bit_xor (c * 2 % 2 ^ 16) 0x1021 else c * 2 % 2 ^ 16)

unfoldable pub crc16_from : ℕ → List ℕ → ℕ
unfolding crc16_bits
crc16_from c [] = c
crc16_from c (x ∷ xs) = crc16_from (crc16_bits 8 (bit_xor c (x % 256 * 256))) xs

unfoldable pub crc16 : List ℕ → ℕ
unfolding crc16_from
crc16 d = crc16_from 0xFFFF d

-- `memcpy(buf + to, m + 1, n)`, at byte `j` with `n` to go
unfoldable pub copy_in : ℕ → ℕ → ℕ → List ℕ → List ℕ → List ℕ
copy_in zero j to m buf = buf
copy_in (suc n) j to m buf = copy_in n (j + 1) to m (set buf (to + j) (at m (j + 1)))

module _ (c : Chip) where
  abbrev pub send : List ℕ → Board → Board
  send f b = record b { sent = b.sent ++ (f ∷ []) }

  unfoldable pub announce : ℕ → Board → Board
  announce code b =
      send
        (code
          ∷ protocol_version
          ∷ b.node
          ∷ b.kind
          ∷ boot_state_code b.state
          ∷ lo c.flash_kb
          ∷ lo c.uid16
          ∷ hi c.uid16
          ∷ [])
        b

  unfoldable pub led_of : Board → Bool × Bool
  led_of b =
      let half = b.ms / 2 ^ 9 % 2 == 1 in
      let fast = b.ms / 2 ^ 6 % 2 == 1 in
      if b.ses.active
      then (fast, fast)
      else if is_unstable b.state
      then (true, half)
      else if is_unconfigured b.state
      then (half, true)
      else (half, half)

  -- `service`: the LEDs, and the announcement of a board that waits or whose transfer has gone quiet
  unfoldable pub service : Board → Board
  service b =
      let b = record b { led = led_of b } in
      if leb announce_interval_ms (elapsed b.ms b.last_announce)
        && (not b.ses.active || leb announce_interval_ms (elapsed b.ms b.last_cmd))
      then announce Reply.announce (record b { last_announce = b.ms })
      else b

  -- the erase loop of `begin`: pages from `a` up to `end`; the fuel is spent only by a page erased
  unfoldable pub erase_pages : ℕ → ℕ → ℕ → Board → Status × Board
  erase_pages zero a end b = (ok, b)
  erase_pages (suc f) a end b =
      let e = c.erase b.mem a in
      let b' = record b { mem = e.mem; ms = u32 (b.ms + e.took_ms) } in
      elim (ltb a end) [
        | true ↦ elim e.done [
          | true ↦ erase_pages f (a + page) end (service b')
          | false ↦ (flash_error, b')
        ]
        | false ↦ (ok, b)
      ]

  -- `begin(len)`
  unfoldable pub begin : ℕ → Board → Status × Board
  unfolding flash_end
  begin len b =
      let total = u32 (len + (block_size - 1)) / block_size * block_size in
      let b = record b { ses = record (b.ses) { active = false; total = total; next = 0 } } in
      let end = u32 (app_addr + total) in
      if len == 0 || ltb (flash_end c) end
      then (out_of_range, b)
      else (let (st, b) = erase_pages ((end - app_addr) / page + 1) app_addr end b in
          if is_ok st then (ok, record b { ses = record (b.ses) { active = true } }) else (st, b))

  -- `block()`: the block in `buf` is checked, then held (block 0) or written
  unfoldable pub block : Board → Status × Board
  block b =
      let s = b.ses in
      let addr = app_addr + s.index * block_size in
      let w = flash_write c b.mem addr s.buf block_size in
      let taken = record s { next = u32 (s.next + 1) } in
      if not s.active
      then (out_of_order, b)
      else if not (crc16 s.buf == s.want)
      then (bad_crc, b)
      else if ltb s.index s.next
      then (ok, b)
      else if not (s.index == s.next) || ltb (u32 (app_addr + s.total)) (addr + block_size)
      then (out_of_order, b)
      else if s.index == 0
      then (ok, record b { ses = record taken { blk0 = s.buf } })
      else if w.done
      then (ok, record b { mem = w.mem; ses = taken })
      else (flash_error, record b { mem = w.mem })

  -- what `end` sums: block 0 from RAM, the rest from flash
  unfoldable pub held_crc : Board → ℕ
  held_crc b =
      crc_feed c (λ i. b.mem (app_addr + block_size + i)) (id_length b.mem - block_size) block_size
        (crc_feed c (λ i. get_or b.ses.blk0 i 0) block_size 0 crc_reset)

  -- the checks of `end` before it commits; the second part is `*got`
  unfoldable pub end_checks : ℕ → Board → Status × ℕ
  end_checks want b =
      let blk0 = λ (i : ℕ). get_or b.ses.blk0 i 0 in
      let got = held_crc b in
      if not (id_magic b.mem == identity_magic)
        || ltb b.ses.total (id_length b.mem)
        || not (id_crc b.mem == want)
        || not (identity_ok c b.mem (le32 blk0 0) (le32 blk0 4))
      then (bad_image, 0)
      else if not (got == want)
      then (bad_crc, got)
      else if not (b.node == unset) && not (id_node b.mem == b.node)
      then (wrong_node, got)
      else if not (b.node == unset) && not (id_kind b.mem == b.kind)
      then (wrong_kind, got)
      else (ok, got)

  -- `end(want, &got)`
  unfoldable pub end_ : ℕ → Board → Status × ℕ × Board
  end_ want b =
      if not b.ses.active || ltb (u32 (b.ses.next * block_size)) b.ses.total
      then (out_of_order, 0, b)
      else (let b = record b { ses = record (b.ses) { active = false } } in
          let (st, got) = end_checks want b in
          let w = flash_write c b.mem app_addr b.ses.blk0 block_size in
          if is_ok st
          then (if w.done
              then (ok, got, record b { mem = w.mem; attempts = 0 })
              else (flash_error, got, record b { mem = w.mem }))
          else (st, got, b))
