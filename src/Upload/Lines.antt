-- ===== src/Upload/Lines.antt =====
-- What comes up the UART (Uploader.cpp): the bridge's lines, and its bootloader's serial frames.
use open_skyhawk.Base.{
  ℕ, zero, suc, ◌+◌, ◌-◌, ◌*◌, ◌/◌, ◌%◌, ◌^◌, Bool, true, false, not, ◌&&◌, List, [], ◌∷◌, ◌++◌,
  length, get_or, drop, take, Option, none, some, ◌==◌, ltb, leb, if◌then◌else◌,
}
use open_skyhawk.Boot.Session.{at}
use open_skyhawk.Upload.Wire.{serial_frame_start, sum_from}
use open_skyhawk.Upload.Protocol.{UplPhase, confirming}
use open_skyhawk.Upload.Session.{Uploader}
use open_skyhawk.Upload.Reply.{is_flashing, on_boot_reply}

-- `hexNibble`; `none` where the C++ gives -1
unfoldable pub hex_nibble : ℕ → Option ℕ
hex_nibble c =
    if leb b'0' c && leb c b'9'
    then some (c - b'0')
    else if leb b'A' c && leb c b'F'
    then some (c - b'A' + 10)
    else if leb b'a' c && leb c b'f'
    then some (c - b'a' + 10)
    else none

-- one byte of two digits
unfoldable pub hex_byte : ℕ → ℕ → Option ℕ
hex_byte h l = elim (hex_nibble h) [
  | none ↦ none
  | some a ↦ elim (hex_nibble l) [ none ↦ none | some b ↦ some (a * 16 + b) ]
]

-- `hexBytes(s, out, n)`
unfoldable pub hex_bytes : List ℕ → ℕ → Option (List ℕ)
hex_bytes s zero = some []
hex_bytes s (suc n) =
    let rest = hex_bytes (drop 2 s) n in
    elim (hex_byte (get_or s 0 0) (get_or s 1 0)) [
      | none ↦ none
      | some b ↦ elim rest [ none ↦ none | some bs ↦ some (b ∷ bs) ]
    ]

-- `startsWith(line, prefix)`: what stands after the prefix and a space
unfoldable pub starts_with : List ℕ → List ℕ → Option (List ℕ)
starts_with (c ∷ line) [] = if c == b' ' then some line else none
starts_with [] prefix = none
starts_with (c ∷ line) (d ∷ prefix) =
    let rest = starts_with line prefix in if c == d then rest else none

-- "_BOOT_RSP"
abbrev pub boot_rsp_msg_name : List ℕ
boot_rsp_msg_name = b'_' ∷ b'B' ∷ b'O' ∷ b'O' ∷ b'T' ∷ b'_' ∷ b'R' ∷ b'S' ∷ b'P' ∷ []

-- "_NODE_STATUS"
abbrev pub node_status_msg_name : List ℕ
node_status_msg_name =
    b'_' ∷ b'N' ∷ b'O' ∷ b'D' ∷ b'E' ∷ b'_' ∷ b'S' ∷ b'T' ∷ b'A' ∷ b'T' ∷ b'U' ∷ b'S' ∷ []

-- `_BOOT_RSP <id(3)><len(1)><data>`, from the id on
unfoldable pub boot_rsp : List ℕ → Option (ℕ × List ℕ)
boot_rsp s = elim (hex_byte (get_or s 0 0) (get_or s 1 0)) [
  | none ↦ none
  | some ab ↦ elim (hex_byte (get_or s 2 0) (get_or s 3 0)) [
    | none ↦ none
    | some cn ↦
        let n = cn % 16 in
        elim (hex_bytes (drop 4 s) n) [
          | none ↦ none
          | some d ↦
              if leb 4 (length s) && (leb n 8 && leb (4 + 2 * n) (length s))
              then some (ab * 16 + cn / 16, d)
              else none
        ]
  ]
]

abbrev pub update_at {ℓ} : {A : Type ℓ} → (ℕ → A) → ℕ → A → ℕ → A
update_at f n v m = if m == n then v else f m

-- a `_NODE_STATUS` row: 19 bytes, for a node below 64
unfoldable pub node_row : List ℕ → ℕ → Uploader → Uploader
node_row r now u = if leb 64 (at r 0) then u else record u {
  seen = update_at u.seen (at r 0) (record {
    present = not (at r 1 == 0);
    fw = (at r 14, at r 15, at r 16);
    bootloader = at r 17;
    boot_state = at r 18;
    ms = now;
  });
}

abbrev is_confirming : UplPhase → Bool
is_confirming confirming = true
is_confirming _ = false

-- `ownsUart`
abbrev pub owns_uart : Uploader → Bool
owns_uart u = is_flashing u.state

-- `ownsUartRx`: the bytes that come up go to `onUartByte`
unfoldable pub owns_uart_rx : Uploader → Bool
owns_uart_rx u = is_flashing u.state && (u.bridge && not (is_confirming u.phase))

-- a line that is not `_BOOT_RSP`
unfoldable pub on_status_line : List ℕ → ℕ → Uploader → Uploader
on_status_line line now u = elim (starts_with line node_status_msg_name) [
  | none ↦ u
  | some s ↦ elim (hex_bytes s 19) [
    | none ↦ u
    | some r ↦ if leb 38 (length s) then node_row r now u else u
  ]
]

-- `onBridgeLine(line, len, now)`: whether the line is kept from the client
unfoldable pub on_bridge_line : List ℕ → ℕ → Uploader → Bool × Uploader
on_bridge_line line now u = elim (starts_with line boot_rsp_msg_name) [
  | none ↦ (false, on_status_line line now u)
  | some s ↦ elim (boot_rsp s) [
    | none ↦ (owns_uart u, u)
    | some (id, d) ↦ let v = on_boot_reply id d now u in (owns_uart v, v)
  ]
]

-- A serial frame being received: what a byte does to the bytes so far. The result is a frame, by
-- identifier and data, whose sum is right.
unfoldable pub serial_byte : ℕ → List ℕ → Option (ℕ × List ℕ) × List ℕ
serial_byte c sf =
    let f = sf ++ c ∷ [] in
    let n = get_or f 3 0 in
    let id = get_or f 1 0 + 2 ^ 8 * get_or f 2 0 in
    if length sf == 0 && not (c == serial_frame_start)
    then (none, sf)
    else if ltb (length f) 4
    then (none, f)
    else if ltb 8 n
    then (none, [])
    else if ltb (length f) (5 + n)
    then (none, f)
    else (
      (if sum_from 0 (take (3 + n) (drop 1 f)) == get_or f (4 + n) 0
          then some (id, take n (drop 4 f))
          else none),
      [],
    )

-- `onUartByte(c, now)`
unfoldable pub on_uart_byte : ℕ → ℕ → Uploader → Uploader
on_uart_byte c now u =
    let (got, sf) = serial_byte c u.sf in
    let u = record u { sf = sf } in elim got [ none ↦ u | some (id, d) ↦ on_boot_reply id d now u ]
