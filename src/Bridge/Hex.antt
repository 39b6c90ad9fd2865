-- ===== src/Bridge/Hex.antt =====
-- What the bridge writes in hex, the uploader reads (PanelBridge.cpp, Uploader.cpp).
use open_skyhawk.Base.{
  ℕ, ◌+◌, ◌*◌, ◌/◌, ◌%◌, ◌<◌, ◌≡◌, refl, ap, true, false, not, List, [], ◌∷◌, ◌++◌, length, none,
  some, leb, ◌==◌, arith, if◌then◌else◌, Bool-cases, inl, inr,
}
use open_skyhawk.Upload.Session.{Uploader, Seen}
use open_skyhawk.Upload.Lines.{
  hex_nibble, hex_byte, hex_bytes, starts_with, boot_rsp_msg_name, node_status_msg_name, boot_rsp,
  update_at, owns_uart, on_status_line, on_bridge_line,
}
use open_skyhawk.Boot.Session.{at}
use open_skyhawk.Upload.Lines
use open_skyhawk.Bridge.Rows.{
  hex_digit, hex2, hex_all, Row, row_hex, row_message, node_status_end_msg_name,
}
use open_skyhawk.Bridge.State.{Out, message}
use open_skyhawk.Bridge.Heard.{line, heard, heard-emit}

pub hex_nibble-hex_digit : (d : ℕ) → d < 16 → hex_nibble (hex_digit d) ≡ some d
unfolding hex_nibble hex_digit
hex_nibble-hex_digit d l = ground arith

hex_byte-hex2 : (v : ℕ) → hex_byte (hex_digit (v / 16 % 16)) (hex_digit (v % 16)) ≡ some (v % 256)
unfolding hex_byte
hex_byte-hex2 v =
    let a = hex_nibble-hex_digit (v / 16 % 16) (omega arith) in
    let b = hex_nibble-hex_digit (v % 16) (omega arith) in
    let sum : v / 16 % 16 * 16 + v % 16 ≡ v % 256 = omega arith in
    rw (a, hex_byte) (rw (b, hex_byte) (ap some sum))

-- the bytes behind the hex
abbrev pub bytes_of : List ℕ → List ℕ
bytes_of [] = []
bytes_of (b ∷ bs) = b % 256 ∷ bytes_of bs

pub hex_bytes-hex_all :
    (bs rest : List ℕ) → hex_bytes (hex_all bs ++ rest) (length bs) ≡ some (bytes_of bs)
unfolding hex_bytes hex_all hex2
hex_bytes-hex_all [] rest = refl
hex_bytes-hex_all (b ∷ bs) rest =
    let one = hex_byte-hex2 b in let more = hex_bytes-hex_all bs rest in ground (arith, one, more)

pub starts_with-prefix : (p s : List ℕ) → starts_with (p ++ b' ' ∷ s) p ≡ some s
unfolding starts_with
starts_with-prefix [] s = refl
starts_with-prefix (c ∷ p) s = ground (arith, starts_with-prefix p s)

-- a row's nineteen bytes
abbrev pub row_bytes : Row → List ℕ
row_bytes r =
    r.id
    ∷ (if r.present then 1 else 0)
    ∷ r.hb.flags
    ∷ r.hb.uptime / 256 % 256
    ∷ r.hb.uptime % 256
    ∷ r.hb.rx_count / 256 % 256
    ∷ r.hb.rx_count % 256
    ∷ r.hb.esr / 256 % 256
    ∷ r.hb.esr % 256
    ∷ r.die_temp
    ∷ r.health_flags
    ∷ r.fault_mask
    ∷ r.fault_id
    ∷ r.node_kind
    ∷ r.fw_major
    ∷ r.fw_minor
    ∷ r.fw_patch
    ∷ r.bootloader
    ∷ r.boot_state
    ∷ []

row_hex-hex_all : (r : Row) → row_hex r ≡ hex_all (row_bytes r) ++ []
unfolding row_hex hex_all hex2
row_hex-hex_all r = refl

-- what the uploader knows of a node after its row
abbrev pub seen_of : Row → ℕ → Seen
seen_of r now = record {
  present = r.present;
  fw = (r.fw_major % 256, r.fw_minor % 256, r.fw_patch % 256);
  bootloader = r.bootloader % 256;
  boot_state = r.boot_state % 256;
  ms = now;
}

row_read : (r : Row) → hex_bytes (row_hex r) 19 ≡ some (bytes_of (row_bytes r))
row_read r = rw (row_hex-hex_all r) (hex_bytes-hex_all (row_bytes r) [])

row_length : (r : Row) → leb 38 (length (row_hex r)) ≡ true
unfolding row_hex hex2
row_length r = refl

-- the line at the end of the roster is not a row
end_is_no_row :
    (s : List ℕ) → starts_with (line node_status_end_msg_name s) node_status_msg_name ≡ none
unfolding starts_with
end_is_no_row s = refl

end_not_boot_rsp :
    (s : List ℕ) → starts_with (line node_status_end_msg_name s) boot_rsp_msg_name ≡ none
unfolding starts_with
end_not_boot_rsp s = refl

not_boot_rsp : (s : List ℕ) → starts_with (line node_status_msg_name s) boot_rsp_msg_name ≡ none
unfolding starts_with
not_boot_rsp s = refl

seen_read :
    (r : Row) (now : ℕ)
    → (let d = bytes_of (row_bytes r) in
        record {
          present = not (at d 1 == 0);
          fw = (at d 14, at d 15, at d 16);
          bootloader = at d 17;
          boot_state = at d 18;
          ms = now;
        })
      ≡ seen_of r now
seen_read r now =
    let flag : not ((if r.present then 1 else 0) % 256 % 256 == 0) ≡ r.present =
      elim (Bool-cases r.present) [ inl e ↦ rw e refl | inr e ↦ rw e refl ] in
    let twice : (x : ℕ) → x % 256 % 256 ≡ x % 256 = λ x. omega arith in
    rw
      (
        flag,
        twice (r.fw_major),
        twice (r.fw_minor),
        twice (r.fw_patch),
        twice (r.bootloader),
        twice (r.boot_state),
      )
      refl

row_status :
    (r : Row) (now : ℕ) (u : Uploader)
    → r.id < 64
    → on_status_line (line node_status_msg_name (row_hex r)) now u
      ≡ record u { seen = update_at u.seen r.id (seen_of r now) }
unfolding on_status_line Lines.node_row
row_status r now u l =
    let b = starts_with-prefix node_status_msg_name (row_hex r) in
    let c = row_read r in
    let d = row_length r in
    let small : leb 64 (r.id % 256 % 256) ≡ false = ground arith in
    let same : r.id % 256 % 256 ≡ r.id = omega arith in
    rw (b, on_status_line)
      (rw (c, on_status_line) (rw d (rw small (rw same (rw (seen_read r now) refl)))))

on_bridge_line-row :
    (r : Row) (now : ℕ) (u : Uploader)
    → r.id < 64
    → (on_bridge_line (line node_status_msg_name (row_hex r)) now u).1
      ≡ record u { seen = update_at u.seen r.id (seen_of r now) }
unfolding on_bridge_line
on_bridge_line-row r now u l =
    let a = not_boot_rsp (row_hex r) in rw (a, on_bridge_line) (row_status r now u l)

-- The uploader learns from a row of the bridge, of a node below 64, what the row says of the node.
pub heard-row :
    (os : List Out) (r : Row) (now : ℕ) (u : Uploader)
    → r.id < 64
    → heard (os ++ row_message r ∷ []) now u
      ≡ (let v = heard os now u in record v { seen = update_at v.seen r.id (seen_of r now) })
heard-row os r now u l =
    rw (heard-emit os (row_message r) now u) (on_bridge_line-row r now (heard os now u) l)

on_bridge_line-end :
    (s : List ℕ) (now : ℕ) (u : Uploader)
    → (on_bridge_line (line node_status_end_msg_name s) now u).1 ≡ u
unfolding on_bridge_line on_status_line
on_bridge_line-end s now u =
    let a = end_not_boot_rsp s in
    let c = end_is_no_row s in rw (a, on_bridge_line) (rw (c, on_status_line) refl)

-- The line at the end of the roster tells the uploader nothing.
pub heard-end :
    (os : List Out) (s : List ℕ) (now : ℕ) (u : Uploader)
    → heard (os ++ message node_status_end_msg_name s ∷ []) now u ≡ heard os now u
heard-end os s now u =
    rw (heard-emit os (message node_status_end_msg_name s) now u)
      (on_bridge_line-end s now (heard os now u))
