-- ===== src/Bridge/BootLine.antt =====
-- A bootloader's reply on its way from the bridge to the uploader (PanelBridge.cpp, Uploader.cpp).
use open_skyhawk.Base.{
  append-nil, ℕ, ◌+◌, ◌*◌, ◌/◌, ◌%◌, ◌^◌, ◌≤◌, ◌<◌, ◌≡◌, refl, subst, true, List, [], ◌∷◌, ◌++◌,
  length, take, some, leb, arith, ◌&&◌,
}
use open_skyhawk.Upload.Session.{Uploader}
use open_skyhawk.Upload.Reply.{on_boot_reply}
use open_skyhawk.Upload.Lines.{hex_byte, hex_bytes, boot_rsp_msg_name, boot_rsp, on_bridge_line}
use open_skyhawk.Bridge.Rows.{hex_digit, hex2, hex_all, emit_boot_rsp}
use open_skyhawk.Bridge.Hex.{hex_nibble-hex_digit, hex_bytes-hex_all, starts_with-prefix, bytes_of}
use open_skyhawk.Bridge.Heard.{line, heard, heard-emit}
use open_skyhawk.Bridge.Payload.{take_short}
use open_skyhawk.Bridge.State.{Bridge, message}

hex_byte-digits :
    (a b : ℕ) → a < 16 → b < 16 → hex_byte (hex_digit a) (hex_digit b) ≡ some (a * 16 + b)
unfolding hex_byte
hex_byte-digits a b la lb =
    rw (hex_nibble-hex_digit a la, hex_byte) (rw (hex_nibble-hex_digit b lb, hex_byte) refl)

-- the argument of a `_BOOT_RSP` line
abbrev pub reply_hex : ℕ → List ℕ → List ℕ
reply_hex id d =
    (hex_digit (id / 256 % 16) ∷ (hex2 (id % 256) ++ hex_digit (length d % 16) ∷ []))
    ++ hex_all (take 8 d)

length-hex_all : (d : List ℕ) → length (hex_all d) ≡ 2 * length d
unfolding hex_all hex2
length-hex_all [] = refl
length-hex_all (x ∷ d) = let i = length-hex_all d in omega arith

boot_rsp-reply_hex :
    (id : ℕ) (d : List ℕ)
    → id < 2 ^ 12
    → length d ≤ 8
    → boot_rsp (reply_hex id d) ≡ some (id, bytes_of d)
unfolding boot_rsp hex2
boot_rsp-reply_hex id d small short =
    let t = take_short 8 d short in
    let first = hex_byte-digits (id / 256 % 16) (id % 256 / 16 % 16) (omega arith) (omega arith) in
    let second = hex_byte-digits (id % 256 % 16) (length d % 16) (omega arith) (omega arith) in
    let bytes = hex_bytes-hex_all d [] in
    let n = length-hex_all d in
    let bytes_all : hex_bytes (hex_all d) (length d) ≡ some (bytes_of d) =
      subst (λ w. hex_bytes w (length d) ≡ some (bytes_of d)) (append-nil (hex_all d)) bytes in
    let size : length (reply_hex id d) ≡ 4 + 2 * length d = rw t (omega arith) in
    let m : (id % 256 % 16 * 16 + length d % 16) % 16 ≡ length d = omega arith in
    let ok : leb 4 (length (reply_hex id d))
          && (leb ((id % 256 % 16 * 16 + length d % 16) % 16) 8
              && leb (4 + 2 * ((id % 256 % 16 * 16 + length d % 16) % 16))
                  (length (reply_hex id d)))
        ≡ true =
      rw (m, size) (ground arith) in
    let value : (id / 256 % 16 * 16 + id % 256 / 16 % 16) * 16
          + (id % 256 % 16 * 16 + length d % 16) / 16
        ≡ id =
      omega arith in
    rw (first, boot_rsp) (rw (second, boot_rsp) (rw (m, t, bytes_all) (rw (ok, value) refl)))

on_bridge_line-reply :
    (id : ℕ) (d : List ℕ) (now : ℕ) (u : Uploader)
    → id < 2 ^ 12
    → length d ≤ 8
    → (on_bridge_line (line boot_rsp_msg_name (reply_hex id d)) now u).1
      ≡ on_boot_reply id (bytes_of d) now u
unfolding on_bridge_line
on_bridge_line-reply id d now u small short =
    let a = starts_with-prefix boot_rsp_msg_name (reply_hex id d) in
    let c = boot_rsp-reply_hex id d small short in
    rw (a, on_bridge_line) (rw (c, on_bridge_line) refl)

-- The uploader answers the line that the bridge writes for a bootloader's reply, of an identifier of
-- twelve bits and at most eight bytes, as it answers the reply itself.
pub heard-emit_boot_rsp :
    (id : ℕ) (d : List ℕ) (now : ℕ) (u : Uploader) (b : Bridge)
    → id < 2 ^ 12
    → length d ≤ 8
    → heard (emit_boot_rsp id d b).out now u ≡ on_boot_reply id (bytes_of d) now (heard b.out now u)
unfolding emit_boot_rsp
heard-emit_boot_rsp id d now u b small short =
    rw (heard-emit b.out (message boot_rsp_msg_name (reply_hex id d)) now u)
      (on_bridge_line-reply id d now (heard b.out now u) small short)
