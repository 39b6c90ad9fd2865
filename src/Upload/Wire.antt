-- ===== src/Upload/Wire.antt =====
-- How the uploader puts CAN frames on the UART (Uploader.cpp): as export records that the bridge
-- relays, or as serial frames for the bridge's own bootloader.
use open_skyhawk.Base.{
  ℕ, ◌+◌, ◌-◌, ◌*◌, ◌/◌, ◌%◌, Bool, not, List, [], ◌∷◌, ◌++◌, length, take, bit_or, ◌==◌, ltb,
  if◌then◌else◌,
}

-- RELAY_EXPORT_ADDRESS and the other constants of the two transports (BootProtocol.h)
abbrev pub relay_export_address : ℕ
relay_export_address = 0xFF10

abbrev pub relay_export_words : ℕ
relay_export_words = 32

abbrev pub relay_frame_mark : ℕ
relay_frame_mark = 0xE0

abbrev pub relay_escape : ℕ
relay_escape = 0x56

abbrev pub relay_esc_55 : ℕ
relay_esc_55 = 0x01

abbrev pub relay_esc_56 : ℕ
relay_esc_56 = 0x02

abbrev pub serial_frame_start : ℕ
serial_frame_start = 0xAA

-- a CAN frame: its identifier and its bytes
pub record CanFrame : Type 0 where
  pub id : ℕ
  pub bytes : List ℕ

-- `sizeof(_rec)` and `sizeof(_out)`
abbrev pub rec_size : ℕ
rec_size = 2 * relay_export_words

abbrev pub out_size : ℕ
out_size = 4 + 2 * (4 + 2 * relay_export_words) * 2

-- `_rec` and `_out` up to their lengths, and the calls of `writeUart` so far
pub record Wire : Type 0 where
  pub rec : List ℕ
  pub out : List ℕ
  pub uart : List (List ℕ)

-- `if (_recLen & 1) _rec[_recLen++] = 0x00`
abbrev pub pad : List ℕ → List ℕ
pad r = if length r % 2 == 1 then r ++ 0 ∷ [] else r

-- an export record: address, length and words
abbrev pub export_record : List ℕ → List ℕ
export_record r = relay_export_address % 256 ∷ relay_export_address / 256 ∷ length r % 256 ∷ 0 ∷ r

-- `recFlush`
unfoldable pub rec_flush : Wire → Wire
rec_flush w =
    let out = w.out ++ export_record (pad w.rec) in
    if length w.rec == 0
    then w
    else if ltb (out_size - (4 + rec_size)) (length out)
    then record { rec = []; out = []; uart = w.uart ++ out ∷ [] }
    else record w { rec = []; out = out }

-- `beginFrames`
unfoldable pub begin_frames : Bool → Wire → Wire
begin_frames bridge w = record w {
  rec = [];
  out = if not bridge then 0x55 ∷ 0x55 ∷ 0x55 ∷ 0x55 ∷ [] else [];
}

-- the sum of a serial frame, mod 256
unfoldable pub sum_from : ℕ → List ℕ → ℕ
sum_from s [] = s
sum_from s (x ∷ xs) = sum_from ((s + x) % 256) xs

-- the bytes of a serial frame
unfoldable pub serial_bytes : ℕ → List ℕ → List ℕ
serial_bytes id d =
    let n = length d in
    let lo = id % 256 in
    let hi = id / 256 % 256 in
    serial_frame_start ∷ lo ∷ hi ∷ n ∷ (d ++ sum_from ((lo + hi + n) % 256) d ∷ [])

-- `addSerialFrame(id, d, n)`
unfoldable pub add_serial_frame : ℕ → List ℕ → Wire → Wire
add_serial_frame id d w =
    let w =
      if ltb out_size (length w.out + 5 + length d)
      then record w { out = []; uart = w.uart ++ w.out ∷ [] }
      else w in
    record w { out = w.out ++ serial_bytes id d }

-- the escape of a byte inside a relayed frame
unfoldable pub escape_byte : ℕ → List ℕ
escape_byte b =
    if b == 0x55
    then relay_escape ∷ relay_esc_55 ∷ []
    else if b == 0x56
    then relay_escape ∷ relay_esc_56 ∷ []
    else b ∷ []

unfoldable pub escape : List ℕ → List ℕ
escape [] = []
escape (b ∷ bs) = escape_byte b ++ escape bs

-- the bytes of a relayed frame of at most eight data bytes
unfoldable pub relay_bytes : ℕ → List ℕ → List ℕ
relay_bytes id d = bit_or relay_frame_mark (length d) ∷ escape (id % 256 ∷ id / 256 % 256 ∷ d)

-- `addFrame(id, d, n)`
unfoldable pub add_frame : Bool → CanFrame → Wire → Wire
add_frame bridge f w =
    let r = relay_bytes f.id (take 8 f.bytes) in
    let w' = if ltb rec_size (length w.rec + length r) then rec_flush w else w in
    if bridge then add_serial_frame f.id f.bytes w else record w' { rec = w'.rec ++ r }

unfoldable pub add_frames : Bool → List CanFrame → Wire → Wire
add_frames bridge [] w = w
add_frames bridge (f ∷ fs) w = add_frames bridge fs (add_frame bridge f w)

-- `endFrames`
unfoldable pub end_frames : Bool → Wire → Wire
end_frames bridge w =
    let w = if not bridge then rec_flush w else w in
    if length w.out == 0 then w else record w { out = []; uart = w.uart ++ w.out ∷ [] }

-- frames from `beginFrames` to `endFrames`
unfoldable pub send_frames : Bool → List CanFrame → Wire → Wire
send_frames bridge fs w = end_frames bridge (add_frames bridge fs (begin_frames bridge w))
