-- ===== src/Gateway/Inbound.antt =====
-- The inbound parser (SimGateway.cpp): frames for the Gateway among the bytes for the bridge.
use open_skyhawk.Base.{
  ℕ, ◌+◌, ◌%◌, ◌^◌, Bool, true, false, List, [], ◌∷◌, ◌++◌, length, get_or, ◌==◌, ltb,
  if◌then◌else◌,
}
use open_skyhawk.Boot.Session.{at, at16}
use open_skyhawk.Gateway.Frame.{
  cal_frame_magic, cal_envelope_bytes, cal_len_valid_for_type, cal_frame_crc_ok,
}

-- What bytes from the client become: bytes for the bridge's UART, bytes that are dropped while the
-- uploader owns the UART, and frames that are handled.
pub data Fate : Type 0 where
  to_uart dropped handled : List ℕ → Fate

-- bytes that are not the Gateway's
abbrev pub passed_on : Bool → List ℕ → Fate
passed_on owns bs = if owns then dropped bs else to_uart bs

-- The bytes held, `_calRx` below `_calRxPos`, and what became of those before them.
pub record Inbound : Type 0 where
  pub held : List ℕ
  pub fates : List Fate

abbrev pub give : Fate → Inbound → Inbound
give f x = record x { fates = x.fates ++ f ∷ [] }

module _ (owns : Bool) where
  -- `_calFlushHeld`
  abbrev pub cal_flush_held : Inbound → Inbound
  cal_flush_held x = record { held = []; fates = x.fates ++ passed_on owns x.held ∷ [] }

  abbrev pub hold : ℕ → Inbound → Inbound
  hold b x = record x { held = x.held ++ b ∷ [] }

  -- a byte of the magic's place, and whether it was absorbed
  unfoldable pub magic_byte : ℕ → Inbound → Bool × Inbound
  magic_byte b x =
      let y = cal_flush_held x in
      if b == get_or cal_frame_magic (length x.held) 0
      then (true, hold b x)
      else if b == get_or cal_frame_magic 0 0
      then (true, hold b y)
      else (false, y)

  -- the end of a candidate
  unfoldable pub end_frame : Inbound → Inbound
  end_frame y =
      if cal_frame_crc_ok y.held
      then record { held = []; fates = y.fates ++ handled y.held ∷ [] }
      else cal_flush_held y

  -- a byte behind the magic
  unfoldable pub later_byte : Inbound → Inbound
  later_byte y =
      if length y.held == 8
      then if cal_len_valid_for_type (at y.held 4) (at16 y.held 6) then y else cal_flush_held y
      else if ltb (length y.held) 8
      then y
      else if ltb (length y.held) ((cal_envelope_bytes + at16 y.held 6) % 2 ^ 16)
      then y
      else end_frame y

  -- `_calInboundByte(b)`
  unfoldable pub cal_inbound_byte : ℕ → Inbound → Bool × Inbound
  cal_inbound_byte b x =
      if ltb (length x.held) 4 then magic_byte b x else (true, later_byte (hold b x))

  -- a byte from the client in `loop`
  unfoldable pub client_byte : ℕ → Inbound → Inbound
  client_byte b x =
      let (absorbed, y) = cal_inbound_byte b x in
      if absorbed then y else give (passed_on owns (b ∷ [])) y

-- The bytes of the client, each with whether the uploader owns the UART then.
unfoldable pub client_bytes : List (ℕ × Bool) → Inbound → Inbound
client_bytes [] x = x
client_bytes ((b, owns) ∷ bs) x = client_bytes bs (client_byte owns b x)
