-- ===== src/Gateway/Uplink.antt =====
-- The bytes from the bridge (SimGateway.cpp): frames of HID controls and lines of text.
use open_skyhawk.Base.{
  ℕ, ◌+◌, ◌-◌, ◌%◌, ◌^◌, Bool, true, false, ◌&&◌, ◌||◌, not, List, [], ◌∷◌, ◌++◌, length, take,
  get_or, ◌==◌, ltb, if◌then◌else◌,
}
use open_skyhawk.Boot.Session.{at16}
use open_skyhawk.Upload.Session.{Uploader}
use open_skyhawk.Upload.Lines.{on_bridge_line}
use open_skyhawk.Gateway.AxisCal.{AxisCal, axis_cal_apply, axis_cal_slots}

-- `enum class ParserState`
pub data ParserState : Type 0 where
  idle got_aa in_frame : ParserState

-- HIDAxis, HIDButton and HIDHatSwitch: a control's number and its index in the report
pub record HidControl : Type 0 where
  pub control_id : ℕ
  pub index : ℕ

-- the registered controls, in the order of their lists, and `_calBlob.axes`
pub record Controls : Type 0 where
  pub axes : List HidControl
  pub buttons : List HidControl
  pub hats : List HidControl
  pub cals : List AxisCal

-- What goes to the host: bytes on CDC, a call of _calEmitRaw(), and the setters of the HID report.
pub data HostOut : Type 0 where
  cdc : List ℕ → HostOut
  emit_raw set_axis set_hat : ℕ → ℕ → HostOut
  set_button : ℕ → Bool → HostOut

-- `_state`, `_frameBuf`, the line with its marks, the uploader, the counts of lines that were lost, and
-- what went out
pub record Uplink : Type 0 where
  pub state : ParserState
  pub frame_buf : List ℕ
  pub line : List ℕ
  pub corrupt : Bool
  pub overlong : Bool
  pub uploader : Uploader
  pub lines_overlong : ℕ
  pub lines_corrupt : ℕ
  pub lines_dropped : ℕ
  pub out : List HostOut

-- `_bump`
abbrev pub bump : ℕ → ℕ
bump c = if c == 0xFFFF then c else c + 1

-- `_lineReset`
abbrev pub line_reset : Uplink → Uplink
line_reset x = record x { line = []; corrupt = false; overlong = false }

abbrev pub is_noise : ℕ → Bool
is_noise b = ltb b 0x20 || ltb 0x7E b

-- a line that is over, with the room that CDC has
unfoldable pub end_line : ℕ → ℕ → Uplink → Uplink
end_line now room x =
    let (taken, u) = on_bridge_line (take (length x.line - 1) x.line) now x.uploader in
    let y = record x { uploader = u } in
    line_reset (
      if x.overlong
      then record x { lines_overlong = bump x.lines_overlong }
      else if x.corrupt
      then record x { lines_corrupt = bump x.lines_corrupt }
      else if taken
      then y
      else if ltb room (length x.line)
      then record y { lines_dropped = bump x.lines_dropped }
      else record y { out = x.out ++ cdc x.line ∷ [] })

-- RELAY_LINE_MAX
abbrev pub relay_line_max : ℕ
relay_line_max = 128

-- `_relayByte(b)`
unfoldable pub relay_byte : ℕ → ℕ → ℕ → Uplink → Uplink
relay_byte now room b x =
    let y =
      if ltb (length x.line) relay_line_max
      then record x { line = x.line ++ b ∷ [] }
      else record x { overlong = true } in
    if length x.line == 0 && (not (b == 0x0A) && is_noise b)
    then x
    else if b == 0x0A
    then end_line now room y
    else if is_noise b
    then record y { corrupt = true }
    else y

-- `HIDAxis::dispatch`, `HIDButton::dispatch` and `HIDHatSwitch::dispatch`; an axis position is the
-- int16_t's bits.
abbrev no_cal : AxisCal
no_cal = record { min = 0; centre = 0; max = 0; deadzone = 0 }

abbrev pub axis_value : List AxisCal → ℕ → ℕ → ℕ
axis_value cals i v = if ltb i axis_cal_slots then axis_cal_apply (get_or cals i no_cal) v else v

unfoldable pub dispatch_axes : List AxisCal → ℕ → ℕ → List HidControl → List HostOut
dispatch_axes cals id v [] = []
dispatch_axes cals id v (c ∷ cs) =
    let rest = dispatch_axes cals id v cs in
    if c.control_id == id
    then emit_raw c.index v
      ∷ set_axis c.index ((axis_value cals c.index v + 2 ^ 16 - 32768) % 2 ^ 16)
      ∷ rest
    else rest

unfoldable pub dispatch_buttons : ℕ → ℕ → List HidControl → List HostOut
dispatch_buttons id v [] = []
dispatch_buttons id v (c ∷ cs) =
    let rest = dispatch_buttons id v cs in
    if c.control_id == id then set_button c.index (not (v == 0)) ∷ rest else rest

unfoldable pub dispatch_hats : ℕ → ℕ → List HidControl → List HostOut
dispatch_hats id v [] = []
dispatch_hats id v (c ∷ cs) =
    let rest = dispatch_hats id v cs in
    if c.control_id == id then set_hat c.index (if ltb 8 v then 0 else v) ∷ rest else rest

unfoldable pub dispatch : Controls → ℕ → ℕ → List HostOut
dispatch w id v =
    dispatch_axes w.cals id v w.axes
    ++ (dispatch_buttons id v w.buttons ++ dispatch_hats id v w.hats)

-- a complete frame
unfoldable pub end_hid_frame : Controls → Uplink → Uplink
end_hid_frame w x = record x {
  state = idle;
  out = x.out ++ dispatch w (at16 x.frame_buf 0) (at16 x.frame_buf 2);
}

module _ (w : Controls) where
  -- `_processByte(b)`, in a state; that a setter was called, which it returns, is seen in `out`
  unfoldable pub process_in : ParserState → ℕ → ℕ → ℕ → Uplink → Uplink
  process_in idle now room b x =
      if b == 0xAA then record x { state = got_aa } else relay_byte now room b x
  process_in got_aa now room b x =
      let y = relay_byte now room 0xAA (record x { corrupt = true }) in
      if b == 0x55
      then record x { state = in_frame; frame_buf = [] }
      else record (relay_byte now room b y) { state = idle }
  process_in in_frame now room b x =
      let y = record x { frame_buf = x.frame_buf ++ b ∷ [] } in
      if ltb (length y.frame_buf) 4 then y else end_hid_frame w y

  unfoldable pub process_byte : ℕ → ℕ → ℕ → Uplink → Uplink
  process_byte now room b x = process_in x.state now room b x

  -- bytes of the bridge, while the uploader does not own the UART, with one time and room for all of them
  unfoldable pub process_bytes : ℕ → ℕ → List ℕ → Uplink → Uplink
  process_bytes now room [] x = x
  process_bytes now room (b ∷ bs) x = process_bytes now room bs (process_byte now room b x)
