-- ===== src/Gateway/Examples.antt =====
-- The axis calibration and the inbound parser at a concrete axis, concrete bytes and a concrete frame.
use open_skyhawk.Base.{ℕ, ◌≤◌, ◌<◌, ◌≡◌, refl, Bool, true, false, List, [], ◌∷◌, ◌++◌, map, arith}
use open_skyhawk.Gateway.AxisCal.{AxisCal, axis_cal_valid, axis_cal_apply}
use open_skyhawk.Gateway.CalType
use open_skyhawk.Gateway.Frame.{cal_build_frame, cal_len_valid_for_type, payload_length}
use open_skyhawk.Gateway.Inbound.{
  handled, to_uart, dropped, Inbound, magic_byte, cal_inbound_byte, client_byte, client_bytes,
}
use open_skyhawk.Gateway.AxisLaws.{axis_cal_apply_mono}
use open_skyhawk.Gateway.Lossless.{taken, only_bytes, AllFrames, client_bytes-lossless}
use open_skyhawk.Gateway.Owner.{Follows}
use open_skyhawk.Gateway.FrameTrip.{client_bytes-cal_build_frame}
use open_skyhawk.Gateway.Uplink.{
  idle, Controls, cdc, emit_raw, set_axis, Uplink, dispatch_axes, dispatch_buttons, dispatch_hats,
  dispatch, process_bytes,
}
use open_skyhawk.Gateway.LineTrip.{all_printable, receiving, relay_line}
use open_skyhawk.Gateway.HidTrip.{
  text, control, Message, IsMessage, AllMessages, messages_bytes, deliver, deliver_all,
  process_bytes-deliver_all,
}
use open_skyhawk.Upload.Lines.{starts_with, on_bridge_line}
use open_skyhawk.Upload.Examples.{fresh}

abbrev stick : AxisCal
stick = record { min = 100; centre = 2000; max = 4000; deadzone = 50 }

axis_cal_apply_mono_example :
    (axis_cal_apply stick 150 ≤ axis_cal_apply stick 2500) × (axis_cal_apply stick 2500 < 65536)
axis_cal_apply_mono_example = axis_cal_apply_mono stick 150 2500 (omega arith) (omega arith)

-- a word of the export stream, the start of a frame that is none, and the magic's first byte once more
abbrev stream : List (ℕ × Bool)
stream = (0x55, false) ∷ (0xAA, false) ∷ (0x53, false) ∷ (0x10, true) ∷ (0xAA, false) ∷ []

abbrev empty : Inbound
empty = record { held = []; fates = to_uart (1 ∷ []) ∷ [] }

empty_frames : AllFrames empty.fates
unfolding AllFrames
empty_frames = refl

client_bytes-lossless_example :
    (taken (client_bytes stream empty) ≡ taken empty ++ only_bytes stream)
    × Follows stream empty.fates (client_bytes stream empty).fates
    × AllFrames (client_bytes stream empty).fates
client_bytes-lossless_example = client_bytes-lossless stream empty empty_frames

-- the word before goes to the bridge, and what the byte behind it settles is dropped with it
stream_fates :
    (client_bytes stream empty).fates
    ≡ to_uart (1 ∷ [])
      ∷ to_uart []
      ∷ to_uart (0x55 ∷ [])
      ∷ dropped (0xAA ∷ 0x53 ∷ [])
      ∷ dropped (0x10 ∷ [])
      ∷ []
unfolding client_bytes client_byte cal_inbound_byte magic_byte
stream_fates = refl

session_fits : cal_len_valid_for_type CalType.session_open 1 ≡ true
unfolding cal_len_valid_for_type payload_length
session_fits = refl

client_bytes-cal_build_frame_example :
    (let f = cal_build_frame 92 CalType.session_open 7 (3 ∷ []) in
      client_bytes (map (λ b. (b, false)) f) (record { held = []; fates = [] })
      ≡ record { held = []; fates = handled f ∷ [] })
client_bytes-cal_build_frame_example =
    client_bytes-cal_build_frame 92 CalType.session_open 7 (3 ∷ []) false [] (omega arith)
      session_fits (omega arith)

-- "A 1", the axis 0 at its highest value, and "B 0"
abbrev from_bridge : List Message
from_bridge =
    text (0x41 ∷ 0x20 ∷ 0x31 ∷ []) ∷ control 7 0xFFFF ∷ text (0x42 ∷ 0x20 ∷ 0x30 ∷ []) ∷ []

abbrev one_axis : Controls
one_axis = record {
  axes = record { control_id = 7; index = 0 } ∷ [];
  buttons = [];
  hats = [];
  cals = stick ∷ [];
}

abbrev no_line : Uplink
no_line = record {
  state = idle;
  frame_buf = [];
  line = [];
  corrupt = false;
  overlong = false;
  uploader = fresh;
  lines_overlong = 0;
  lines_corrupt = 0;
  lines_dropped = 0;
  out = [];
}

from_bridge-AllMessages : AllMessages from_bridge
unfolding AllMessages IsMessage all_printable
from_bridge-AllMessages =
    ((refl, omega arith), ((omega arith, omega arith), ((refl, omega arith), tt)))

process_bytes-deliver_all_example :
    process_bytes one_axis 20 64 (messages_bytes from_bridge) (receiving [] no_line)
    ≡ receiving [] (deliver_all one_axis 20 64 from_bridge no_line)
process_bytes-deliver_all_example =
    process_bytes-deliver_all one_axis 20 64 from_bridge no_line from_bridge-AllMessages

-- both lines and the axis value reach the host, in their order
deliver_all_out :
    (deliver_all one_axis 20 64 from_bridge no_line).out
    ≡ cdc (0x41 ∷ 0x20 ∷ 0x31 ∷ 0x0A ∷ [])
      ∷ emit_raw 0 0xFFFF
      ∷ set_axis 0 0x7FFF
      ∷ cdc (0x42 ∷ 0x20 ∷ 0x30 ∷ 0x0A ∷ [])
      ∷ []
unfolding deliver_all deliver relay_line dispatch dispatch_axes dispatch_buttons dispatch_hats
    on_bridge_line starts_with axis_cal_apply axis_cal_valid
deliver_all_out = refl
