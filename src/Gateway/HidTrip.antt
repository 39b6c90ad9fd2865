-- ===== src/Gateway/HidTrip.antt =====
-- What the bridge writes for the Gateway, lines of text and frames of HID controls in any order, and what
-- the Gateway (SimGateway.cpp) makes of it.
use open_skyhawk.Base.{
  ℕ, ◌+◌, ◌*◌, ◌/◌, ◌%◌, ◌≤◌, ◌<◌, ◌≡◌, refl, ap, ◌∙◌, true, List, [], ◌∷◌, ◌++◌, length, arith,
}
use open_skyhawk.Bridge.State.{Bridge, emit, serial}
use open_skyhawk.Bridge.Rows.{send_hid_frame}
use open_skyhawk.Gateway.Uplink.{
  Controls, Uplink, dispatch, end_hid_frame, process_in, process_byte, process_bytes,
}
use open_skyhawk.Gateway.LineTrip.{
  all_printable, receiving, relay_line, process_bytes-append, process_bytes-relay_line,
}

-- the six bytes of a control's value
abbrev pub hid_frame : ℕ → ℕ → List ℕ
hid_frame id v = 0xAA ∷ 0x55 ∷ id % 256 ∷ id / 256 ∷ v % 256 ∷ v / 256 ∷ []

send_hid_frame-hid_frame :
    (id v : ℕ) (b : Bridge) → send_hid_frame id v b ≡ emit (serial (hid_frame id v)) b
unfolding send_hid_frame
send_hid_frame-hid_frame id v b = refl

pub data Message : Type 0 where
  text : List ℕ → Message
  control : ℕ → ℕ → Message

-- a line of printable text that fits the Gateway's buffer with its end
unfoldable pub IsMessage : Message → Type 0
IsMessage (text s) = (all_printable s ≡ true) × (length s ≤ 127)
IsMessage (control id v) = (id < 65536) × (v < 65536)

abbrev pub message_bytes : Message → List ℕ
message_bytes (text s) = s ++ 0x0A ∷ []
message_bytes (control id v) = hid_frame id v

unfoldable pub AllMessages : List Message → Type 0
AllMessages [] = Unit {0}
AllMessages (m ∷ ms) = IsMessage m × AllMessages ms

unfoldable pub messages_bytes : List Message → List ℕ
messages_bytes [] = []
messages_bytes (m ∷ ms) = message_bytes m ++ messages_bytes ms

module _ (w : Controls) (now room : ℕ) where
  -- what becomes of a message: a line is relayed, a control's value is dispatched
  unfoldable pub deliver : Message → Uplink → Uplink
  deliver (text s) x = relay_line w now room s x
  deliver (control id v) x = record x {
    frame_buf = id % 256 ∷ id / 256 ∷ v % 256 ∷ v / 256 ∷ [];
    out = x.out ++ dispatch w id v;
  }

  unfoldable pub deliver_all : List Message → Uplink → Uplink
  deliver_all [] x = x
  deliver_all (m ∷ ms) x = deliver_all ms (deliver m x)

  process_bytes-dispatch :
      (id v : ℕ) (x : Uplink)
      → id < 65536
      → v < 65536
      → process_bytes w now room (hid_frame id v) (receiving [] x)
        ≡ receiving [] (deliver (control id v) x)
  unfolding process_bytes process_byte process_in end_hid_frame deliver
  process_bytes-dispatch id v x h k =
      let whole : (n : ℕ) → n < 65536 → n % 256 % 256 + 256 * (n / 256 % 256) ≡ n =
        λ n l. omega arith in
      let ends : ℕ → ℕ → Uplink = λ i n. receiving [] (record x {
        frame_buf = id % 256 ∷ id / 256 ∷ v % 256 ∷ v / 256 ∷ [];
        out = x.out ++ dispatch w i n;
      }) in
      ap (λ i. ends i (v % 256 % 256 + 256 * (v / 256 % 256))) (whole id h)
      ∙ ap (ends id) (whole v k)

  process_bytes-deliver :
      (m : Message) (x : Uplink)
      → IsMessage m
      → process_bytes w now room (message_bytes m) (receiving [] x) ≡ receiving [] (deliver m x)
  unfolding IsMessage deliver
  process_bytes-deliver (text s) x h = process_bytes-relay_line w now room s x h.0 h.1
  process_bytes-deliver (control id v) x h = process_bytes-dispatch id v x h.0 h.1

  -- Whatever lines and frames of HID controls the bridge sends, in any order, the Gateway, between lines,
  -- with the uploader not owning the UART and with the same time and room on CDC for all of them, gives
  -- each whole line to the uploader and, unless that keeps it, to the host if there is room, and dispatches
  -- each control's value, in the order they were sent. A line is at most 127 printable bytes and its end, a
  -- control's number and value are below 65536.
  pub process_bytes-deliver_all :
      (ms : List Message) (x : Uplink)
      → AllMessages ms
      → process_bytes w now room (messages_bytes ms) (receiving [] x)
        ≡ receiving [] (deliver_all ms x)
  unfolding AllMessages messages_bytes deliver_all process_bytes
  process_bytes-deliver_all [] x h = refl
  process_bytes-deliver_all (m ∷ ms) x h =
      process_bytes-append w now room (message_bytes m) (messages_bytes ms) (receiving [] x)
      ∙ ap (process_bytes w now room (messages_bytes ms)) (process_bytes-deliver m x h.0)
      ∙ process_bytes-deliver_all ms (deliver m x) h.1
