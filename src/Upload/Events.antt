-- ===== src/Upload/Events.antt =====
-- What calls the uploader: SimGateway hands it the client's frames, the bridge's lines or bytes, and
-- the passes of its loop.
use open_skyhawk.Base.{ℕ, List, [], ◌∷◌, Option}
use open_skyhawk.Upload.Session.{Uploader}
use open_skyhawk.Upload.Tick.{tick}
use open_skyhawk.Upload.Client.{Bundle, on_frame, on_client_frame}
use open_skyhawk.Upload.Lines.{on_bridge_line, on_uart_byte}

pub data Event : Type 0 where
  frame : ℕ → ℕ → List ℕ → Event
  client_frame : Event
  bridge_line : List ℕ → Event
  uart_byte : ℕ → Event
  pass : Event

-- an event at the time `now`
unfoldable pub step : Option Bundle → Event → ℕ → Uploader → Uploader
step bundle (frame kind seq p) now u = on_frame bundle kind seq p now u
step bundle client_frame now u = on_client_frame now u
step bundle (bridge_line line) now u = (on_bridge_line line now u).1
step bundle (uart_byte c) now u = on_uart_byte c now u
step bundle pass now u = tick now u

unfoldable pub run : Option Bundle → List (Event × ℕ) → Uploader → Uploader
run bundle [] u = u
run bundle ((e, now) ∷ es) u = run bundle es (step bundle e now u)
