-- ===== src/Upload/Outcome.antt =====
-- A flash over all events: its bounds hold throughout, and it ends with OK only on the board's word.
use open_skyhawk.Base.{ℕ, ◌%◌, ◌≡◌, ◌⊎◌, Bool, true, false, ◌&&◌, leb, if◌then◌else◌}
use open_skyhawk.Upload.Kind
use open_skyhawk.Upload.Protocol.{UplPhase, confirming}
use open_skyhawk.Upload.Image.{id_node, id_fw}
use open_skyhawk.Upload.Session.{Uploader, elapsed, send_status, is_ok}
use open_skyhawk.Upload.Tick.{is_writing, confirms, same_fw}
use open_skyhawk.Upload.Events.{Event, pass}
use open_skyhawk.Upload.Flash.{Flash, InFlash}

-- what a row of the image's node must say for an OK
abbrev pub row_confirms : Uploader → Bool
row_confirms u = let s = u.seen (id_node u.img % 64) in confirms u s && same_fw s.fw (id_fw u.img)

abbrev is_confirming : UplPhase → Bool
is_confirming confirming = true
is_confirming _ = false

-- From `u` to `v` a flash goes on, or ends, with an OK only if it was confirmed.
record Ends (u v : Uploader) : Type 0 where
  result :
      (v.state ≡ u.state)
      ⊎ (is_ok v.last_result ≡ false)
      ⊎ ((u.phase ≡ confirming) × (row_confirms u ≡ true))
  flash : InFlash v

-- The report of progress changes nothing else.
told : ℕ → Uploader → Uploader
told now u =
    if leb 250 (elapsed now u.last_status_ms) && is_writing u.phase then send_status now u else u

record Told (u v : Uploader) : Type 0 where
  state : v.state ≡ u.state
  phase : v.phase ≡ u.phase
  flash : Flash v
  row : row_confirms v ≡ row_confirms u

abbrev pub is_pass : Event → Bool
is_pass pass = true
is_pass _ = false
