-- ===== src/Bridge/Heard.antt =====
-- The UART from the bridge to the uploader: each message of the bridge is a line that the uploader reads
-- (PanelBridge.cpp, Uploader.cpp).
use open_skyhawk.Base.{ℕ, ◌≡◌, refl, List, [], ◌∷◌, ◌++◌}
use open_skyhawk.Upload.Session.{Uploader}
use open_skyhawk.Upload.Lines.{on_bridge_line}
use open_skyhawk.Bridge.State.{
  Out, message, serial, can_frame, broadcast, sync_req, node_alive, node_dead, link_active,
  enter_bootloader,
}

-- a message of the bridge as a line
abbrev pub line : List ℕ → List ℕ → List ℕ
line name arg = name ++ b' ' ∷ arg

-- what an output of the bridge does to the uploader
abbrev pub hear : Out → ℕ → Uploader → Uploader
hear (message name arg) now u = (on_bridge_line (line name arg) now u).1
hear (serial x) now u = u
hear (can_frame x) now u = u
hear (broadcast x y) now u = u
hear (sync_req x) now u = u
hear (node_alive x) now u = u
hear (node_dead x) now u = u
hear link_active now u = u
hear enter_bootloader now u = u

-- the outputs in their order, all in one millisecond
unfoldable pub heard : List Out → ℕ → Uploader → Uploader
heard [] now u = u
heard (o ∷ os) now u = heard os now (hear o now u)

pub heard-emit :
    (os : List Out) (o : Out) (now : ℕ) (u : Uploader)
    → heard (os ++ o ∷ []) now u ≡ hear o now (heard os now u)
unfolding heard
heard-emit [] o now u = refl
heard-emit (p ∷ os) o now u = heard-emit os o now (hear p now u)
