-- ===== src/Bridge/Loop.antt =====
-- What runs the bridge (PanelBridge.cpp): frames from CAN, words of the export stream, and the passes of
-- its loop.
use open_skyhawk.Base.{ℕ, Bool, List, [], ◌∷◌, ◌++◌}
use open_skyhawk.Bridge.State.{Bridge}
use open_skyhawk.Bridge.Rows.{Row}
use open_skyhawk.Bridge.Nodes.{check_node_timeouts}
use open_skyhawk.Bridge.Sync.{service_sync, service_roster}
use open_skyhawk.Bridge.Dispatch.{DcsBiosInputEntry}
use open_skyhawk.Bridge.Receive.{on_can_rx}
use open_skyhawk.Bridge.Export.{on_dcs_bios_write}
use open_skyhawk.Can.Node.{Build, Node}
use open_skyhawk.Can.Service.{Call, service_node_status}
use open_skyhawk.Can.Latch.{latch_from}

pub data Event : Type 0 where
  can_rx : ℕ → List ℕ → Event
  export_write : ℕ → ℕ → Event
  loop_pass : List Bool → Row → Call → Node → Event

-- serviceNodeStatus(NodeKind::BRIDGE), whose calls of setWarning() write the latch that the bridge writes too
unfoldable pub service_status : Build → Call → Bridge × Node → Bridge × Node
service_status w c (b, n) =
    let m = service_node_status w c (record n { out = [] }) in
    (record b { warning = latch_from m.out b.warning }, record m { out = n.out ++ m.out })

-- the part of `loop` after `drain`, with what the tests of the UART's room give and what the service reads
unfoldable pub loop_once : Build → List Bool → Row → Call → ℕ → Bridge × Node → Bridge × Node
loop_once w rooms self c now (b, n) =
    service_status w c (service_roster rooms self (service_sync now (check_node_timeouts now b)), n)

-- A pass of the loop comes with the state that `drain` has left CANProtocol in.
module _ (w : Build) (map : List DcsBiosInputEntry) (mod_time : ℕ) where
  unfoldable pub bridge_step : Event → ℕ → Bridge → Bridge
  bridge_step (can_rx id d) now b = on_can_rx map id d now b
  bridge_step (export_write a v) now b = on_dcs_bios_write mod_time a v now b
  bridge_step (loop_pass rooms self c n) now b = (loop_once w rooms self c now (b, n)).0

  unfoldable pub bridge_run : List (Event × ℕ) → Bridge → Bridge
  bridge_run [] b = b
  bridge_run ((e, now) ∷ es) b = bridge_run es (bridge_step e now b)
