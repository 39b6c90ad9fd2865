-- ===== src/Can/Run.antt =====
-- What a node's sketch calls of CANProtocol.cpp, in any order.
use open_skyhawk.Base.{Bool, List, [], ◌∷◌}
use open_skyhawk.Can.Node.{Build, Node}
use open_skyhawk.Can.Receive.{Arrival, arrive, Reads, drain, send_ready, start_internal}
use open_skyhawk.Can.Service.{Call, service_node_status}

-- the calls, and the interrupt of the FIFO
pub data NodeEvent : Type 0 where
  start : Bool → NodeEvent
  ready : NodeEvent
  interrupt : Arrival → NodeEvent
  drained : Reads → NodeEvent
  serviced : Call → NodeEvent

module _ (w : Build) where
  unfoldable pub node_step : NodeEvent → Node → Node
  node_step (start in_loopback) n = start_internal w in_loopback n
  node_step ready n = send_ready w n
  node_step (interrupt a) n = arrive w a n
  node_step (drained r) n = drain w r n
  node_step (serviced c) n = service_node_status w c n

  unfoldable pub node_run : List NodeEvent → Node → Node
  node_run [] n = n
  node_run (e ∷ es) n = node_run es (node_step e n)
