-- ===== src/Can/Ring.antt =====
-- The ring of received frames (CANProtocol.cpp).
use open_skyhawk.Base.{ℕ, ◌+◌, ◌%◌, ◌^◌, Bool, List, [], ◌∷◌, ◌==◌, if◌then◌else◌}
use open_skyhawk.Can.Node.{RxQueueEntry, Node}
use open_skyhawk.Can.Transmit.{put}

module _ (rx_ring_size : ℕ) where
  -- `_enqueueRxFrame`
  unfoldable pub enqueue_rx_frame : RxQueueEntry → Node → Node
  enqueue_rx_frame e n =
      let next = (n.rx_tail + 1) % rx_ring_size in
      if next == n.rx_head
      then record n { rx_drops = (n.rx_drops + 1) % 2 ^ 32 }
      else record n { rx_ring = put n.rx_ring n.rx_tail e; rx_tail = next }

  unfoldable pub enqueue_all : List RxQueueEntry → Node → Node
  enqueue_all [] n = n
  enqueue_all (e ∷ es) n = enqueue_all es (enqueue_rx_frame e n)

  -- `_pollRxFifo0`: what the controller's FIFO holds, and whether it overran
  unfoldable pub poll_rx_fifo0 : Bool → List RxQueueEntry → Node → Node
  poll_rx_fifo0 overrun fifo n =
      enqueue_all fifo
        (if overrun then record n { rx_overruns = (n.rx_overruns + 1) % 2 ^ 32 } else n)

  -- the frame at the head leaves the ring
  unfoldable pub dequeue : Node → RxQueueEntry × Node
  dequeue n = (n.rx_ring n.rx_head, record n { rx_head = (n.rx_head + 1) % rx_ring_size })
