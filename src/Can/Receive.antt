-- ===== src/Can/Receive.antt =====
-- drain() and start() (CANProtocol.cpp): what received frames do, the answer to a SYNC_REQ, and the status
-- of the bus.
use open_skyhawk.Base.{
  ℕ, ◌-◌, ◌/◌, ◌%◌, ◌^◌, Bool, true, false, ◌&&◌, ◌||◌, not, List, [], ◌∷◌, length, ◌==◌, ltb, leb,
  if◌then◌else◌,
}
use open_skyhawk.Boot.Cmd
use open_skyhawk.Boot.Session.{at}
use open_skyhawk.Can.Batch.{BatchState, batch_deadlines, no_packet}
use open_skyhawk.Can.Node.{
  can_id_ctrl_bcast, can_id_test_seq, can_id_sync_req, can_id_hb, can_id_evt, can_id_evt_rel,
  can_id_evt_dir, can_id_evt_action, can_id_echo, can_id_ready, can_id_boot_cmd, gateway_node_id,
  CanStatus, RxQueueEntry, Build, Node, elapsed, put_out, send_frames, starting, normal, tx_error,
  bus_off, sends, sync_req, received, enter_bootloader, status_change,
}
use open_skyhawk.Can.Ring.{poll_rx_fifo0, dequeue}
use open_skyhawk.Can.Payloads.{make_ready_payload, resync_flag}

abbrev pub is_same : CanStatus → CanStatus → Bool
is_same starting starting = true
is_same normal normal = true
is_same tx_error tx_error = true
is_same bus_off bus_off = true
is_same s t = false

-- `_updateStatus`, of the controller's ESR
unfoldable pub update_status : ℕ → Node → Node
update_status esr n =
    let s =
      if esr / 2 ^ 2 % 2 == 1
      then bus_off
      else if not (esr / 2 ^ 16 % 256 == 0)
      then tx_error
      else normal in
    if is_same s n.status then n else put_out (status_change s) (record n { status = s })

-- What a read of the controller's FIFO finds, by the main loop or by an interrupt.
pub record Arrival : Type 0 where
  pub overrun : Bool
  pub fifo : List RxQueueEntry

-- What drain() reads: its FIFO, whether the transmit side is idle, the time of that, for each turn of the
-- loop the interrupt before it and the time, the time at the deadlines, and ESR.
pub record Reads : Type 0 where
  pub first : Arrival
  pub tx_idle : Bool
  pub now : ℕ
  pub turns : List (Arrival × ℕ)
  pub late : ℕ
  pub esr : ℕ

module _ (w : Build) where
  -- the end of the answer to a SYNC_REQ
  unfoldable pub service_resync : Bool → ℕ → Node → Node
  service_resync tx_idle now n =
      if n.resync_pending && (tx_idle || leb 50 (elapsed now n.resync_since_ms))
      then put_out (sends (can_id_ready w.node_id) (make_ready_payload w resync_flag))
          (record n { resync_pending = false })
      else n

  -- SYNC_REQ
  unfoldable pub on_sync_req : ℕ → List ℕ → Node → Node
  on_sync_req now d n =
      let m = put_out sync_req n in
      if leb 1 (length d) && not (at d 0 == w.node_id)
      then n
      else if n.ready_sent
      then record m { resync_pending = true; resync_since_ms = now }
      else m

  -- HB_n of the node's own number
  unfoldable pub on_own_hb : ℕ → Node → Node
  on_own_hb now n =
      if n.loopback && ltb 0 n.own_hb_loop_pending
      then record n { own_hb_loop_pending = n.own_hb_loop_pending - 1 }
      else record n { last_dup_ms = now; dup_seen = true }

  -- HB_0, on a node
  abbrev pub on_master_hb : ℕ → Node → Node
  on_master_hb now n = record n {
    last_master_ms = now;
    ever_saw_master = true;
    master_hb_pending = true;
  }

  -- a frame from the ring
  unfoldable pub on_frame : ℕ → RxQueueEntry → Node → Node
  on_frame now f n =
      let on_node = not (w.node_id == gateway_node_id) in
      let d = f.bytes in
      if f.can_id == can_id_sync_req
      then on_sync_req now d n
      else if f.can_id == can_id_test_seq
      then put_out (sends (can_id_echo w.node_id) d) n
      else if on_node && f.can_id == can_id_boot_cmd w.node_id
      then if ltb 0 (length d) && at d 0 == Cmd.connect then put_out enter_bootloader n else n
      else if f.can_id == can_id_hb w.node_id
      then put_out (received f.can_id d) (on_own_hb now n)
      else if on_node && f.can_id == can_id_hb gateway_node_id
      then put_out (received f.can_id d) (on_master_hb now n)
      else put_out (received f.can_id d) n

  abbrev pub arrive : Arrival → Node → Node
  arrive a n = poll_rx_fifo0 w.rx_ring_size a.overrun a.fifo n

  unfoldable pub rx_turn : ℕ → Node → Node
  rx_turn now n = let (f, m) = dequeue w.rx_ring_size n in on_frame now f m

  -- The loop over the ring: before each test an interrupt may add to the ring.
  unfoldable pub rx_loop : List (Arrival × ℕ) → Node → Node
  rx_loop [] n = n
  rx_loop ((a, now) ∷ ts) n =
      let m = arrive a n in
      let rest = rx_loop ts (rx_turn now m) in if m.rx_head == m.rx_tail then m else rest

  -- the deadlines of the batches
  unfoldable pub service_batches : ℕ → Node → Node
  service_batches now n =
      let (fs, bs) = batch_deadlines w.batch_hold_ms now n.batches in
      send_frames fs (record n { batches = bs })

  -- `drain`
  unfoldable pub drain : Reads → Node → Node
  drain r n =
      let m = service_resync r.tx_idle r.now (arrive r.first n) in
      update_status r.esr (service_batches r.late (rx_loop r.turns m))

  -- `sendReady`
  unfoldable pub send_ready : Node → Node
  send_ready n = record (put_out (sends (can_id_ready w.node_id) (make_ready_payload w 0)) n) {
    ready_sent = true;
  }

  abbrev pub empty_slot : ℕ → BatchState
  empty_slot id = record {
    can_id = id;
    has_a = false;
    a = no_packet;
    loops_waited = 0;
    since_ms = 0;
  }

  -- what `_startInternal` sets, in the loopback mode or not
  unfoldable pub start_internal : Bool → Node → Node
  start_internal in_loopback n = put_out (status_change normal) (record n {
    batches =
        empty_slot can_id_ctrl_bcast
        ∷ empty_slot (can_id_evt w.node_id)
        ∷ empty_slot (can_id_evt_rel w.node_id)
        ∷ empty_slot (can_id_evt_dir w.node_id)
        ∷ empty_slot (can_id_evt_action w.node_id)
        ∷ [];
    status_armed = false;
    loopback = in_loopback;
    own_hb_loop_pending = 0;
    dup_seen = false;
    status = normal;
  })
