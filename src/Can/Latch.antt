-- ===== src/Can/Latch.antt =====
-- The service of a node (CANProtocol.cpp) knows the WARNING latch: nothing else on the node writes it.
use open_skyhawk.Base.{
  ℕ, ◌≡◌, ◌≢◌, refl, ◌∙◌, Bool, false, ◌||◌, List, [], ◌∷◌, ◌++◌, ◌==◌, arith, if_intro,
}
use open_skyhawk.Can.Batch.{Frame}
use open_skyhawk.Can.Ring.{enqueue_rx_frame, enqueue_all, poll_rx_fifo0, dequeue}
use open_skyhawk.Can.Node.{
  Build, Node, CanStatus, Out, sends, sync_req, received, enter_bootloader, status_change,
  set_warning, log_fault_edge, put_out, send_frames, pair_bytes, RxQueueEntry, can_id_echo,
  can_id_ready, can_id_hb, can_id_health, gateway_node_id, normal, tx_error, bus_off,
}
use open_skyhawk.Can.Payloads.{
  make_ready_payload, resync_flag, make_heartbeat_payload, make_node_health_payload, health_bytes,
}
use open_skyhawk.Can.Receive.{
  Arrival, arrive, Reads, update_status, service_resync, on_sync_req, on_own_hb, on_frame, rx_turn,
  rx_loop, service_batches, drain, send_ready, start_internal,
}
use open_skyhawk.Can.Service.{
  Call, arm, service_hb, service_dup, node_fault, note_heat, service_health, watch_master,
  write_warning, service_node_status,
}
use open_skyhawk.Can.Run.{
  NodeEvent, start, ready, interrupt, drained, serviced, node_step, node_run,
}

-- the latch after an output
abbrev pub warned : Out → Bool → Bool
warned (set_warning v) b = v
warned o b = b

-- the latch after all that went out; it starts off
unfoldable pub latch_from : List Out → Bool → Bool
latch_from [] b = b
latch_from (o ∷ os) b = latch_from os (warned o b)

abbrev pub latch : List Out → Bool
latch os = latch_from os false

pub latch_from-snoc :
    (os : List Out) (o : Out) (b : Bool) → latch_from (os ++ o ∷ []) b ≡ warned o (latch_from os b)
unfolding latch_from
latch_from-snoc [] o b = refl
latch_from-snoc (p ∷ os) o b = latch_from-snoc os o (warned p b)

-- The service knows the latch.
pub record Knows (n : Node) : Type 0 where
  pub written : latch n.out ≡ n.warn_asserted

-- An output that is no call of setWarning leaves the latch alone.
Knows-put_out : (o : Out) (n : Node) → ((b : Bool) → warned o b ≡ b) → Knows n → Knows (put_out o n)
Knows-put_out o n h k = record {
  written = latch_from-snoc n.out o false ∙ h (latch n.out) ∙ k.written;
}

send_frames-Knows : (fs : List Frame) (n : Node) → Knows n → Knows (send_frames fs n)
unfolding send_frames
send_frames-Knows [] n k = k
send_frames-Knows (f ∷ fs) n k =
    send_frames-Knows fs _ (Knows-put_out (sends f.can_id (pair_bytes f)) n (λ b. refl) k)

update_status-Knows : (esr : ℕ) (n : Node) → Knows n → Knows (update_status esr n)
unfolding update_status
update_status-Knows esr n k = record {
  written =
      let s : (o : CanStatus) → latch_from (n.out ++ status_change o ∷ []) false ≡ latch n.out =
        λ o. latch_from-snoc n.out (status_change o) false in
      ground (arith, k.written, s bus_off, s tx_error, s normal);
}

enqueue_rx_frame-Knows :
    (s : ℕ) (e : RxQueueEntry) (n : Node) → Knows n → Knows (enqueue_rx_frame s e n)
unfolding enqueue_rx_frame
enqueue_rx_frame-Knows s e n k = record { written = ground (arith, k.written) }

enqueue_all-Knows :
    (s : ℕ) (es : List RxQueueEntry) (n : Node) → Knows n → Knows (enqueue_all s es n)
unfolding enqueue_all
enqueue_all-Knows s [] n k = k
enqueue_all-Knows s (e ∷ es) n k = enqueue_all-Knows s es _ (enqueue_rx_frame-Knows s e n k)

module _ (w : Build) where
  arrive-Knows : (a : Arrival) (n : Node) → Knows n → Knows (arrive w a n)
  unfolding poll_rx_fifo0
  arrive-Knows a n k =
      enqueue_all-Knows w.rx_ring_size a.fifo _
        (if_intro Knows a.overrun (record { written = k.written }) k)

  pub on_frame-Knows :
      (now : ℕ) (f : RxQueueEntry) (n : Node) → Knows n → Knows (on_frame w now f n)
  unfolding on_frame on_sync_req on_own_hb
  on_frame-Knows now f n k = record {
    written =
        let s : (o : Out) → latch_from (n.out ++ o ∷ []) false ≡ warned o (latch n.out) =
          λ o. latch_from-snoc n.out o false in
        ground (
          arith,
          k.written,
          s sync_req,
          s (sends (can_id_echo w.node_id) f.bytes),
          s enter_bootloader,
          s (received f.can_id f.bytes),
        );
  }

  rx_turn-Knows : (now : ℕ) (n : Node) → Knows n → Knows (rx_turn w now n)
  unfolding rx_turn dequeue
  rx_turn-Knows now n k = on_frame-Knows now _ _ (record { written = k.written })

  rx_loop-Knows : (ts : List (Arrival × ℕ)) (n : Node) → Knows n → Knows (rx_loop w ts n)
  unfolding rx_loop
  rx_loop-Knows [] n k = k
  rx_loop-Knows ((a, now) ∷ ts) n k =
      let m = arrive-Knows a n k in if_intro Knows _ m (rx_loop-Knows ts _ (rx_turn-Knows now _ m))

  service_resync-Knows :
      (i : Bool) (now : ℕ) (n : Node) → Knows n → Knows (service_resync w i now n)
  unfolding service_resync
  service_resync-Knows i now n k =
      let m = record n { resync_pending = false } in
      if_intro Knows _
        (Knows-put_out (sends (can_id_ready w.node_id) (make_ready_payload w resync_flag)) m
          (λ b. refl) (record { written = k.written }))
        k

  drain-Knows : (r : Reads) (n : Node) → Knows n → Knows (drain w r n)
  unfolding drain service_batches
  drain-Knows r n k =
      let a = service_resync-Knows r.tx_idle r.now _ (arrive-Knows r.first n k) in
      let b = rx_loop-Knows r.turns _ a in
      update_status-Knows r.esr _ (send_frames-Knows _ _ (record { written = b.written }))

  send_ready-Knows : (n : Node) → Knows n → Knows (send_ready w n)
  unfolding send_ready
  send_ready-Knows n k =
      let p =
        Knows-put_out (sends (can_id_ready w.node_id) (make_ready_payload w 0)) n (λ b. refl) k in
      record { written = p.written }

  start_internal-Knows : (l : Bool) (n : Node) → Knows n → Knows (start_internal w l n)
  unfolding start_internal
  start_internal-Knows l n k =
      Knows-put_out (status_change normal) _ (λ b. refl) (record { written = k.written })

  service_hb-Knows : (c : Call) (n : Node) → Knows n → Knows (service_hb w c n)
  unfolding service_hb
  service_hb-Knows c n k =
      let hb = make_heartbeat_payload w.node_id c.rx_count c.esr c.now in
      let p = Knows-put_out (sends (can_id_hb w.node_id) hb) n (λ b. refl) k in
      record { written = ground (arith, p.written, k.written) }

  note_heat-Knows :
      (t : ℕ) (n : Node) → w.node_id ≢ gateway_node_id → Knows n → Knows (note_heat w t n)
  unfolding note_heat
  note_heat-Knows t n u k =
      let node : (w.node_id == gateway_node_id) ≡ false = ground (arith, u) in
      record { written = ground (arith, k.written, node) }

  service_health-Knows :
      (c : Call) (n : Node) → w.node_id ≢ gateway_node_id → Knows n → Knows (service_health w c n)
  unfolding service_health
  service_health-Knows c n u k =
      let (fault, text) = node_fault w n.dup_seen c.sources in
      let h = make_node_health_payload w c.kind c.die_temp fault in
      let m = record n { last_health_ms = c.now; last_health = h } in
      let sent =
        Knows-put_out (sends (can_id_health w.node_id) (health_bytes w.node_id h)) m (λ b. refl)
          (record { written = k.written }) in
      if_intro Knows _
        (note_heat-Knows c.die_temp _ u
          (Knows-put_out (log_fault_edge fault text) _ (λ b. refl) sent))
        k

  write_warning-Knows : (n : Node) → Knows n → Knows (write_warning w n)
  unfolding write_warning
  write_warning-Knows n k = record {
    written =
        let s = latch_from-snoc n.out (set_warning (n.master_lost || n.overheat)) false in
        ground (arith, k.written, s);
  }

  -- the fields of the watchdog, which the service's other parts leave alone
  abbrev pub before_watch : Call → Node → Node
  before_watch c n = service_health w c (service_dup w c (service_hb w c (arm c.now n)))

  arm-Knows : (now : ℕ) (n : Node) → Knows n → Knows (arm now n)
  unfolding arm
  arm-Knows now n k = record { written = ground (arith, k.written) }

  service_dup-Knows : (c : Call) (n : Node) → Knows n → Knows (service_dup w c n)
  unfolding service_dup
  service_dup-Knows c n k = record { written = ground (arith, k.written) }

  before_watch-Knows :
      (c : Call) (n : Node) → w.node_id ≢ gateway_node_id → Knows n → Knows (before_watch c n)
  before_watch-Knows c n u k =
      service_health-Knows c _ u
        (service_dup-Knows c _ (service_hb-Knows c _ (arm-Knows c.now n k)))

  pub service-Knows :
      (c : Call) (n : Node)
      → w.node_id ≢ gateway_node_id
      → Knows n
      → Knows (service_node_status w c n)
  unfolding service_node_status watch_master
  service-Knows c n u k =
      let node : (w.node_id == gateway_node_id) ≡ false = ground (arith, u) in
      let b = before_watch-Knows c n u k in
      rw node (write_warning-Knows _ (record { written = ground (arith, b.written) }))

  step-Knows :
      (e : NodeEvent) (n : Node) → w.node_id ≢ gateway_node_id → Knows n → Knows (node_step w e n)
  unfolding node_step
  step-Knows (start l) n u k = start_internal-Knows l n k
  step-Knows ready n u k = send_ready-Knows n k
  step-Knows (interrupt a) n u k = arrive-Knows a n k
  step-Knows (drained r) n u k = drain-Knows r n k
  step-Knows (serviced c) n u k = service-Knows c n u k

  pub run-Knows :
      (es : List NodeEvent) (n : Node)
      → w.node_id ≢ gateway_node_id
      → Knows n
      → Knows (node_run w es n)
  unfolding node_run
  run-Knows [] n u k = k
  run-Knows (e ∷ es) n u k = run-Knows es _ u (step-Knows e n u k)
