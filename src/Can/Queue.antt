-- ===== src/Can/Queue.antt =====
-- The loop of drain() (CANProtocol.cpp) takes frames in the order of their arrival.
use open_skyhawk.Base.{
  ℕ, ◌+◌, ◌%◌, ◌^◌, ◌≡◌, inl, inr, refl, subst, Bool, true, false, List, [], ◌∷◌, length, ◌==◌,
  if◌then◌else◌, arith,
}
use open_skyhawk.Can.Node.{RxQueueEntry, Build, Node}
use open_skyhawk.Can.Ring.{enqueue_rx_frame, enqueue_all, poll_rx_fifo0, dequeue}
use open_skyhawk.Can.Receive.{arrive, Arrival, on_sync_req, on_own_hb, on_frame, rx_turn, rx_loop}
use open_skyhawk.Can.Fifo.{
  Shows, add_bounded, enqueue_rx_frame-Shows, step, full-length, span-IsRing,
}

-- the node without its ring
abbrev pub plain : Node → Node
plain n = record n { rx_ring = λ i. record { can_id = 0; bytes = [] }; rx_head = 0; rx_tail = 0 }

-- A frame arrives at a queue, or is counted as dropped.
abbrev pub queue_frame : ℕ → RxQueueEntry → List RxQueueEntry → Node → Node
queue_frame s e q n =
    if length q + 1 == s then record n { rx_drops = (n.rx_drops + 1) % 2 ^ 32 } else n

unfoldable pub queue_all :
    ℕ → List RxQueueEntry → List RxQueueEntry → Node → List RxQueueEntry × Node
queue_all s [] q n = (q, n)
queue_all s (e ∷ es) q n = queue_all s es (add_bounded s e q) (queue_frame s e q n)

abbrev pub count_overrun : Bool → Node → Node
count_overrun overrun n =
    if overrun then record n { rx_overruns = (n.rx_overruns + 1) % 2 ^ 32 } else n

module _ (w : Build) where
  -- A turn of the loop, over a queue; then `rest` is what the later turns do.
  abbrev pub queue_turn :
      ℕ
      → (List RxQueueEntry → Node → List RxQueueEntry × Node)
      → List RxQueueEntry
      → Node
      → List RxQueueEntry × Node
  queue_turn now rest [] m = ([], m)
  queue_turn now rest (f ∷ q) m = rest q (on_frame w now f m)

  -- The loop, over a queue.
  unfoldable pub queue_loop :
      List (Arrival × ℕ) → List RxQueueEntry → Node → List RxQueueEntry × Node
  queue_loop [] q n = (q, n)
  queue_loop ((a, now) ∷ ts) q n =
      let (p, m) = queue_all w.rx_ring_size a.fifo q (count_overrun a.overrun n) in
      queue_turn now (queue_loop ts) p m

module _ (w : Build) (now : ℕ) where
  on_frame-plain :
      (f : RxQueueEntry) (n : Node) → plain (on_frame w now f n) ≡ on_frame w now f (plain n)
  unfolding on_frame on_sync_req on_own_hb
  on_frame-plain f n = ground arith

count_overrun-plain : (o : Bool) (n : Node) → plain (count_overrun o n) ≡ count_overrun o (plain n)
count_overrun-plain true n = refl
count_overrun-plain false n = refl

module _ (s : ℕ) where
  enqueue_rx_frame-plain :
      (e : RxQueueEntry) (q : List RxQueueEntry) (n : Node)
      → Shows s n q
      → plain (enqueue_rx_frame s e n) ≡ queue_frame s e q (plain n)
  unfolding enqueue_rx_frame
  enqueue_rx_frame-plain e q n h = rw (full-length s n q h) (ground arith)

  enqueue_all-queue :
      (es q : List RxQueueEntry) (n : Node)
      → Shows s n q
      → (let v = queue_all s es q (plain n) in
          (Shows s (enqueue_all s es n) v.0) × (plain (enqueue_all s es n) ≡ v.1))
  unfolding enqueue_all queue_all
  enqueue_all-queue [] q n h = (h, refl)
  enqueue_all-queue (e ∷ es) q n h =
      let i =
        enqueue_all-queue es (add_bounded s e q) (enqueue_rx_frame s e n)
          (enqueue_rx_frame-Shows s e n q h) in
      subst
        (λ m.
          (Shows s (enqueue_all s es (enqueue_rx_frame s e n))
            (queue_all s es (add_bounded s e q) m).0)
          × (plain (enqueue_all s es (enqueue_rx_frame s e n))
              ≡ (queue_all s es (add_bounded s e q) m).1))
        (enqueue_rx_frame-plain e q n h) i

count_overrun-Shows :
    (s : ℕ) (o : Bool) (n : Node) (q : List RxQueueEntry)
    → Shows s n q
    → Shows s (count_overrun o n) q
count_overrun-Shows s true n q h = record {
  ring = h.ring;
  room = h.room;
  head = h.head;
  tail = h.tail;
}
count_overrun-Shows s false n q h = h

dequeue-Shows :
    (s : ℕ) (f : RxQueueEntry) (q : List RxQueueEntry) (n : Node)
    → Shows s n (f ∷ q)
    → Shows s (record n { rx_head = (n.rx_head + 1) % s }) q
dequeue-Shows s f q n h =
    let hd = h.head in
    record {
      ring = h.ring.1;
      room = omega (arith, h.room);
      head = elim (step n.rx_head s hd) [ inl (a, b) ↦ omega arith | inr (a, b) ↦ omega arith ];
      tail = h.tail;
    }

module _ (w : Build) where
  -- A frame's handling leaves the ring alone.
  on_frame-Shows :
      (s now : ℕ) (f : RxQueueEntry) (n : Node) (q : List RxQueueEntry)
      → Shows s n q
      → Shows s (on_frame w now f n) q
  unfolding on_frame on_sync_req on_own_hb
  on_frame-Shows s now f n q h =
      let ring : (on_frame w now f n).rx_ring ≡ n.rx_ring = ground arith in
      let head : (on_frame w now f n).rx_head ≡ n.rx_head = ground arith in
      let tail : (on_frame w now f n).rx_tail ≡ n.rx_tail = ground arith in
      record {
        ring = rw (ring, head, tail) (h.ring);
        room = h.room;
        head = rw head (h.head);
        tail = rw tail (h.tail);
      }

  arrive-queue :
      (a : Arrival) (q : List RxQueueEntry) (n : Node)
      → Shows w.rx_ring_size n q
      → (let v = queue_all w.rx_ring_size a.fifo q (count_overrun a.overrun (plain n)) in
          (Shows w.rx_ring_size (arrive w a n) v.0) × (plain (arrive w a n) ≡ v.1))
  unfolding poll_rx_fifo0
  arrive-queue a q n h =
      let s = w.rx_ring_size in
      let c = count_overrun a.overrun n in
      subst
        (λ m.
          (Shows s (enqueue_all s a.fifo c) (queue_all s a.fifo q m).0)
          × (plain (enqueue_all s a.fifo c) ≡ (queue_all s a.fifo q m).1))
        (count_overrun-plain a.overrun n)
        (enqueue_all-queue s a.fifo q c (count_overrun-Shows s a.overrun n q h))

  -- the node refines the queue and the node without its ring
  abbrev pub Refines : Node → List RxQueueEntry × Node → Type 0
  Refines n v = (Shows w.rx_ring_size n v.0) × (plain n ≡ v.1)

  turn-Refines :
      (now : ℕ) (ts : List (Arrival × ℕ))
      → ((q : List RxQueueEntry) (n : Node)
          → Shows w.rx_ring_size n q
          → Refines (rx_loop w ts n) (queue_loop w ts q (plain n)))
      → (q : List RxQueueEntry) (n : Node) → Shows w.rx_ring_size n q
      → Refines
          (if n.rx_head == n.rx_tail then n else rx_loop w ts (rx_turn w now n))
          (queue_turn w now (queue_loop w ts) q (plain n))
  unfolding rx_turn dequeue
  turn-Refines now ts more [] n h =
      let idle : (n.rx_head == n.rx_tail) ≡ true = ground (arith, h.ring) in rw idle (h, refl)
  turn-Refines now ts more (f ∷ q) n h =
      let s = w.rx_ring_size in
      let d =
        span-IsRing n.rx_ring s n.rx_tail n.rx_head (f ∷ q) (h.head) (h.tail) (h.room) (h.ring) in
      let busy : (n.rx_head == n.rx_tail) ≡ false = ground (arith, d) in
      let m = record n { rx_head = (n.rx_head + 1) % s } in
      let left = dequeue-Shows s f q n h in
      let r = more q (on_frame w now f m) (on_frame-Shows s now f m q left) in
      rw busy (
        rw (h.ring.0) (
          subst (λ v. Refines (rx_loop w ts (on_frame w now f m)) (queue_loop w ts q v))
            (on_frame-plain w now f m) r))

  -- From a ring that holds a queue, and whatever the interrupt adds before each turn, the loop of
  -- drain() handles the frames in the order of their arrival as a loop over the queue does, with a
  -- place fewer than the ring has, and leaves the ring with what the queue is left with. A frame that
  -- meets a full queue is not added, and is counted.
  pub rx_loop-queue_loop :
      (ts : List (Arrival × ℕ)) (q : List RxQueueEntry) (n : Node)
      → Shows w.rx_ring_size n q
      → Refines (rx_loop w ts n) (queue_loop w ts q (plain n))
  unfolding rx_loop queue_loop
  rx_loop-queue_loop [] q n h = (h, refl)
  rx_loop-queue_loop ((a, now) ∷ ts) q n h =
      let s = w.rx_ring_size in
      let v = arrive-queue a q n h in
      let p = (queue_all s a.fifo q (count_overrun a.overrun (plain n))).0 in
      subst (λ m. Refines (rx_loop w ((a, now) ∷ ts) n) (queue_turn w now (queue_loop w ts) p m))
        (v.1) (turn-Refines now ts (rx_loop-queue_loop ts) p (arrive w a n) (v.0))
