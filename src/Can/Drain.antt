-- ===== src/Can/Drain.antt =====
-- The loop of `_drainTxQueue` (CANProtocol.cpp) ends.
use open_skyhawk.Base.{
  ℕ, ◌%◌, ◌==◌, ◌||◌, zero, suc, ◌+◌, ◌≤◌, ◌<◌, ◌≡◌, ◌⊎◌, inl, inr, refl, true, List, [], ◌∷◌, none,
  some, arith, if◌then◌else◌, Option-cases, Bool-cases,
}
use open_skyhawk.Can.Transmit.{
  Mailbox, Tx, requeue_front, settle_mailbox, free_mailbox, pending, load, turn, settle_all,
  drain_loop, drain_tx_queue, enqueue, send, TxStep, queue, settle, loop_turn, tx_step, tx_run,
}

-- the work left in a mailbox: to be loaded, and to be settled before that
abbrev left_in : Mailbox → ℕ
left_in s = (if s.tme then 1 else 0) + (if s.rqcp then 1 else 0)

abbrev work : Tx → ℕ
work x = left_in (x.tsr 0) + left_in (x.tsr 1) + left_in (x.tsr 2)

module _ (size : ℕ) where
  settle_works :
      (i : ℕ) (x : Tx)
      → free_mailbox x.tsr ≡ some i
      → (x.tsr i).rqcp ≡ true
      → work (settle_mailbox size i (x.tsr i) x) < work x
  unfolding free_mailbox settle_mailbox requeue_front
  settle_works i x f r = ground (arith, f, r)

  load_works : (i : ℕ) (x : Tx) → free_mailbox x.tsr ≡ some i → work (load size i x) < work x
  unfolding free_mailbox load
  load_works i x f = ground (arith, f)

  -- A turn settles or loads the first empty mailbox, or ends the loop.
  turn_is :
      (x : Tx)
      → (turn size x ≡ none)
        ⊎ ((i : ℕ) × (free_mailbox x.tsr ≡ some i)
            × ((((x.tsr i).rqcp ≡ true) × (turn size x ≡ some (settle_mailbox size i (x.tsr i) x)))
                ⊎ (turn size x ≡ some (load size i x))))
  unfolding turn
  turn_is x = elim (Bool-cases (x.head == x.tail || pending (x.ring x.head).can_id x)) [
    | inl stop ↦ inl (rw (stop, turn) refl)
    | inr go ↦ elim (Option-cases (free_mailbox x.tsr)) [
      | inl busy ↦ inl (rw (go, turn) (rw (busy, turn) refl))
      | inr (i, e) ↦ elim (Bool-cases (x.tsr i).rqcp) [
        | inl over ↦ inr (i, e, inl (over, rw (go, e, over, turn) refl))
        | inr new ↦ inr (i, e, inr (rw (go, e, new, turn) refl))
      ]
    ]
  ]

  -- Every turn does some of the work.
  turn_works : (x y : Tx) → turn size x ≡ some y → work y < work x
  turn_works x y e = elim (turn_is x) [
    | inl q ↦ absurd (ground (arith, q, e))
    | inr (i, f, inl (over, q)) ↦
        let same : y ≡ settle_mailbox size i (x.tsr i) x = ground (arith, q, e) in
        rw same (settle_works i x f over)
    | inr (i, f, inr q) ↦
        let same : y ≡ load size i x = ground (arith, q, e) in rw same (load_works i x f)
  ]

  drain_loop_ends : (k : ℕ) (x : Tx) → work x ≤ k → turn size (drain_loop size k x) ≡ none
  unfolding drain_loop
  drain_loop_ends zero x l = elim (Option-cases (turn size x)) [
    | inl e ↦ e
    | inr (y, e) ↦ absurd (omega (arith, turn_works x y e))
  ]
  drain_loop_ends (suc k) x l = elim (Option-cases (turn size x)) [
    | inl e ↦ rw (e, drain_loop) e
    | inr (y, e) ↦ rw (e, drain_loop) (drain_loop_ends k y (omega (arith, turn_works x y e)))
  ]

  -- Six turns are enough: after them the loop's own test ends it.
  pub drain_tx_queue_ends : (x : Tx) → turn size (drain_tx_queue size x) ≡ none
  unfolding drain_tx_queue
  drain_tx_queue_ends x = drain_loop_ends 6 (settle_all size x) (ground arith)

  drain_loop-tx_run :
      (k : ℕ) (x : Tx) → (ss : List TxStep) × (drain_loop size k x ≡ tx_run size ss x)
  unfolding drain_loop tx_run tx_step
  drain_loop-tx_run zero x = ([], refl)
  drain_loop-tx_run (suc k) x = elim (Option-cases (turn size x)) [
    | inl e ↦ ([], rw (e, drain_loop) refl)
    | inr (y, e) ↦
        let (ss, q) = drain_loop-tx_run k y in
        (loop_turn ∷ ss, rw (e, drain_loop) (rw (e, tx_step) q))
  ]

  -- A call of send() is steps of the transmit side, so it keeps what they keep.
  send-tx_run :
      (id : ℕ) (d : List ℕ) (x : Tx) → (ss : List TxStep) × (send size id d x ≡ tx_run size ss x)
  unfolding send drain_tx_queue tx_run tx_step
  send-tx_run id d x =
      let y = enqueue size id d x in
      elim (Bool-cases ((x.tail + 1) % size == x.head)) [
        | inl full ↦ (queue id d ∷ [], rw (full, send) refl)
        | inr room ↦
            let (ss, q) = drain_loop-tx_run 6 (settle_all size y) in
            (queue id d ∷ settle ∷ ss, rw (room, send) q)
      ]
