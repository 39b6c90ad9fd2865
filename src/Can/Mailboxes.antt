-- ===== src/Can/Mailboxes.antt =====
-- What the transmit side keeps, whatever the controller does (CANProtocol.cpp).
use open_skyhawk.Base.{
  ℕ, ◌≡◌, ◌⊎◌, inl, inr, refl, Bool, false, not, ◌&&◌, ◌||◌, List, [], ◌∷◌, some, ◌==◌, arith,
  Bool-cases, Option-cases,
}
use open_skyhawk.Can.Transmit.{
  TxQueueEntry, Mailbox, Tx, requeue_front, settle_mailbox, free_mailbox, pending, load, turn,
  settle_all, enqueue, sent, lost_arbitration, error, complete, TxStep, queue, settle, loop_turn,
  ends, tx_step, tx_run,
}

abbrev pub clash : ℕ → ℕ → Tx → Bool
clash i j x =
    not (x.tsr i).tme && (not (x.tsr j).tme && (x.in_mailbox i).can_id == (x.in_mailbox j).can_id)

-- No two mailboxes send frames with one identifier.
pub record Distinct (x : Tx) : Type 0 where
  pub zero_one : clash 0 1 x ≡ false
  pub zero_two : clash 0 2 x ≡ false
  pub one_two : clash 1 2 x ≡ false

-- A settled mailbox keeps its identifier and stays as empty as it was.
record Same (x y : Tx) : Type 0 where
  tme : (i : ℕ) → (y.tsr i).tme ≡ (x.tsr i).tme
  id : (i : ℕ) → (y.in_mailbox i).can_id ≡ (x.in_mailbox i).can_id

Same-Distinct : (x y : Tx) → Same x y → Distinct x → Distinct y
Same-Distinct x y s d =
    ground
      (arith, s.tme 0, s.tme 1, s.tme 2, s.id 0, s.id 1, s.id 2, d.zero_one, d.zero_two, d.one_two)

module _ (size : ℕ) where
  requeue_front-Same : (e : TxQueueEntry) (x : Tx) → Same x (requeue_front size e x)
  unfolding requeue_front
  requeue_front-Same e x = record { tme = λ i. ground arith; id = λ i. ground arith }

  settle_mailbox-Same : (i : ℕ) (s : Mailbox) (x : Tx) → Same x (settle_mailbox size i s x)
  unfolding settle_mailbox requeue_front
  settle_mailbox-Same i s x = record { tme = λ j. ground arith; id = λ j. ground arith }

  settle_all-Distinct : (x : Tx) → Distinct x → Distinct (settle_all size x)
  unfolding settle_all
  settle_all-Distinct x d =
      let y = settle_mailbox size 0 (x.tsr 0) x in
      let z = settle_mailbox size 1 (x.tsr 1) y in
      Same-Distinct z _ (settle_mailbox-Same 2 (x.tsr 2) z) (
        Same-Distinct y z (settle_mailbox-Same 1 (x.tsr 1) y)
          (Same-Distinct x y (settle_mailbox-Same 0 (x.tsr 0) x) d))

  load-Distinct :
      (i : ℕ) (x : Tx)
      → free_mailbox x.tsr ≡ some i
      → pending (x.ring x.head).can_id x ≡ false
      → Distinct x
      → Distinct (load size i x)
  unfolding load free_mailbox
  load-Distinct i x e p d = ground (arith, e, p, d.zero_one, d.zero_two, d.one_two)

  -- What a turn of the loop does.
  pub turn_cases :
      (x : Tx)
      → (tx_step size loop_turn x ≡ x)
        ⊎ ((i : ℕ) × (free_mailbox x.tsr ≡ some i)
            × (pending (x.ring x.head).can_id x ≡ false)
            × ((tx_step size loop_turn x ≡ settle_mailbox size i (x.tsr i) x)
                ⊎ (((x.tsr i).rqcp ≡ false) × (tx_step size loop_turn x ≡ load size i x))))
  unfolding tx_step turn
  turn_cases x = elim (Bool-cases (x.head == x.tail || pending (x.ring x.head).can_id x)) [
    | inl stop ↦ inl (rw (stop, tx_step, turn) refl)
    | inr go ↦ elim (Option-cases (free_mailbox x.tsr)) [
      | inl busy ↦ inl (rw (go, tx_step, turn) (rw (busy, tx_step, turn) refl))
      | inr (i, e) ↦ elim (Bool-cases (x.tsr i).rqcp) [
        | inl over ↦ inr (i, e, ground (arith, go), inl (rw (go, e, over, tx_step, turn) refl))
        | inr new ↦ inr (i, e, ground (arith, go), inr (new, rw (go, e, new, tx_step, turn) refl))
      ]
    ]
  ]

  turn-Distinct : (x : Tx) → Distinct x → Distinct (tx_step size loop_turn x)
  turn-Distinct x d = elim (turn_cases x) [
    | inl same ↦ rw same d
    | inr (i, e, p, inl over) ↦ rw over (Same-Distinct x _ (settle_mailbox-Same i (x.tsr i) x) d)
    | inr (i, e, p, inr (idle, new)) ↦ rw new (load-Distinct i x e p d)
  ]

  step-Distinct : (s : TxStep) (x : Tx) → Distinct x → Distinct (tx_step size s x)
  unfolding tx_step enqueue complete
  step-Distinct (queue id p) x d = ground (arith, d.zero_one, d.zero_two, d.one_two)
  step-Distinct settle x d = settle_all-Distinct x d
  step-Distinct loop_turn x d = turn-Distinct x d
  step-Distinct (ends i sent) x d = ground (arith, d.zero_one, d.zero_two, d.one_two)
  step-Distinct (ends i lost_arbitration) x d = ground (arith, d.zero_one, d.zero_two, d.one_two)
  step-Distinct (ends i error) x d = ground (arith, d.zero_one, d.zero_two, d.one_two)

  -- Whatever is queued, settled and ended, in any order, no two mailboxes send frames with one
  -- identifier.
  pub run-Distinct : (ss : List TxStep) (x : Tx) → Distinct x → Distinct (tx_run size ss x)
  unfolding tx_run
  run-Distinct [] x d = d
  run-Distinct (s ∷ ss) x d = run-Distinct ss (tx_step size s x) (step-Distinct s x d)
