-- ===== src/Can/Attempts.antt =====
-- How often a frame is tried (CANProtocol.cpp).
use open_skyhawk.Base.{ℕ, ◌<◌, ◌≡◌, ◌⊎◌, true, false, arith}
use open_skyhawk.Can.Transmit.{TxQueueEntry, max_tx_attempts, Mailbox, Tx, requeue_front}

-- A mailbox is idle, or its frame has failed less often than the limit.
abbrev pub Box : Mailbox → TxQueueEntry → Type 0
Box s e =
    ((s.tme ≡ true) × (s.rqcp ≡ false))
    ⊎ (((s.rqcp ≡ false) ⊎ (s.tme ≡ true)) × (e.attempts < max_tx_attempts))

-- Every frame that waits or is being sent has failed less often than the limit.
pub record Bounded (x : Tx) : Type 0 where
  pub ring : (i : ℕ) → (x.ring i).attempts < max_tx_attempts
  pub box : (i : ℕ) → Box (x.tsr i) (x.in_mailbox i)

module _ (size : ℕ) where
  requeue_front-Bounded :
      (e : TxQueueEntry) (x : Tx)
      → e.attempts < max_tx_attempts
      → Bounded x
      → Bounded (requeue_front size e x)
  unfolding requeue_front
  requeue_front-Bounded e x l b = record {
    ring = λ j. ground (arith, l, b.ring j);
    box = λ j. ground (arith, b.box j);
  }
