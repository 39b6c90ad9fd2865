-- ===== src/Can/Transmit.antt =====
-- Transmission (CANProtocol.cpp): the ring of frames that wait, and the three mailboxes of the controller.
use open_skyhawk.Base.{
  ℕ, zero, suc, ◌+◌, ◌-◌, ◌%◌, ◌^◌, Bool, true, false, not, ◌&&◌, ◌||◌, List, [], ◌∷◌, Option, none,
  some, ◌==◌, ltb, if◌then◌else◌,
}

pub record TxQueueEntry : Type 0 where
  pub can_id : ℕ
  pub bytes : List ℕ
  pub attempts : ℕ

-- MAX_TX_ATTEMPTS
abbrev pub max_tx_attempts : ℕ
max_tx_attempts = 3

-- A mailbox's bits of the controller's TSR: it is empty, its request is over, and how that went.
pub record Mailbox : Type 0 where
  pub tme : Bool
  pub rqcp : Bool
  pub txok : Bool
  pub alst : Bool
  pub terr : Bool

-- `_txRing`, `_txHead`, `_txTail`, `_inMailbox`, `_txDrops` and the register
pub record Tx : Type 0 where
  pub ring : ℕ → TxQueueEntry
  pub head : ℕ
  pub tail : ℕ
  pub in_mailbox : ℕ → TxQueueEntry
  pub drops : ℕ
  pub tsr : ℕ → Mailbox

abbrev pub put {ℓ} : {A : Type ℓ} → (ℕ → A) → ℕ → A → ℕ → A
put f i v j = if j == i then v else f j

abbrev pub drop_one : Tx → Tx
drop_one x = record x { drops = (x.drops + 1) % 2 ^ 32 }

-- the first empty mailbox
unfoldable pub free_mailbox : (ℕ → Mailbox) → Option ℕ
free_mailbox tsr =
    if (tsr 0).tme
    then some 0
    else if (tsr 1).tme
    then some 1
    else if (tsr 2).tme
    then some 2
    else none

-- a mailbox that is not empty holds a frame with the identifier
abbrev pub holds : ℕ → ℕ → Tx → Bool
holds i id x = not (x.tsr i).tme && (x.in_mailbox i).can_id == id

abbrev pub pending : ℕ → Tx → Bool
pending id x = holds 0 id x || (holds 1 id x || holds 2 id x)

module _ (tx_ring_size : ℕ) where
  -- `_requeueFront(e)`
  unfoldable pub requeue_front : TxQueueEntry → Tx → Tx
  requeue_front e x =
      let h = (x.head + tx_ring_size - 1) % tx_ring_size in
      if h == x.tail then drop_one x else record x { ring = put x.ring h e; head = h }

  -- `_settleMailbox(i, tsr)`, `s` the mailbox's bits in the value that was read
  unfoldable pub settle_mailbox : ℕ → Mailbox → Tx → Tx
  settle_mailbox i s x =
      let e = x.in_mailbox i in
      let again = record e { attempts = (e.attempts + 1) % 256 } in
      let cleared = record (x.tsr i) { rqcp = false; txok = false; alst = false; terr = false } in
      let y = record x { tsr = put x.tsr i cleared } in
      let z = record y { in_mailbox = put x.in_mailbox i again } in
      if not s.rqcp
      then x
      else if s.txok
      then y
      else if s.alst
      then requeue_front e y
      else if not s.terr
      then y
      else if ltb again.attempts max_tx_attempts
      then requeue_front again z
      else drop_one z

  -- the frame at the head goes into the mailbox
  unfoldable pub load : ℕ → Tx → Tx
  load i x = record x {
    in_mailbox = put x.in_mailbox i (x.ring x.head);
    tsr = put x.tsr i (record (x.tsr i) { tme = false });
    head = (x.head + 1) % tx_ring_size;
  }

  -- One turn of the loop of `_drainTxQueue`, with TSR as it reads it; `none` where the loop ends.
  unfoldable pub turn : Tx → Option Tx
  turn x =
      if x.head == x.tail || pending (x.ring x.head).can_id x
      then none
      else elim (free_mailbox x.tsr) [
        | none ↦ none
        | some i ↦ if (x.tsr i).rqcp then some (settle_mailbox i (x.tsr i) x) else some (load i x)
      ]

  -- the settling that `_drainTxQueue` begins with
  unfoldable pub settle_all : Tx → Tx
  settle_all x =
      settle_mailbox 2 (x.tsr 2) (settle_mailbox 1 (x.tsr 1) (settle_mailbox 0 (x.tsr 0) x))

  -- the ring's part of `send`: a frame at the tail, or dropped
  unfoldable pub enqueue : ℕ → List ℕ → Tx → Tx
  enqueue id d x =
      let next = (x.tail + 1) % tx_ring_size in
      let e : TxQueueEntry = record { can_id = id; bytes = d; attempts = 0 } in
      if next == x.head then drop_one x else record x { ring = put x.ring x.tail e; tail = next }

  -- the loop of `_drainTxQueue`, with `k` turns to go and no request that ends meanwhile
  unfoldable pub drain_loop : ℕ → Tx → Tx
  drain_loop zero x = x
  drain_loop (suc k) x = elim (turn x) [ none ↦ x | some y ↦ drain_loop k y ]

  -- `_drainTxQueue`: three mailboxes are settled and loaded once each at most
  unfoldable pub drain_tx_queue : Tx → Tx
  unfolding drain_loop
  drain_tx_queue x = drain_loop 6 (settle_all x)

  -- `send`
  unfoldable pub send : ℕ → List ℕ → Tx → Tx
  send id d x =
      let next = (x.tail + 1) % tx_ring_size in
      let y = enqueue id d x in if next == x.head then y else drain_tx_queue y

-- how a request of the controller ends
pub data Outcome : Type 0 where
  sent lost_arbitration error : Outcome

abbrev pub outcome_bits : Outcome → Mailbox
outcome_bits sent = record { tme = true; rqcp = true; txok = true; alst = false; terr = false }
outcome_bits lost_arbitration = record {
  tme = true;
  rqcp = true;
  txok = false;
  alst = true;
  terr = false;
}
outcome_bits error = record { tme = true; rqcp = true; txok = false; alst = false; terr = true }

-- The controller ends the request of a mailbox that is busy.
unfoldable pub complete : ℕ → Outcome → Tx → Tx
complete i o x = if (x.tsr i).tme then x else record x { tsr = put x.tsr i (outcome_bits o) }

-- What happens on the transmit side: the controller may end a request between any two reads of TSR.
pub data TxStep : Type 0 where
  queue : ℕ → List ℕ → TxStep
  settle loop_turn : TxStep
  ends : ℕ → Outcome → TxStep

module _ (tx_ring_size : ℕ) where
  unfoldable pub tx_step : TxStep → Tx → Tx
  tx_step (queue id d) x = enqueue tx_ring_size id d x
  tx_step settle x = settle_all tx_ring_size x
  tx_step loop_turn x = elim (turn tx_ring_size x) [ none ↦ x | some y ↦ y ]
  tx_step (ends i o) x = complete i o x

  unfoldable pub tx_run : List TxStep → Tx → Tx
  tx_run [] x = x
  tx_run (s ∷ ss) x = tx_run ss (tx_step s x)
