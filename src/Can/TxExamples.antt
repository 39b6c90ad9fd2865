-- ===== src/Can/TxExamples.antt =====
-- The transmit side at concrete frames and mailboxes.
use open_skyhawk.Base.{
  ℕ, ◌≡◌, refl, true, false, List, [], ◌∷◌, none, some, arith, ◌==◌, if◌then◌else◌,
}
use open_skyhawk.Can.Transmit.{
  TxQueueEntry, Mailbox, Tx, settle_mailbox, load, turn, drain_tx_queue, sent, lost_arbitration,
  error, outcome_bits, TxStep, queue, settle, loop_turn, ends, tx_run,
}
use open_skyhawk.Can.Mailboxes.{Distinct, run-Distinct}
use open_skyhawk.Can.Overtake.{turn_overtakes}
use open_skyhawk.Can.Drain.{drain_tx_queue_ends}

abbrev frame : ℕ → ℕ → TxQueueEntry
frame id v = record { can_id = id; bytes = v ∷ []; attempts = 0 }

abbrev idle_box : Mailbox
idle_box = record { tme = true; rqcp = false; txok = false; alst = false; terr = false }

abbrev idle : Tx
idle = record {
  ring = λ i. frame 0 0;
  head = 0;
  tail = 0;
  in_mailbox = λ i. frame 0 0;
  drops = 0;
  tsr = λ i. idle_box;
}

-- two frames of one identifier, the first of which fails and is sent again
abbrev history : List TxStep
history =
    queue 0x205 (1 ∷ [])
    ∷ loop_turn
    ∷ queue 0x205 (2 ∷ [])
    ∷ loop_turn
    ∷ ends 0 error
    ∷ settle
    ∷ loop_turn
    ∷ ends 0 lost_arbitration
    ∷ settle
    ∷ loop_turn
    ∷ ends 0 sent
    ∷ settle
    ∷ loop_turn
    ∷ []

run-Distinct_example : Distinct (tx_run 16 history idle)
run-Distinct_example =
    run-Distinct 16 history idle (record { zero_one = refl; zero_two = refl; one_two = refl })

drain_tx_queue_ends_example :
    turn 16 (drain_tx_queue 16 (record idle { ring = λ i. frame i 7; tail = 5 })) ≡ none
drain_tx_queue_ends_example =
    drain_tx_queue_ends 16 (record idle { ring = λ i. frame i 7; tail = 5 })

-- mailbox 1 has lost arbitration with a frame of 0x205, and a newer one of it waits
abbrev raced : Tx
raced = record idle {
  ring = λ i. frame 0x205 2;
  tail = 1;
  in_mailbox = λ i. frame 0x205 1;
  tsr = λ i. if i == 1 then outcome_bits lost_arbitration else idle_box;
}

turn_overtakes_example :
    let y = load 16 0 raced in
    let z = settle_mailbox 16 1 (y.tsr 1) y in
    (turn 16 raced ≡ some y)
    × ((z.tsr 0).tme ≡ false)
    × (z.in_mailbox 0 ≡ frame 0x205 2)
    × (z.ring z.head ≡ frame 0x205 1)
turn_overtakes_example =
    turn_overtakes 16 raced (omega arith) (omega arith) (omega arith) refl refl refl refl refl
