-- ===== src/Can/Examples.antt =====
-- The batching at concrete calls.
use open_skyhawk.Base.{ℕ, ◌≡◌, refl, false, List, [], ◌∷◌, ◌++◌}
use open_skyhawk.Can.Batch.{
  ControlPacket, BatchState, no_packet, send_slot, send_batched, slot_deadline, batch_deadlines,
  Call, batched, drained, call, calls,
}
use open_skyhawk.Can.Conserve.{distinct, sent, waiting, registered, handed}
use open_skyhawk.Can.Order.{handed_all, calls-sent}

abbrev slot : ℕ → BatchState
slot id = record { can_id = id; has_a = false; a = no_packet; loops_waited = 0; since_ms = 0 }

abbrev slots : List BatchState
slots = slot 0x010 ∷ slot 0x105 ∷ slot 0x205 ∷ []

abbrev packet : ℕ → ControlPacket
packet n = record { control_id = n; value = 1 }

abbrev some_calls : List Call
some_calls =
    batched 0x105 (packet 1) 10
    ∷ batched 0x205 (packet 2) 10
    ∷ batched 0x105 (packet 3) 10
    ∷ drained 11
    ∷ batched 0x105 (packet 4) 12
    ∷ drained 12
    ∷ []

calls-sent_example :
    sent 0x105 (calls 0 some_calls slots).0 ++ waiting 0x105 (calls 0 some_calls slots).1
    ≡ waiting 0x105 slots ++ handed_all 0x105 some_calls slots
unfolding registered distinct
calls-sent_example = calls-sent 0x105 0 some_calls slots refl refl

three_handed : handed_all 0x105 some_calls slots ≡ packet 1 ∷ packet 3 ∷ packet 4 ∷ []
unfolding handed_all handed registered
three_handed = refl

two_sent : sent 0x105 (calls 0 some_calls slots).0 ≡ packet 1 ∷ packet 3 ∷ []
unfolding sent calls call send_batched batch_deadlines slot_deadline send_slot
two_sent = refl
