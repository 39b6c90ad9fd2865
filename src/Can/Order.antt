-- ===== src/Can/Order.antt =====
-- Batching loses, repeats and reorders no packet.
use open_skyhawk.Base.{
  ℕ, ◌≡◌, refl, sym, ◌∙◌, ap, Bool, true, ◌&&◌, List, [], ◌∷◌, ◌++◌, append_assoc, append-nil,
  arith,
}
use open_skyhawk.Can.Batch.{
  ControlPacket, BatchState, send_slot, send_batched, flush_batched, batch_deadlines, Call, batched,
  flush, drained, call, calls,
}
use open_skyhawk.Can.Conserve.{
  sent, waiting, registered, distinct, handed, numbered, sent-append, send_batched_conserves,
  flush_batched_conserves, batch_deadlines_conserves, slot_deadline_cases,
}

send_batched-registered :
    (id i : ℕ) (pkt : ControlPacket) (now : ℕ) (ss : List BatchState)
    → registered id (send_batched i pkt now ss).1 ≡ registered id ss
unfolding send_batched send_slot registered
send_batched-registered id i pkt now [] = refl
send_batched-registered id i pkt now (s ∷ ss) =
    ground (arith, send_batched-registered id i pkt now ss)

flush_batched-registered :
    (id i : ℕ) (ss : List BatchState) → registered id (flush_batched i ss).1 ≡ registered id ss
unfolding flush_batched registered
flush_batched-registered id i [] = refl
flush_batched-registered id i (s ∷ ss) = ground (arith, flush_batched-registered id i ss)

batch_deadlines-registered :
    (id hold now : ℕ) (ss : List BatchState)
    → registered id (batch_deadlines hold now ss).1 ≡ registered id ss
unfolding batch_deadlines registered
batch_deadlines-registered id hold now [] = refl
batch_deadlines-registered id hold now (s ∷ ss) =
    ground (arith, batch_deadlines-registered id hold now ss, slot_deadline_cases hold now s)

call-registered :
    (id hold : ℕ) (k : Call) (ss : List BatchState)
    → registered id (call hold k ss).1 ≡ registered id ss
unfolding call
call-registered id hold (batched i pkt now) ss = send_batched-registered id i pkt now ss
call-registered id hold (flush i) ss = flush_batched-registered id i ss
call-registered id hold (drained now) ss = batch_deadlines-registered id hold now ss

send_batched-distinct :
    (i : ℕ) (pkt : ControlPacket) (now : ℕ) (ss : List BatchState)
    → distinct (send_batched i pkt now ss).1 ≡ distinct ss
unfolding send_batched send_slot distinct
send_batched-distinct i pkt now [] = refl
send_batched-distinct i pkt now (s ∷ ss) =
    ground
      (arith, send_batched-distinct i pkt now ss, send_batched-registered s.can_id i pkt now ss)

flush_batched-distinct :
    (i : ℕ) (ss : List BatchState) → distinct (flush_batched i ss).1 ≡ distinct ss
unfolding flush_batched distinct
flush_batched-distinct i [] = refl
flush_batched-distinct i (s ∷ ss) =
    ground (arith, flush_batched-distinct i ss, flush_batched-registered s.can_id i ss)

batch_deadlines-distinct :
    (hold now : ℕ) (ss : List BatchState) → distinct (batch_deadlines hold now ss).1 ≡ distinct ss
unfolding batch_deadlines distinct
batch_deadlines-distinct hold now [] = refl
batch_deadlines-distinct hold now (s ∷ ss) = ground (
  arith,
  batch_deadlines-distinct hold now ss,
  batch_deadlines-registered s.can_id hold now ss,
  slot_deadline_cases hold now s,
)

call-distinct :
    (hold : ℕ) (k : Call) (ss : List BatchState) → distinct (call hold k ss).1 ≡ distinct ss
unfolding call
call-distinct hold (batched i pkt now) ss = send_batched-distinct i pkt now ss
call-distinct hold (flush i) ss = flush_batched-distinct i ss
call-distinct hold (drained now) ss = batch_deadlines-distinct hold now ss

call_conserves :
    (id hold : ℕ) (k : Call) (ss : List BatchState)
    → numbered k ≡ true
    → distinct ss ≡ true
    → sent id (call hold k ss).0 ++ waiting id (call hold k ss).1 ≡ waiting id ss ++ handed id k ss
unfolding call handed
call_conserves id hold (batched i pkt now) ss n d =
    send_batched_conserves id i pkt now ss (ground (arith, n)) d
call_conserves id hold (flush i) ss n d =
    flush_batched_conserves id i ss d ∙ sym (append-nil (waiting id ss))
call_conserves id hold (drained now) ss n d =
    batch_deadlines_conserves id hold now ss d ∙ sym (append-nil (waiting id ss))

-- the packets that the calls hand in for `id`
unfoldable pub handed_all : ℕ → List Call → List BatchState → List ControlPacket
handed_all id [] ss = []
handed_all id (k ∷ ks) ss = handed id k ss ++ handed_all id ks ss

abbrev pub all_numbered : List Call → Bool
all_numbered [] = true
all_numbered (k ∷ ks) = numbered k && all_numbered ks

handed_congr :
    (id : ℕ) (k : Call) (ss ss' : List BatchState)
    → registered id ss ≡ registered id ss'
    → handed id k ss ≡ handed id k ss'
unfolding handed
handed_congr id (batched i pkt now) ss ss' h = rw h refl
handed_congr id (flush i) ss ss' h = refl
handed_congr id (drained now) ss ss' h = refl

handed_all_congr :
    (id : ℕ) (ks : List Call) (ss ss' : List BatchState)
    → registered id ss ≡ registered id ss'
    → handed_all id ks ss ≡ handed_all id ks ss'
unfolding handed_all
handed_all_congr id [] ss ss' h = refl
handed_all_congr id (k ∷ ks) ss ss' h =
    rw (handed_congr id k ss ss' h, handed_all_congr id ks ss ss' h) refl

-- Over any calls of sendBatched(), flushBatched() and the deadlines of drain(), at any times, on slots
-- of different identifiers: the packets of the frames with one identifier, then the packet that waits,
-- are the packet that waited and those handed in for it, in their order. Packets are of controls, whose
-- number is not 0; an identifier without a slot is handed none.
pub calls-sent :
    (id hold : ℕ) (ks : List Call) (ss : List BatchState)
    → all_numbered ks ≡ true
    → distinct ss ≡ true
    → sent id (calls hold ks ss).0 ++ waiting id (calls hold ks ss).1
      ≡ waiting id ss ++ handed_all id ks ss
unfolding calls handed_all sent
calls-sent id hold [] ss n d = sym (append-nil (waiting id ss))
calls-sent id hold (k ∷ ks) ss n d =
    let s' = (call hold k ss).1 in
    let one = call_conserves id hold k ss (ground (arith, n)) d in
    let rest = calls-sent id hold ks s' (ground (arith, n)) (call-distinct hold k ss ∙ d) in
    let same = handed_all_congr id ks s' ss (call-registered id hold k ss) in
    rw
      (
        sent-append id (call hold k ss).0 (calls hold ks s').0,
        append_assoc (sent id (call hold k ss).0) (sent id (calls hold ks s').0)
            (waiting id (calls hold ks s').1),
        rest,
        same,
      )
      (sym (append_assoc (sent id (call hold k ss).0) (waiting id s') (handed_all id ks ss))
        ∙ (ap (λ x. x ++ handed_all id ks ss) one
            ∙ append_assoc (waiting id ss) (handed id k ss) (handed_all id ks ss)))
