-- ===== src/Can/Conserve.antt =====
-- Each operation of the batching keeps the packets of an identifier, in order.
use open_skyhawk.Base.{
  ℕ, ◌≡◌, ◌≢◌, refl, ◌⊎◌, Bool, true, false, not, ◌&&◌, List, [], ◌∷◌, ◌++◌, append-nil, arith,
  ◌==◌, if◌then◌else◌,
}
use open_skyhawk.Can.Batch.{
  ControlPacket, Frame, BatchState, send_slot, send_batched, half, flush_batched, slot_deadline,
  batch_deadlines, Call, batched, flush, drained,
}

-- the packets of the frames with identifier `id`, without the empty ones
unfoldable pub sent : ℕ → List Frame → List ControlPacket
sent id [] = []
sent id (f ∷ fs) =
    let rest = sent id fs in
    if f.can_id == id then (if f.b.control_id == 0 then f.a ∷ rest else f.a ∷ f.b ∷ rest) else rest

-- the packets that wait in the slots of `id`
unfoldable pub waiting : ℕ → List BatchState → List ControlPacket
waiting id [] = []
waiting id (s ∷ ss) =
    let rest = waiting id ss in if s.can_id == id && s.has_a then s.a ∷ rest else rest

unfoldable pub registered : ℕ → List BatchState → Bool
registered id [] = false
registered id (s ∷ ss) = let rest = registered id ss in if s.can_id == id then true else rest

-- each identifier has one slot
unfoldable pub distinct : List BatchState → Bool
distinct [] = true
distinct (s ∷ ss) = let rest = distinct ss in not (registered s.can_id ss) && rest

-- the packets that a call hands in for `id`, with a slot to take them
unfoldable pub handed : ℕ → Call → List BatchState → List ControlPacket
handed id (batched i pkt now) ss = if i == id && registered id ss then pkt ∷ [] else []
handed id (flush i) ss = []
handed id (drained now) ss = []

-- Every packet handed in has a control's number, which is not 0.
abbrev pub numbered : Call → Bool
numbered (batched i pkt now) = not (pkt.control_id == 0)
numbered _ = true

pub sent-append : (id : ℕ) (fs gs : List Frame) → sent id (fs ++ gs) ≡ sent id fs ++ sent id gs
unfolding sent
sent-append id [] gs = refl
sent-append id (f ∷ fs) gs = ground (arith, sent-append id fs gs)

waiting-registered : (id : ℕ) (ss : List BatchState) → registered id ss ≡ false → waiting id ss ≡ []
unfolding waiting registered
waiting-registered id [] h = refl
waiting-registered id (s ∷ ss) h = ground (arith, waiting-registered id ss)

-- An identifier without a slot has no frame and no packet that waits.
send_batched_foreign :
    (id i : ℕ) (pkt : ControlPacket) (now : ℕ) (ss : List BatchState)
    → registered id ss ≡ false
    → (sent id (send_batched i pkt now ss).0 ≡ []) × (waiting id (send_batched i pkt now ss).1 ≡ [])
unfolding send_batched send_slot sent waiting registered
send_batched_foreign id i pkt now [] d = (refl, refl)
send_batched_foreign id i pkt now (s ∷ ss) d =
    let rest = send_batched_foreign id i pkt now ss in
    let idle = waiting-registered id ss in (ground (arith, rest, idle), ground (arith, rest, idle))

flush_batched_foreign :
    (id i : ℕ) (ss : List BatchState)
    → registered id ss ≡ false
    → (sent id (flush_batched i ss).0 ≡ []) × (waiting id (flush_batched i ss).1 ≡ [])
unfolding flush_batched sent waiting registered
flush_batched_foreign id i [] d = (refl, refl)
flush_batched_foreign id i (s ∷ ss) d =
    let rest = flush_batched_foreign id i ss in
    let idle = waiting-registered id ss in (ground (arith, rest, idle), ground (arith, rest, idle))

pub slot_deadline_cases :
    (hold now : ℕ) (s : BatchState)
    → ((slot_deadline hold now s).1.can_id ≡ s.can_id)
      × (((slot_deadline hold now s).0 ≡ [])
            × ((slot_deadline hold now s).1.has_a ≡ s.has_a)
            × ((slot_deadline hold now s).1.a ≡ s.a)
          ⊎ ((slot_deadline hold now s).0 ≡ (half s).0)
            × (s.has_a ≡ true)
            × ((slot_deadline hold now s).1.has_a ≡ false))
unfolding slot_deadline
slot_deadline_cases hold now s = ground arith

batch_deadlines_foreign :
    (id hold now : ℕ) (ss : List BatchState)
    → registered id ss ≡ false
    → (sent id (batch_deadlines hold now ss).0 ≡ [])
      × (waiting id (batch_deadlines hold now ss).1 ≡ [])
unfolding batch_deadlines sent waiting registered
batch_deadlines_foreign id hold now [] d = (refl, refl)
batch_deadlines_foreign id hold now (s ∷ ss) d =
    let rest = batch_deadlines_foreign id hold now ss in
    let here = slot_deadline_cases hold now s in
    (ground (arith, rest, here), ground (arith, rest, here))

pub send_batched_conserves :
    (id i : ℕ) (pkt : ControlPacket) (now : ℕ) (ss : List BatchState)
    → pkt.control_id ≢ 0
    → distinct ss ≡ true
    → sent id (send_batched i pkt now ss).0 ++ waiting id (send_batched i pkt now ss).1
      ≡ waiting id ss ++ (if i == id && registered id ss then pkt ∷ [] else [])
unfolding send_batched send_slot sent waiting registered distinct
send_batched_conserves id i pkt now [] p d = ground arith
send_batched_conserves id i pkt now (s ∷ ss) p d = ground (
  arith,
  send_batched_conserves id i pkt now ss p,
  waiting-registered id ss,
  append-nil (waiting id ss),
  send_batched_foreign id i pkt now ss,
)

pub flush_batched_conserves :
    (id i : ℕ) (ss : List BatchState)
    → distinct ss ≡ true
    → sent id (flush_batched i ss).0 ++ waiting id (flush_batched i ss).1 ≡ waiting id ss
unfolding flush_batched sent waiting registered distinct
flush_batched_conserves id i [] d = refl
flush_batched_conserves id i (s ∷ ss) d = ground (
  arith,
  flush_batched_conserves id i ss,
  waiting-registered id ss,
  flush_batched_foreign id i ss,
)

pub batch_deadlines_conserves :
    (id hold now : ℕ) (ss : List BatchState)
    → distinct ss ≡ true
    → sent id (batch_deadlines hold now ss).0 ++ waiting id (batch_deadlines hold now ss).1
      ≡ waiting id ss
unfolding batch_deadlines sent waiting registered distinct
batch_deadlines_conserves id hold now [] d = refl
batch_deadlines_conserves id hold now (s ∷ ss) d = ground (
  arith,
  batch_deadlines_conserves id hold now ss,
  waiting-registered id ss,
  batch_deadlines_foreign id hold now ss,
  slot_deadline_cases hold now s,
)
