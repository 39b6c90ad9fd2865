-- ===== src/Can/Batch.antt =====
-- The batching of control packets (CANProtocol.cpp): two packets of one identifier share a frame.
use open_skyhawk.Base.{
  ℕ, ◌+◌, ◌-◌, ◌%◌, ◌^◌, Bool, true, false, not, ◌&&◌, List, [], ◌∷◌, ◌++◌, ◌==◌, leb,
  if◌then◌else◌,
}

pub record ControlPacket : Type 0 where
  pub control_id : ℕ
  pub value : ℕ

-- A `ControlPacketPair` handed to send(), with its identifier.
pub record Frame : Type 0 where
  pub can_id : ℕ
  pub a : ControlPacket
  pub b : ControlPacket

pub record BatchState : Type 0 where
  pub can_id : ℕ
  pub has_a : Bool
  pub a : ControlPacket
  pub loops_waited : ℕ
  pub since_ms : ℕ

-- `{ 0x0000, 0 }`, the second packet of a frame that goes out half empty
abbrev pub no_packet : ControlPacket
no_packet = record { control_id = 0; value = 0 }

-- one slot's part of `sendBatched`
unfoldable pub send_slot : ControlPacket → ℕ → BatchState → List Frame × BatchState
send_slot pkt now s =
    if not s.has_a
    then ([], record s { a = pkt; has_a = true; loops_waited = 0; since_ms = now })
    else (
      record { can_id = s.can_id; a = s.a; b = pkt } ∷ [],
      record s { has_a = false; loops_waited = 0 },
    )

-- `sendBatched(canId, pkt)`: the frames handed to send(), and the slots
unfoldable pub send_batched : ℕ → ControlPacket → ℕ → List BatchState → List Frame × List BatchState
send_batched id pkt now [] = ([], [])
send_batched id pkt now (s ∷ ss) =
    let (fs, s') = send_slot pkt now s in
    let (gs, ss') = send_batched id pkt now ss in
    if s.can_id == id then (fs, s' ∷ ss) else (gs, s ∷ ss')

-- the frame of a slot whose packet found no partner
abbrev pub half : BatchState → List Frame × BatchState
half s = (
  record { can_id = s.can_id; a = s.a; b = no_packet } ∷ [],
  record s { has_a = false; loops_waited = 0 },
)

-- `flushBatched(canId)`
unfoldable pub flush_batched : ℕ → List BatchState → List Frame × List BatchState
flush_batched id [] = ([], [])
flush_batched id (s ∷ ss) =
    let (fs, s') = half s in
    let (gs, ss') = flush_batched id ss in
    if s.can_id == id && s.has_a then (fs, s' ∷ ss) else (gs, s ∷ ss')

-- one slot's deadline in `drain`; BATCH_HOLD_MS is the board's
unfoldable pub slot_deadline : ℕ → ℕ → BatchState → List Frame × BatchState
slot_deadline hold now s =
    if s.has_a
    then (let s' = record s { loops_waited = (s.loops_waited + 1) % 2 ^ 8 } in
        if leb 2 s'.loops_waited && leb hold ((now + 2 ^ 32 - s.since_ms) % 2 ^ 32)
        then half s'
        else ([], s'))
    else ([], s)

-- the deadlines of all slots
unfoldable pub batch_deadlines : ℕ → ℕ → List BatchState → List Frame × List BatchState
batch_deadlines hold now [] = ([], [])
batch_deadlines hold now (s ∷ ss) =
    let (fs, s') = slot_deadline hold now s in
    let (gs, ss') = batch_deadlines hold now ss in (fs ++ gs, s' ∷ ss')

-- the calls that a node makes
pub data Call : Type 0 where
  batched : ℕ → ControlPacket → ℕ → Call
  flush : ℕ → Call
  drained : ℕ → Call

unfoldable pub call : ℕ → Call → List BatchState → List Frame × List BatchState
call hold (batched id pkt now) ss = send_batched id pkt now ss
call hold (flush id) ss = flush_batched id ss
call hold (drained now) ss = batch_deadlines hold now ss

unfoldable pub calls : ℕ → List Call → List BatchState → List Frame × List BatchState
calls hold [] ss = ([], ss)
calls hold (k ∷ ks) ss =
    let (fs, ss') = call hold k ss in let (gs, ss'') = calls hold ks ss' in (fs ++ gs, ss'')
