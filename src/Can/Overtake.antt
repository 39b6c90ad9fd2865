-- ===== src/Can/Overtake.antt =====
-- A newer frame that is sent before an older one with its identifier (CANProtocol.cpp).
use native.Mathlib.Nat.{mod-add-mod, add-mod_right, mod-eq_of_lt}
use open_skyhawk.Base.{ℕ, ◌+◌, ◌-◌, ◌%◌, ◌<◌, ◌≡◌, ◌≢◌, true, false, some, arith}
use open_skyhawk.Can.Transmit.{
  Tx, outcome_bits, lost_arbitration, settle_mailbox, free_mailbox, load, turn, holds,
  requeue_front,
}

-- the place before the one after `h`
place_back : (h s : ℕ) → 1 < s → h < s → ((h + 1) % s + s - 1) % s ≡ h
place_back h s p l =
    let apart : (h + 1) % s + s - 1 ≡ (h + 1) % s + (s - 1) = omega arith in
    let joined : h + 1 + (s - 1) ≡ h + s = omega arith in
    rw (apart, mod-add-mod (h + 1) s (s - 1), joined, add-mod_right h s) (mod-eq_of_lt l)

-- Mailbox 0 is empty and settled, mailbox 1 has just lost arbitration with an older frame of the
-- identifier at the ring's head, and mailbox 2 does not hold that identifier. Then the next turn of the
-- loop loads the newer frame into mailbox 0, and settling mailbox 1 puts the older one behind it, at the
-- ring's head.
pub turn_overtakes :
    (size : ℕ) (x : Tx)
    → 1 < size
    → x.head < size
    → x.head ≢ x.tail
    → (x.tsr 0).tme ≡ true
    → (x.tsr 0).rqcp ≡ false
    → x.tsr 1 ≡ outcome_bits lost_arbitration
    → (x.in_mailbox 1).can_id ≡ (x.ring x.head).can_id
    → holds 2 (x.ring x.head).can_id x ≡ false
    → let y = load size 0 x in
      let z = settle_mailbox size 1 (y.tsr 1) y in
      (turn size x ≡ some y)
      × ((z.tsr 0).tme ≡ false)
      × (z.in_mailbox 0 ≡ x.ring x.head)
      × (z.ring z.head ≡ x.in_mailbox 1)
unfolding turn free_mailbox load settle_mailbox requeue_front
turn_overtakes size x s h n a b c d e =
    let back = place_back x.head size s h in
    (
      ground (arith, n, a, b, c, d, e),
      ground (arith, a, b, c, back, n),
      ground (arith, a, b, c, back, n),
      ground (arith, a, b, c, back, n),
    )
