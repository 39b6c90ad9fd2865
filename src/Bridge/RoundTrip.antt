-- ===== src/Bridge/RoundTrip.antt =====
-- What the uploader packs, the relay unpacks.
use open_skyhawk.Base.{
  ℕ, suc, ◌+◌, ◌*◌, ◌/◌, ◌%◌, ◌^◌, ◌≤◌, ◌<◌, ◌≡◌, refl, Bool, true, false, ◌&&◌, List, [], ◌∷◌,
  ◌++◌, append_assoc, append-nil, length, length-append, arith, holds_from, at_table, bit_and,
  bit_or, ◌==◌, ltb,
}
use open_skyhawk.Upload.Wire.{CanFrame, relay_frame_mark, escape_byte, escape, relay_bytes}
use open_skyhawk.Bridge.Relay.{BootRelay, is_allowed, forward, take_byte, feed, feed_all}

-- An open frame takes an escaped byte as the byte.
feed-escape_byte :
    (b : ℕ) (bs : List ℕ) (r : BootRelay)
    → 0 < r.need
    → r.esc ≡ false
    → feed_all (escape_byte b ++ bs) r
      ≡ ((take_byte b r).0 ++ (feed_all bs (take_byte b r).1).0, (feed_all bs (take_byte b r).1).1)
unfolding feed_all feed escape_byte
feed-escape_byte b bs r p e = ground arith

unfoldable pub closed : List ℕ → BootRelay
closed f = record { f = f; need = 0; esc = false }

-- An open frame of `need` bytes that gets the rest of them is forwarded, and the relay waits for a mark.
feed-escape :
    (raw : List ℕ) (b : ℕ) (f bs : List ℕ) (need : ℕ)
    → need ≡ length f + suc (length raw)
    → feed_all (escape (b ∷ raw) ++ bs) (record { f = f; need = need; esc = false }) ≡ (
      forward (f ++ b ∷ raw) ++ (feed_all bs (closed (f ++ b ∷ raw))).0,
      (feed_all bs (closed (f ++ b ∷ raw))).1,
    )
unfolding escape take_byte closed
feed-escape [] b f bs need e =
    let r : BootRelay = record { f = f; need = need; esc = false } in
    rw (append-nil (escape_byte b))
      (ground (arith, feed-escape_byte b bs r, length-append f (b ∷ []), e))
feed-escape (c ∷ raw) b f bs need e =
    let r : BootRelay = record { f = f; need = need; esc = false } in
    let rest =
      feed-escape raw c (f ++ b ∷ []) bs need (omega (arith, e, length-append f (b ∷ []))) in
    rw (append_assoc (escape_byte b) (escape (c ∷ raw)) bs) (
      ground (
        arith,
        feed-escape_byte b (escape (c ∷ raw) ++ bs) r,
        length-append f (b ∷ []),
        e,
        rest,
        append_assoc f (b ∷ []) (c ∷ raw),
      ))

-- The bits of a mark, for each count of data bytes.
abbrev mark_test : ℕ → Bool
mark_test n =
    bit_and (bit_or relay_frame_mark n) 0xF0 == relay_frame_mark
    && bit_and (bit_or relay_frame_mark n) 0x0F == n

mark_table : holds_from mark_test 0 9 ≡ true
unfolding holds_from
mark_table = refl

mark_bits :
    (n : ℕ)
    → n ≤ 8
    → (bit_and (bit_or relay_frame_mark n) 0xF0 ≡ relay_frame_mark)
      × (bit_and (bit_or relay_frame_mark n) 0x0F ≡ n)
mark_bits n h = ground (arith, at_table mark_test 9 {k = n} mark_table (omega arith))

abbrev pub all_bytes : List ℕ → Bool
all_bytes [] = true
all_bytes (b ∷ bs) = ltb b 256 && all_bytes bs

-- A frame that the relay may put on the bus, its data bytes.
pub record Sendable (f : CanFrame) : Type 0 where
  pub allowed : is_allowed f.id ≡ true
  pub short : length f.bytes ≤ 8
  pub bytes : all_bytes f.bytes ≡ true

whole_id : (f : CanFrame) → Sendable f → f.id % 256 + 2 ^ 8 * (f.id / 256 % 256) ≡ f.id
whole_id f s = ground (arith, s.allowed)

-- The relay, between frames, forwards a frame that is allowed, whatever its bytes, and is between
-- frames again.
pub feed-relay_bytes :
    (f : CanFrame) (r : BootRelay) (bs : List ℕ)
    → Sendable f
    → r.need ≡ 0
    → let after = closed (f.id % 256 ∷ f.id / 256 % 256 ∷ f.bytes) in
      feed_all (relay_bytes f.id f.bytes ++ bs) r
      ≡ (f ∷ (feed_all bs after).0, (feed_all bs after).1)
unfolding relay_bytes closed feed_all feed forward
feed-relay_bytes f r bs s z =
    let n = length f.bytes in
    let (mark, count) = mark_bits n s.short in
    let open_frame =
      feed-escape (f.id / 256 % 256 ∷ f.bytes) (f.id % 256) [] bs (2 + n) (omega arith) in
    let id = whole_id f s in ground (arith, mark, count, open_frame, id, s.allowed, s.short)
