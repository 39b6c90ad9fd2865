-- ===== src/Bridge/Payload.antt =====
-- A record of relayed frames: its bytes are plain, and the relay gets its frames out of them.
use open_skyhawk.Base.{
  ℕ, zero, suc, ◌/◌, ◌%◌, ◌≤◌, ◌≡◌, refl, ap, Bool, true, not, ◌&&◌, List, [], ◌∷◌, ◌++◌,
  append_assoc, append-nil, length, take, arith, bit_or, ◌==◌, ltb, holds_from, at_table,
}
use open_skyhawk.Upload.Wire.{CanFrame, relay_frame_mark, relay_bytes, escape, escape_byte, pad}
use open_skyhawk.Upload.Records.{encode}
use open_skyhawk.Bridge.Relay.{BootRelay, feed, feed_all}
use open_skyhawk.Bridge.RoundTrip.{Sendable, all_bytes, closed, feed-relay_bytes}
use open_skyhawk.Bridge.Stream.{plain_bytes}

abbrev pub payload : List CanFrame → List ℕ
payload g = pad (encode g)

abbrev pub AllSendable : List CanFrame → Type 0
AllSendable [] = Unit
AllSendable (f ∷ fs) = Sendable f × AllSendable fs

pub AllSendable-append :
    (fs gs : List CanFrame) → AllSendable fs → AllSendable gs → AllSendable (fs ++ gs)
AllSendable-append [] gs p q = q
AllSendable-append (f ∷ fs) gs p q = (p.0, AllSendable-append fs gs p.1 q)

pub take_short : (n : ℕ) (xs : List ℕ) → length xs ≤ n → take n xs ≡ xs
take_short zero [] h = refl
take_short zero (x ∷ xs) h = absurd (omega arith)
take_short (suc n) [] h = refl
take_short (suc n) (x ∷ xs) h = ap (λ t. x ∷ t) (take_short n xs (omega arith))

-- The frames of a record come out, with nothing more if what follows them is silent.
feed-encode :
    (g : List CanFrame) (bs : List ℕ) (r : BootRelay)
    → AllSendable g
    → r.need ≡ 0
    → ((s : BootRelay) → s.need ≡ 0 → (feed_all bs s).0 ≡ [])
    → (feed_all (encode g ++ bs) r).0 ≡ g
unfolding encode closed
feed-encode [] bs r h z quiet = quiet r z
feed-encode (f ∷ g) bs r h z quiet =
    let raw = f.id % 256 ∷ f.id / 256 % 256 ∷ f.bytes in
    let one = feed-relay_bytes f r (encode g ++ bs) h.0 z in
    let rest = feed-encode g bs (closed raw) h.1 refl quiet in
    let whole = take_short 8 f.bytes h.0.short in
    ground (arith, whole, one, rest, append_assoc (relay_bytes f.id f.bytes) (encode g) bs)

pub feed-payload :
    (g : List CanFrame) (r : BootRelay)
    → AllSendable g
    → r.need ≡ 0
    → (feed_all (payload g) r).0 ≡ g
unfolding feed_all feed
feed-payload g r h z =
    let whole = feed-encode g [] r h z (λ s e. refl) in
    let padded = feed-encode g (0 ∷ []) r h z (λ s e. ground arith) in
    ground (arith, whole, padded, append-nil (encode g))

pub plain_bytes-append :
    (xs ys : List ℕ) → plain_bytes xs ≡ true → plain_bytes ys ≡ true → plain_bytes (xs ++ ys) ≡ true
plain_bytes-append [] ys p q = q
plain_bytes-append (x ∷ xs) ys p q = ground (arith, plain_bytes-append xs ys)

plain_bytes-escape : (xs : List ℕ) → all_bytes xs ≡ true → plain_bytes (escape xs) ≡ true
unfolding escape escape_byte
plain_bytes-escape [] h = refl
plain_bytes-escape (x ∷ xs) h =
    plain_bytes-append (escape_byte x) (escape xs) (ground arith)
      (plain_bytes-escape xs (ground arith))

abbrev mark_test : ℕ → Bool
mark_test n = ltb (bit_or relay_frame_mark n) 256 && not (bit_or relay_frame_mark n == 0x55)

mark_table : holds_from mark_test 0 9 ≡ true
unfolding holds_from
mark_table = refl

plain_bytes-relay_bytes :
    (f : CanFrame) → Sendable f → plain_bytes (relay_bytes f.id f.bytes) ≡ true
unfolding relay_bytes
plain_bytes-relay_bytes f s =
    let n = length f.bytes in
    let mark = at_table mark_test 9 {k = n} mark_table (omega (arith, s.short)) in
    let ids : all_bytes (f.id % 256 ∷ f.id / 256 % 256 ∷ f.bytes) ≡ true =
      ground (arith, s.bytes) in
    ground (arith, mark, plain_bytes-escape (f.id % 256 ∷ f.id / 256 % 256 ∷ f.bytes) ids)

pub plain_bytes-encode : (g : List CanFrame) → AllSendable g → plain_bytes (encode g) ≡ true
unfolding encode
plain_bytes-encode [] h = refl
plain_bytes-encode (f ∷ g) h = rw (take_short 8 f.bytes h.0.short) (
    plain_bytes-append (relay_bytes f.id f.bytes) (encode g) (plain_bytes-relay_bytes f h.0)
      (plain_bytes-encode g h.1))
