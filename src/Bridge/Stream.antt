-- ===== src/Bridge/Stream.antt =====
-- The records of the uploader as writes of the export stream, and those writes as bytes for the relay.
use open_skyhawk.Base.{
  ℕ, ◌+◌, ◌*◌, ◌/◌, ◌%◌, ◌^◌, ◌≤◌, ◌<◌, ◌≡◌, refl, Bool, true, not, ◌&&◌, List, [], ◌∷◌, ◌++◌,
  append_assoc, length, map, arith, ◌==◌, ltb,
}
use open_skyhawk.Upload.Wire.{relay_export_address, export_record}
use open_skyhawk.Upload.Records.{concat}
use open_skyhawk.Bridge.Relay.{BootRelay, feed, feed_all, on_write, on_writes}

-- The words of a record as writes: each with its address.
abbrev pub words_from : ℕ → List ℕ → List (ℕ × ℕ)
words_from a [] = []
words_from a (x ∷ []) = []
words_from a (x ∷ y ∷ p) = (a, x + 2 ^ 8 * y) ∷ words_from (a + 2) p

abbrev pub words : List ℕ → List (ℕ × ℕ)
words p = words_from relay_export_address p

-- A record's bytes that the export stream carries as they are: whole words, at least one, no 0x55.
abbrev pub plain_bytes : List ℕ → Bool
plain_bytes [] = true
plain_bytes (b ∷ bs) = ltb b 256 && not (b == 0x55) && plain_bytes bs

pub record Plain (p : List ℕ) : Type 0 where
  pub plain : plain_bytes p ≡ true
  pub whole : length p % 2 ≡ 0
  pub fits : length p ≤ 64
  pub some_byte : 0 < length p

abbrev pub AllPlain : List (List ℕ) → Type 0
AllPlain [] = Unit
AllPlain (p ∷ ps) = Plain p × AllPlain ps

-- The DCS-BIOS export-stream parser on the bridge: the writes that it hands its listener for the bytes
-- of a stream. After the four sync bytes a record, if its bytes cannot be taken for sync bytes, is a
-- write of each of its words, at ascending addresses.
pub record ExportParser : Type 0 where
  pub parse : List ℕ → List (ℕ × ℕ)
  pub parse_records :
      (ps : List (List ℕ))
      → AllPlain ps
      → parse ((0x55 ∷ 0x55 ∷ 0x55 ∷ 0x55 ∷ []) ++ concat (map export_record ps))
        ≡ concat (map words ps)

pub on_writes-append :
    (vs ws : List (ℕ × ℕ)) (r : BootRelay)
    → on_writes (vs ++ ws) r ≡ (
      (on_writes vs r).0 ++ (on_writes ws (on_writes vs r).1).0,
      (on_writes ws (on_writes vs r).1).1,
    )
unfolding on_writes
on_writes-append [] ws r = refl
on_writes-append ((a, v) ∷ vs) ws r =
    let one = on_write a v r in
    rw (on_writes-append vs ws one.1) (
      ground
        (arith, append_assoc one.0 (on_writes vs one.1).0 (on_writes ws (on_writes vs one.1).1).0))

-- Words after the first of a record are fed byte by byte.
on_writes-words_from :
    (p : List ℕ) (a : ℕ) (r : BootRelay)
    → plain_bytes p ≡ true
    → length p % 2 ≡ 0
    → relay_export_address < a
    → on_writes (words_from a p) r ≡ feed_all p r
unfolding on_writes on_write feed_all
on_writes-words_from [] a r h e q = refl
on_writes-words_from (x ∷ []) a r h e q = absurd (omega arith)
on_writes-words_from (x ∷ y ∷ p) a r h e q =
    let lo : (x + 2 ^ 8 * y) % 256 ≡ x = ground arith in
    let hi : (x + 2 ^ 8 * y) / 256 % 256 ≡ y = ground arith in
    let r1 = feed x r in
    let r2 = feed y r1.1 in
    let rest = on_writes-words_from p (a + 2) r2.1 (ground arith) (omega arith) (omega arith) in
    ground (arith, lo, hi, rest, append_assoc r1.0 r2.0 (feed_all p r2.1).0)

-- A record starts the relay afresh.
pub on_writes-words :
    (p : List ℕ) (r : BootRelay)
    → Plain p
    → on_writes (words p) r ≡ feed_all p (record r { need = 0 })
unfolding on_writes on_write feed_all
on_writes-words [] r h = absurd (omega (arith, h.some_byte))
on_writes-words (x ∷ []) r h = absurd (omega (arith, h.whole))
on_writes-words (x ∷ y ∷ p) r h =
    let e = h.plain in
    let lo : (x + 2 ^ 8 * y) % 256 ≡ x = ground arith in
    let hi : (x + 2 ^ 8 * y) / 256 % 256 ≡ y = ground arith in
    let r1 = feed x (record r { need = 0 }) in
    let r2 = feed y r1.1 in
    let rest =
      on_writes-words_from p (relay_export_address + 2) r2.1 (ground arith) (omega (arith, h.whole))
        (omega arith) in
    ground (arith, lo, hi, rest, append_assoc r1.0 r2.0 (feed_all p r2.1).0)
