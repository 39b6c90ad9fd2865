-- ===== src/Pdu/Cal.antt =====
-- The calibration log of `CalStore` (PowerMonitor/PduCalStore.h and .cpp) and `crc32` of PduMath.cpp.
use open_skyhawk.Base.{
  ℕ, zero, suc, ◌+◌, ◌-◌, ◌*◌, ◌/◌, ◌%◌, ◌^◌, ◌≤◌, ◌<◌, ◌≡◌, ◌⊎◌, Bool, true, false, not, ◌&&◌,
  List, [], ◌∷◌, get_or, set, replicate, bit_and, bit_xor, ◌==◌, leb, if◌then◌else◌,
}
use open_skyhawk.Base.Int.{ℤ, pos, negsuc}

-- `crc32`: one bit, one byte, all bytes
abbrev pub crc32_bit : ℕ → ℕ
crc32_bit crc = bit_xor (crc / 2) (if crc % 2 == 1 then 0xEDB88320 else 0)

unfoldable pub crc32_bits : ℕ → ℕ → ℕ
crc32_bits zero crc = crc
crc32_bits (suc k) crc = crc32_bits k (crc32_bit crc)

unfoldable pub crc32_from : ℕ → List ℕ → ℕ → ℕ → ℕ
crc32_from crc bytes i zero = crc
crc32_from crc bytes i (suc k) =
    crc32_from (crc32_bits 8 (bit_xor crc (get_or bytes i 0))) bytes (i + 1) k

unfoldable pub crc32 : List ℕ → ℕ → ℕ
crc32 bytes len = 2 ^ 32 - 1 - crc32_from (2 ^ 32 - 1) bytes 0 len

-- `CalRecord`, a packed struct: its 32 bytes, read and written by offset
abbrev pub CalRecord : Type 0
CalRecord = List ℕ

abbrev pub get16 : CalRecord → ℕ → ℕ
get16 r i = get_or r i 0 + 2 ^ 8 * get_or r (i + 1) 0

abbrev pub get32 : CalRecord → ℕ → ℕ
get32 r i = get16 r i + 2 ^ 16 * get16 r (i + 2)

abbrev pub put16 : ℕ → ℕ → CalRecord → CalRecord
put16 i v r = set (set r i (v % 256)) (i + 1) (v / 256 % 256)

abbrev pub put32 : ℕ → ℕ → CalRecord → CalRecord
put32 i v r = put16 (i + 2) (v / 2 ^ 16) (put16 i v r)

abbrev pub cal_magic : ℕ
cal_magic = 0x4C414350

abbrev pub cal_version : ℕ
cal_version = 1

abbrev pub cal_slots : ℕ
cal_slots = 32

abbrev pub gain_unity : ℕ
gain_unity = 10000

-- `calSeal(rec)`
unfoldable pub cal_seal : CalRecord → CalRecord
cal_seal r = let r = put16 22 0 (set (put32 0 cal_magic r) 4 cal_version) in put32 28 (crc32 r 28) r

-- `calValid(rec)`
unfoldable pub cal_valid : CalRecord → Bool
cal_valid r = get32 r 0 == cal_magic && (get_or r 4 0 == cal_version && get32 r 28 == crc32 r 28)

-- `calDefaults()`
unfoldable pub cal_defaults : CalRecord
cal_defaults = cal_seal (
    put16 12 gain_unity
      (put16 14 gain_unity (put16 16 gain_unity (put16 18 gain_unity (replicate 32 0)))))

-- an int16_t field
abbrev pub get_i16 : CalRecord → ℕ → ℤ
get_i16 r i = if leb (2 ^ 15) (get16 r i) then negsuc (2 ^ 16 - 1 - get16 r i) else pos (get16 r i)

pub record CalValues : Type 0 where
  pub vrefint_mv : ℕ
  pub zero12_dma : ℤ
  pub zero5_dma : ℤ
  pub i_gain12 : ℕ
  pub i_gain5 : ℕ
  pub v_gain12 : ℕ
  pub v_gain5 : ℕ
  pub ntc_offset_dc : ℤ

-- `calValues(rec)`
unfoldable pub cal_values : CalRecord → CalValues
cal_values r = record {
  vrefint_mv = if bit_and (get_or r 5 0) 0x01 == 0 then 0 else get16 r 6;
  zero12_dma = get_i16 r 8;
  zero5_dma = get_i16 r 10;
  i_gain12 = get16 r 12;
  i_gain5 = get16 r 14;
  v_gain12 = get16 r 16;
  v_gain5 = get16 r 18;
  ntc_offset_dc = get_i16 r 20;
}

abbrev pub Mem : Type 0
Mem = ℕ → ℕ

-- The flash as the HAL gives it: HAL_FLASHEx_Erase of one page, and HAL_FLASH_Program of a word, each
-- with whether it returned HAL_OK.
pub record Hal : Type 0 where
  pub erase : Mem → ℕ → Bool × Mem
  pub program : Mem → ℕ → ℕ → Bool × Mem

-- Programming a word touches no byte outside the word.
pub record IsHal (h : Hal) : Type 0 where
  pub program_keeps : (m : Mem) (a v x : ℕ) → (x < a) ⊎ (a + 4 ≤ x) → (h.program m a v).1 x ≡ m x

-- `n` bytes of memory
abbrev pub read : Mem → ℕ → ℕ → List ℕ
read m a zero = []
read m a (suc n) = m a % 256 ∷ read m (a + 1) n

-- `slotEmpty`, of the words from `i` on
abbrev pub words_empty : ℕ → ℕ → CalRecord → Bool
words_empty i zero r = true
words_empty i (suc k) r =
    let rest = words_empty (i + 4) k r in if not (get32 r i == 0xFFFFFFFF) then false else rest

unfoldable pub slot_empty : CalRecord → Bool
slot_empty r = words_empty 0 8 r

-- the log in the page at `base`
module _ (base : ℕ) where
  -- `slot(i)`
  unfoldable pub slot : Mem → ℕ → CalRecord
  slot m i = read m (base + i * 32) 32

  -- `usedSlots()`, from slot `n` with `k` left
  unfoldable pub used_from : Mem → ℕ → ℕ → ℕ
  used_from m n zero = n
  used_from m n (suc k) =
      let rest = used_from m (n + 1) k in if not (slot_empty (slot m n)) then rest else n

  abbrev pub used_slots : Mem → ℕ
  used_slots m = used_from m 0 cal_slots

  -- the loop of `load`, over the slots below `n`
  unfoldable pub load_from : Mem → ℕ → Bool × CalRecord
  load_from m zero = (false, cal_defaults)
  load_from m (suc n) =
      let rest = load_from m n in if cal_valid (slot m n) then (true, slot m n) else rest

  -- `load(out)`
  unfoldable pub load : Mem → Bool × CalRecord
  load m = load_from m (used_slots m)

module _ (h : Hal) (base : ℕ) where
  -- the words of `r` from the `k`-th, programmed while all is well
  unfoldable pub program_words : ℕ → ℕ → CalRecord → ℕ → Mem → Bool × Mem
  program_words zero k r addr m = (true, m)
  program_words (suc n) k r addr m =
      let (ok, m') = h.program m (addr + k * 4) (get32 r (k * 4)) in
      let rest = program_words n (k + 1) r addr m' in if ok then rest else (false, m')

  -- `rec` as `save` seals it
  unfoldable pub next_record : CalRecord → Mem → CalRecord
  next_record r m =
      let (found, prev) = load base m in
      cal_seal (put32 24 (if found then (get32 prev 24 + 1) % 2 ^ 32 else 1) r)

  -- the write of `save`, to slot `i`
  unfoldable pub write_slot : ℕ → CalRecord → Mem → Bool × Mem
  write_slot i r m =
      let (ok, m') = program_words 8 0 r (base + i * 32) m in (ok && cal_valid (slot base m' i), m')

  -- `save(rec)`
  unfoldable pub save : CalRecord → Mem → Bool × Mem
  save r m =
      let r = next_record r m in
      let i = used_slots base m in
      let (erased, e) = h.erase m base in
      if leb cal_slots i
      then (if not erased then (false, e) else write_slot 0 r e)
      else write_slot i r m
