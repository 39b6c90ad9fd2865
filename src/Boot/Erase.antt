-- ===== src/Boot/Erase.antt =====
-- `begin` and the erase loop (main.cpp): what is erased, what is kept, and what is refused.
use open_skyhawk.Base.{
  ltb, Bool, if◌then◌else◌, leb, ◌&&◌, ℕ, zero, suc, ◌+◌, ◌-◌, ◌*◌, ◌/◌, ◌%◌, ◌^◌, ◌≤◌, ◌<◌, ◌≡◌,
  ◌⊎◌, refl, ap, arith, true, false,
}
use open_skyhawk.Boot.Protocol.{ok, app_addr, block_size, page, u32}
use open_skyhawk.Boot.Flash.{Mem, le32, Chip, IsFlash, flash_end}
use open_skyhawk.Boot.Image.{app_valid}
use open_skyhawk.Boot.Session.{announce, Board, service, erase_pages, begin}

-- The first block, and so the vector table, reads erased.
abbrev pub IsBlank : Mem → Type 0
IsBlank m = (x : ℕ) → app_addr ≤ x → x < app_addr + block_size → m x ≡ 255

-- The pages that a BEGIN of `len` bytes needs: those that its whole blocks reach.
abbrev pub needs_page : ℕ → ℕ → Bool
needs_page len x = leb app_addr x && ltb (x / page * page) (app_addr + (len + 63) / 64 * 64)

module _ (c : Chip) where
  -- A board whose first block is erased has no valid app: its stack pointer is out of RAM.
  pub app_valid_of_IsBlank : (m : Mem) → IsBlank m → app_valid c m ≡ false
  unfolding app_valid
  app_valid_of_IsBlank m h =
      let sp : le32 m app_addr ≡ 0xFFFFFFFF = omega (
        arith,
        h app_addr (omega arith) (omega arith),
        h (app_addr + 1) (omega arith) (omega arith),
        h (app_addr + 2) (omega arith) (omega arith),
        h (app_addr + 3) (omega arith) (omega arith),
      ) in
      ground arith

  pub service_keeps : (b : Board) → ((service c b).mem ≡ b.mem) × ((service c b).ses ≡ b.ses)
  unfolding service announce
  service_keeps b = ground arith

  module _ (f : IsFlash c) where
    -- With fuel for the pages to come, a run that ends well has erased them all; what it never
    -- touches is below the first page or past the last one, whatever the outcome.
    erase_pages_keeps :
        (n a end : ℕ) (b : Board) (x : ℕ)
        → a % 1024 ≡ 0
        → (x < a) ⊎ (end ≤ x / 1024 * 1024)
        → (erase_pages c n a end b).1.mem x ≡ b.mem x
    unfolding erase_pages
    erase_pages_keeps zero a end b x al h = refl
    erase_pages_keeps (suc n) a end b x al h =
        let e = c.erase b.mem a in
        let b' = service c (record b { mem = e.mem; ms = u32 (b.ms + e.took_ms) }) in
        let same = service_keeps (record b { mem = e.mem; ms = u32 (b.ms + e.took_ms) }) in
        let rest = erase_pages_keeps n (a + page) end b' x in
        ground (arith, f.erase_keeps b.mem a x, ap (λ (m : Mem). m x) same.0)

    erase_pages_clears :
        (n a end : ℕ) (b : Board) (x : ℕ)
        → end ≤ a + n * 1024
        → a % 1024 ≡ 0
        → (erase_pages c n a end b).0 ≡ ok
        → a ≤ x
        → x / 1024 * 1024 < end
        → (erase_pages c n a end b).1.mem x ≡ 255
    unfolding erase_pages
    erase_pages_clears zero a end b x fuel al h p q = absurd (omega arith)
    erase_pages_clears (suc n) a end b x fuel al h p q =
        let e = c.erase b.mem a in
        let b' = service c (record b { mem = e.mem; ms = u32 (b.ms + e.took_ms) }) in
        let same = service_keeps (record b { mem = e.mem; ms = u32 (b.ms + e.took_ms) }) in
        let keeps = erase_pages_keeps n (a + page) end b' x in
        let rest = erase_pages_clears n (a + page) end b' x in
        ground (arith, f.erase_clears b.mem a x, ap (λ (m : Mem). m x) same.0)

  erase_pages-ses : (n a end : ℕ) (b : Board) → (erase_pages c n a end b).1.ses ≡ b.ses
  unfolding erase_pages
  erase_pages-ses zero a end b = refl
  erase_pages-ses (suc n) a end b =
      let e = c.erase b.mem a in
      let b1 = record b { mem = e.mem; ms = u32 (b.ms + e.took_ms) } in
      let rest = erase_pages-ses n (a + page) end (service c b1) in
      let same = (service_keeps b1).1 in ground arith

  -- A length with which the image, rounded up to whole blocks of 64 bytes, ends at an address below
  -- 2 ^ 32, and that BEGIN accepts, is not 0 and fits the flash; every page that the image needs is
  -- erased, all other flash is as it was, and the session is open at block 0.
  pub begin_erases :
      (len : ℕ) (b : Board) {b' : Board} (x : ℕ)
      → IsFlash c
      → app_addr + (len + (block_size - 1)) / block_size * block_size < 2 ^ 32
      → begin c len b ≡ (ok, b')
      → (0 < len)
        × (app_addr + len ≤ flash_end c)
        × (b'.mem x ≡ (if needs_page len x then 255 else b.mem x))
        × (b'.ses.active ≡ true)
        × (b'.ses.next ≡ 0)
        × (len ≤ b'.ses.total)
  unfolding begin
  begin_erases len b x f fits h =
      let total = u32 (len + (block_size - 1)) / block_size * block_size in
      let b1 = record b { ses = record (b.ses) { active = false; total = total; next = 0 } } in
      let end = u32 (app_addr + total) in
      let n = (end - app_addr) / page + 1 in
      let s = erase_pages-ses n app_addr end b1 in
      (
        ground arith,
        ground arith,
        ground (
          arith,
          erase_pages_clears f n app_addr end b1 x (omega arith) refl,
          erase_pages_keeps f n app_addr end b1 x refl,
        ),
        ground arith,
        ground arith,
        ground arith,
      )

  erase_pages_none : (n a end : ℕ) (b : Board) → end ≤ a → erase_pages c n a end b ≡ (ok, b)
  unfolding erase_pages
  erase_pages_none zero a end b h = refl
  erase_pages_none (suc n) a end b h = ground arith

  -- BEGIN accepts a 32-bit length with which the image, rounded up to whole blocks of 64 bytes, ends at
  -- 2 ^ 32 or above, erases nothing, and opens the session, on every chip of 4 KB or more.
  pub begin_wraps :
      (len : ℕ) (b : Board)
      → 4 ≤ c.flash_kb
      → 2 ^ 32 ≤ app_addr + (len + (block_size - 1)) / block_size * block_size
      → len < 2 ^ 32
      → ((begin c len b).0 ≡ ok)
        × ((begin c len b).1.mem ≡ b.mem)
        × ((begin c len b).1.ses.active ≡ true)
  unfolding begin flash_end
  begin_wraps len b k p q =
      let total = u32 (len + (block_size - 1)) / block_size * block_size in
      let b1 = record b { ses = record (b.ses) { active = false; total = total; next = 0 } } in
      let end = u32 (app_addr + total) in
      ground (arith, erase_pages_none ((end - app_addr) / page + 1) app_addr end b1 (omega arith))
