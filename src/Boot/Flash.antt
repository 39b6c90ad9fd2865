-- ===== src/Boot/Flash.antt =====
-- Flash as the bootloader drives it: `flash_erase`, `flash_program`, `flash_write` and the reads.
-- The flash controller itself is hardware: `Chip` is what a register sequence on it does.
pub mod Write
use open_skyhawk.Base.{
  ℕ, zero, suc, ◌+◌, ◌*◌, ◌/◌, ◌%◌, ◌^◌, ◌≡◌, ◌≢◌, Bool, true, false, ◌&&◌, List, get_or, ◌==◌,
}
use open_skyhawk.Boot.Protocol.{flash_base}

-- Memory by absolute address; a cell is read as a byte.
abbrev pub Mem : Type 0
Mem = ℕ → ℕ

abbrev pub rd8 : Mem → ℕ → ℕ
rd8 m a = m a % 256

abbrev pub rd16 : Mem → ℕ → ℕ
rd16 m a = rd8 m a + 256 * rd8 m (a + 1)

-- `le32`, of the four bytes of `d` from `i` on
abbrev pub le32 : Mem → ℕ → ℕ
le32 d i = rd8 d i + 2 ^ 8 * rd8 d (i + 1) + 2 ^ 16 * rd8 d (i + 2) + 2 ^ 24 * rd8 d (i + 3)

pub record Erased : Type 0 where
  pub done : Bool
  pub mem : Mem
  pub took_ms : ℕ

pub record Programmed : Type 0 where
  pub done : Bool
  pub mem : Mem

-- The chip: a page erase at an address, a halfword programmed at an address, the option bytes'
-- erase and programming (value bytes by index), the CRC unit's data register after one more word,
-- the flash size in KB and the UID hash.
pub record Chip : Type 0 where
  pub erase : Mem → ℕ → Erased
  pub program : Mem → ℕ → ℕ → Programmed
  pub erase_options : List ℕ → Bool × List ℕ
  pub program_option : List ℕ → ℕ → ℕ → Bool × List ℕ
  pub crc_word : ℕ → ℕ → ℕ
  pub flash_kb : ℕ
  pub uid16 : ℕ

-- What the reference manual says of a page erase and of programming a halfword: an erase that reports
-- success leaves its page erased, and neither touches anything outside.
pub record IsFlash (c : Chip) : Type 0 where
  pub erase_clears :
      (m : Mem) (a x : ℕ)
      → (c.erase m a).done ≡ true
      → x / 1024 ≡ a / 1024
      → (c.erase m a).mem x ≡ 255
  pub erase_blank : (m : Mem) (a x : ℕ) → m x ≡ 255 → (c.erase m a).mem x ≡ 255
  pub erase_keeps : (m : Mem) (a x : ℕ) → x / 1024 ≢ a / 1024 → (c.erase m a).mem x ≡ m x
  pub program_keeps : (m : Mem) (a v x : ℕ) → x ≢ a → x ≢ a + 1 → (c.program m a v).mem x ≡ m x

module _ (c : Chip) where
  unfoldable pub flash_end : ℕ
  flash_end = flash_base + c.flash_kb * 1024

  -- `flash_program(…, FLASH_CR_PG)`: the controller's verdict and the read back
  unfoldable pub flash_program : Mem → ℕ → ℕ → Programmed
  flash_program m a v =
      let p = c.program m a v in record { done = p.done && rd16 p.mem a == v; mem = p.mem }

  -- the loop of `flash_write`, at byte `i` with `k` halfwords to go
  unfoldable pub flash_write_from : ℕ → ℕ → Mem → ℕ → List ℕ → Programmed
  flash_write_from zero i m addr d = record { done = true; mem = m }
  flash_write_from (suc k) i m addr d =
      let p = flash_program m (addr + i) (get_or d i 0 % 256 + 256 * (get_or d (i + 1) 0 % 256)) in
      elim p.done [ true ↦ flash_write_from k (i + 2) p.mem addr d | false ↦ p ]

  -- `flash_write(addr, d, n)`, n even
  unfoldable pub flash_write : Mem → ℕ → List ℕ → ℕ → Programmed
  unfolding flash_write_from
  flash_write m addr d n = flash_write_from (n / 2) 0 m addr d
