-- ===== src/Boot/Flash/Write.antt =====
-- What `flash_write` leaves in flash.
use open_skyhawk.Base.{
  ℕ, zero, suc, ◌+◌, ◌*◌, ◌/◌, ◌%◌, ◌≤◌, ◌<◌, ◌≡◌, ◌⊎◌, refl, true, List, get_or, arith, ◌≢◌,
}
use open_skyhawk.Boot.Flash.{Mem, rd8, Chip, IsFlash, flash_program, flash_write_from, flash_write}

module _ (c : Chip) (f : IsFlash c) where
  flash_program_keeps :
      (m : Mem) (a v x : ℕ) → x ≢ a → x ≢ a + 1 → (flash_program c m a v).mem x ≡ m x
  unfolding flash_program
  flash_program_keeps m a v x p q = f.program_keeps m a v x p q

  -- A halfword read back as written has the two bytes.
  flash_program_reads :
      (m : Mem) (a u v : ℕ)
      → u < 256
      → v < 256
      → (flash_program c m a (u + 256 * v)).done ≡ true
      → (rd8 (flash_program c m a (u + 256 * v)).mem a ≡ u)
        × (rd8 (flash_program c m a (u + 256 * v)).mem (a + 1) ≡ v)
  unfolding flash_program
  flash_program_reads m a u v p q h = ground arith

  -- Nothing outside the bytes still to be written changes, whether or not the write succeeds.
  pub flash_write_from_keeps :
      (k i : ℕ) (m : Mem) (addr : ℕ) (d : List ℕ) (x : ℕ)
      → (x < addr + i) ⊎ (addr + i + 2 * k ≤ x)
      → (flash_write_from c k i m addr d).mem x ≡ m x
  unfolding flash_write_from
  flash_write_from_keeps zero i m addr d x h = refl
  flash_write_from_keeps (suc k) i m addr d x h = ground (
    arith,
    flash_program_keeps m (addr + i) (get_or d i 0 % 256 + 256 * (get_or d (i + 1) 0 % 256)) x,
    flash_write_from_keeps k (i + 2)
        (flash_program c m (addr + i) (get_or d i 0 % 256 + 256 * (get_or d (i + 1) 0 % 256))).mem
        addr d x,
  )

  pub flash_write_from_reads :
      (k i : ℕ) (m : Mem) (addr : ℕ) (d : List ℕ) (x : ℕ)
      → (flash_write_from c k i m addr d).done ≡ true
      → i ≤ x
      → x < i + 2 * k
      → rd8 (flash_write_from c k i m addr d).mem (addr + x) ≡ get_or d x 0 % 256
  unfolding flash_write_from
  flash_write_from_reads zero i m addr d x h p q = absurd (omega arith)
  flash_write_from_reads (suc k) i m addr d x h p q =
      let u = get_or d i 0 % 256 in
      let v = get_or d (i + 1) 0 % 256 in
      let w = flash_program c m (addr + i) (u + 256 * v) in
      let rest = flash_write_from_reads k (i + 2) w.mem addr d x in
      let keeps = flash_write_from_keeps k (i + 2) w.mem addr d (addr + x) in
      let reads = flash_program_reads m (addr + i) u v (omega arith) (omega arith) in
      let where_x : (x ≡ i) ⊎ ((x ≡ i + 1) ⊎ (i + 2 ≤ x)) = omega arith in ground arith

  -- `flash_write` of an even count `n` that succeeds leaves the bytes given; it changes no other.
  pub flash_write_keeps :
      (m : Mem) (addr : ℕ) (d : List ℕ) (n x : ℕ)
      → (x < addr) ⊎ (addr + n ≤ x)
      → (flash_write c m addr d n).mem x ≡ m x
  unfolding flash_write
  flash_write_keeps m addr d n x h = flash_write_from_keeps (n / 2) 0 m addr d x (omega arith)

  pub flash_write_reads :
      (m : Mem) (addr : ℕ) (d : List ℕ) (n x : ℕ)
      → (flash_write c m addr d n).done ≡ true
      → n % 2 ≡ 0
      → x < n
      → rd8 (flash_write c m addr d n).mem (addr + x) ≡ get_or d x 0 % 256
  unfolding flash_write
  flash_write_reads m addr d n x h e p =
      flash_write_from_reads (n / 2) 0 m addr d x h (omega arith) (omega arith)
