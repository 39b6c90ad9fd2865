-- ===== src/Boot/Image.antt =====
-- The image checks: `crc_feed`, `identity_ok` and `app_valid`.
pub mod Crc
use open_skyhawk.Base.{ℕ, zero, suc, ◌+◌, ◌/◌, ◌%◌, Bool, ◌&&◌, ◌==◌, ltb, leb, if◌then◌else◌}
use open_skyhawk.Boot.Protocol.{app_addr, identity_offset, identity_magic, sram_base, ram_end, u32}
use open_skyhawk.Boot.Flash.{Mem, rd8, rd16, le32, Chip, flash_end}

-- The identity block's fields (FirmwareImage::Identity), read from flash.
abbrev pub identity : ℕ
identity = app_addr + identity_offset

abbrev pub id_magic : Mem → ℕ
id_magic m = le32 m identity

abbrev pub id_layout : Mem → ℕ
id_layout m = rd16 m (identity + 4)

abbrev pub id_length : Mem → ℕ
id_length m = le32 m (identity + 8)

abbrev pub id_crc : Mem → ℕ
id_crc m = le32 m (identity + 12)

abbrev pub id_node : Mem → ℕ
id_node m = rd8 m (identity + 16)

abbrev pub id_kind : Mem → ℕ
id_kind m = rd8 m (identity + 17)

-- CRC_WORD: the offset of the imageCrc word, which the sum skips
abbrev pub crc_skip : ℕ
crc_skip = 0x20C

abbrev pub crc_reset : ℕ
crc_reset = 0xFFFFFFFF

module _ (c : Chip) where
  -- the loop of `crc_feed`, at byte `i` of `d` with `k` words to go
  unfoldable pub crc_feed_from : ℕ → ℕ → Mem → ℕ → ℕ → ℕ
  crc_feed_from zero i d base dr = dr
  crc_feed_from (suc k) i d base dr =
      crc_feed_from k (i + 4) d base (if base + i == crc_skip then dr else c.crc_word dr (le32 d i))

  -- `crc_feed(d, n, base, CRC_WORD)` with the data register at `dr`
  unfoldable pub crc_feed : Mem → ℕ → ℕ → ℕ → ℕ
  unfolding crc_feed_from
  crc_feed d n base dr = crc_feed_from ((n + 3) / 4) 0 d base dr

  unfoldable pub identity_ok : Mem → ℕ → ℕ → Bool
  unfolding flash_end
  identity_ok m vec_sp vec_pc =
      id_magic m == identity_magic
      && leb 1 (id_layout m)
      && ltb (identity_offset + 32) (id_length m)
      && id_length m % 4 == 0
      && leb (u32 (app_addr + id_length m)) (flash_end c)
      && ltb sram_base vec_sp
      && leb vec_sp ram_end
      && ltb app_addr vec_pc
      && ltb vec_pc (u32 (app_addr + id_length m))

  -- the whole image as `app_valid` sums it, by its offset from APP_ADDR
  unfoldable pub image_crc : Mem → ℕ
  unfolding crc_feed
  image_crc m = crc_feed (λ i. m (app_addr + i)) (id_length m) 0 crc_reset

  unfoldable pub app_valid : Mem → Bool
  unfolding identity_ok image_crc
  app_valid m = identity_ok m (le32 m app_addr) (le32 m (app_addr + 4)) && image_crc m == id_crc m
