-- ===== src/Upload/Image.antt =====
-- The staged image (Uploader.cpp): its buffer, its identity block and its two checksums.
use open_skyhawk.Base.{
  ℕ, zero, suc, ◌+◌, ◌*◌, ◌/◌, ◌%◌, ◌^◌, List, [], ◌∷◌, bit_xor, ◌==◌, leb, if◌then◌else◌,
}
use open_skyhawk.Boot.Flash.{Mem, rd8, le32}
use open_skyhawk.Boot.Protocol.{identity_offset}

-- The fields of `_id`, at their offsets in the image (FirmwareImage::Identity).
abbrev pub id_magic : Mem → ℕ
id_magic m = le32 m identity_offset

abbrev pub id_length : Mem → ℕ
id_length m = le32 m (identity_offset + 8)

abbrev pub id_crc : Mem → ℕ
id_crc m = le32 m (identity_offset + 12)

abbrev pub id_node : Mem → ℕ
id_node m = rd8 m (identity_offset + 16)

abbrev pub id_kind : Mem → ℕ
id_kind m = rd8 m (identity_offset + 17)

-- fwMajor, fwMinor and fwPatch
abbrev pub id_fw : Mem → ℕ × ℕ × ℕ
id_fw m = (rd8 m (identity_offset + 18), rd8 m (identity_offset + 19), rd8 m (identity_offset + 20))

-- `k` bits of CRC-32/MPEG-2
unfoldable pub crc32_steps : ℕ → ℕ → ℕ
crc32_steps zero c = c
crc32_steps (suc k) c =
    crc32_steps k (if leb (2 ^ 31) c then bit_xor (c * 2 % 2 ^ 32) 0x04C11DB7 else c * 2 % 2 ^ 32)

-- one word of it
unfoldable pub crc32_word : ℕ → ℕ → ℕ
crc32_word c w = crc32_steps 32 (bit_xor c w)

-- the loop of `imageCrc`, from byte `i` on with `k` words to go
unfoldable pub image_crc_from : ℕ → ℕ → Mem → ℕ → ℕ
image_crc_from zero i m c = c
image_crc_from (suc k) i m c =
    image_crc_from k (i + 4) m (if i == identity_offset + 12 then c else crc32_word c (le32 m i))

-- `imageCrc(len)`
unfoldable pub image_crc : Mem → ℕ → ℕ
image_crc m len = image_crc_from ((len + 3) / 4) 0 m 0xFFFFFFFF

-- `crc16(d, n)` of the bytes from `i` on: eight bits of CRC-16/CCITT-FALSE for each
unfoldable pub crc16_steps : ℕ → ℕ → ℕ
crc16_steps zero c = c
crc16_steps (suc k) c =
    crc16_steps k (if leb 0x8000 c then bit_xor (c * 2 % 2 ^ 16) 0x1021 else c * 2 % 2 ^ 16)

unfoldable pub crc16_bytes : Mem → ℕ → ℕ → ℕ → ℕ
crc16_bytes m i zero c = c
crc16_bytes m i (suc n) c = crc16_bytes m (i + 1) n (crc16_steps 8 (bit_xor c (rd8 m i * 256)))

-- `n` bytes from `i` on, as a list
unfoldable pub slice : Mem → ℕ → ℕ → List ℕ
slice m i zero = []
slice m i (suc n) = rd8 m i ∷ slice m (i + 1) n
