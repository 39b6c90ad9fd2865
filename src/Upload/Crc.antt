-- ===== src/Upload/Crc.antt =====
-- The two checks of an image: the uploader's over its buffer (Uploader.cpp), the bootloader's over its
-- flash (main.cpp).
use open_skyhawk.Base.{
  ℕ, zero, suc, ◌+◌, ◌*◌, ◌/◌, ◌%◌, ◌≤◌, ◌<◌, ◌≡◌, refl, sym, ap, ◌∙◌, arith, ◌==◌, if◌then◌else◌,
}
use open_skyhawk.Boot.Flash.{Mem, rd8, le32, Chip}
use open_skyhawk.Boot.Protocol.{app_addr, identity_offset, identity_magic}
use open_skyhawk.Boot.Image
use open_skyhawk.Boot.Image.Crc.{le32_congr}
use open_skyhawk.Upload.Image.{crc32_word, image_crc_from, image_crc}
use open_skyhawk.Upload.Session.{Uploader}
use open_skyhawk.Upload.Staging.{Verified}

-- The board's flash from APP_ADDR on holds the first `len` bytes of an image.
abbrev pub Holds : Mem → Mem → ℕ → Type 0
Holds m img len = (x : ℕ) → x < len → rd8 m (app_addr + x) ≡ rd8 img x

le32-Holds :
    (m img : Mem) (len i : ℕ)
    → Holds m img len
    → i + 3 < len
    → le32 (λ j. m (app_addr + j)) i ≡ le32 img i
le32-Holds m img len i h l =
    le32_congr (λ j. m (app_addr + j)) img i i (h i (omega arith)) (h (i + 1) (omega arith))
      (h (i + 2) (omega arith)) (h (i + 3) (omega arith))

module _ (c : Chip) (word : (s w : ℕ) → c.crc_word s w ≡ crc32_word s w) where
  feed-Holds :
      (k i : ℕ) (m img : Mem) (len s : ℕ)
      → Holds m img len
      → i + 4 * k ≤ len
      → Image.crc_feed_from c k i (λ j. m (app_addr + j)) 0 s ≡ image_crc_from k i img s
  unfolding Image.crc_feed_from image_crc_from
  feed-Holds zero i m img len s h l = refl
  feed-Holds (suc k) i m img len s h l =
      let w = le32-Holds m img len i h (omega arith) in
      let t = if i == identity_offset + 12 then s else crc32_word s (le32 img i) in
      let at_i : (0 + i) ≡ i = omega arith in
      let rest = feed-Holds k (i + 4) m img len t h (omega arith) in
      rw (at_i, w, word s (le32 img i)) rest

-- A board that holds an image that the uploader has verified finds, in its own check of the image, the
-- identity block and the CRC that the image names: for an image of whole words that holds its identity
-- block, on a chip whose CRC unit computes CRC-32/MPEG-2.
pub Verified-image_crc :
    (c : Chip) (m : Mem) (u : Uploader)
    → ((s w : ℕ) → c.crc_word s w ≡ crc32_word s w)
    → Verified u
    → Holds m u.img u.len
    → u.len % 4 ≡ 0
    → identity_offset + 32 ≤ u.len
    → (Image.id_magic m ≡ identity_magic)
      × (Image.id_length m ≡ u.len)
      × (Image.image_crc c m ≡ Image.id_crc m)
unfolding Image.image_crc Image.crc_feed image_crc
Verified-image_crc c m u word v h whole fits =
    let read = λ (i : ℕ) (l : i + 3 < u.len). le32-Holds m u.img u.len i h l in
    let magic : Image.id_magic m ≡ identity_magic = read identity_offset (omega arith) ∙ v.magic in
    let len : Image.id_length m ≡ u.len = read (identity_offset + 8) (omega arith) ∙ v.length in
    let crc : Image.id_crc m ≡ u.crc = read (identity_offset + 12) (omega arith) ∙ v.crc in
    let fed =
      feed-Holds c word ((u.len + 3) / 4) 0 m u.img u.len 0xFFFFFFFF h (omega (arith, whole)) in
    let sum =
      λ (n : ℕ). Image.crc_feed_from c ((n + 3) / 4) 0 (λ i. m (app_addr + i)) 0 0xFFFFFFFF in
    (magic, len, ap sum len ∙ (fed ∙ (v.checked ∙ sym crc)))
