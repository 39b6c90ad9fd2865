-- ===== src/Upload/Staging.antt =====
-- What may be flashed: only an image that the uploader has checked.
use open_skyhawk.Base.{ℕ, ◌<◌, ◌≡◌, ◌⊎◌, Bool, true, false, Option, none, some}
use open_skyhawk.Boot.Flash.{Mem}
use open_skyhawk.Boot.Protocol.{identity_magic}
use open_skyhawk.Upload.Kind
use open_skyhawk.Upload.Nack
use open_skyhawk.Upload.Protocol.{UplState, staged, flashing}
use open_skyhawk.Upload.Image.{id_magic, id_length, id_crc, image_crc}
use open_skyhawk.Upload.Session.{Uploader}
use open_skyhawk.Upload.Client.{Bundle, bundle_image, has_identity}
use open_skyhawk.Upload.Keeps.{Keeps}

-- The image's bytes have the checksum that the client named, and its identity block agrees.
pub record Verified (u : Uploader) : Type 0 where
  pub checked : image_crc u.img u.len ≡ u.crc
  pub magic : id_magic u.img ≡ identity_magic
  pub length : id_length u.img ≡ u.len
  pub crc : id_crc u.img ≡ u.crc

abbrev pub is_held : UplState → Bool
is_held staged = true
is_held flashing = true
is_held _ = false

-- The image is the build's bundle: its identity block was found, and it is copied whole.
unfoldable pub IsBundled : Option Bundle → Mem → ℕ → ℕ → Type 0
IsBundled none m n k = false ≡ true
IsBundled (some b) m n k =
    (has_identity (some b) ≡ true)
    × (m ≡ bundle_image b)
    × (n ≡ id_length b.image)
    × (k ≡ id_crc b.image)

-- An image that is staged or being flashed is verified or the bundle, and past its length the buffer
-- is 0xFF.
pub record IsStaged (bundle : Option Bundle) (u : Uploader) : Type 0 where
  pub sound : (is_held u.state ≡ false) ⊎ (Verified u ⊎ IsBundled bundle u.img u.len u.crc)
  pub padded : (i : ℕ) → (i < u.len) ⊎ (u.img i ≡ 0xFF)
