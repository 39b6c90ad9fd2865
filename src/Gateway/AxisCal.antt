-- ===== src/Gateway/AxisCal.antt =====
-- The calibration of an axis and its blob in flash (AxisCal.cpp).
use open_skyhawk.Base.{
  ℕ, ◌+◌, ◌-◌, ◌*◌, ◌/◌, ◌%◌, ◌^◌, Bool, ◌&&◌, not, List, [], ◌∷◌, ◌++◌, ◌==◌, ltb, leb,
  if◌then◌else◌, bit_xor, replicate,
}
use open_skyhawk.Upload.Image.{crc16_steps}

-- `struct AxisCal`
pub record AxisCal : Type 0 where
  pub min : ℕ
  pub centre : ℕ
  pub max : ℕ
  pub deadzone : ℕ

-- `calCrc16`, of the bytes from the checksum `crc` on
unfoldable pub cal_crc16_from : ℕ → List ℕ → ℕ
cal_crc16_from crc [] = crc
cal_crc16_from crc (b ∷ bs) = cal_crc16_from (crc16_steps 8 (bit_xor crc (b * 256)) % 2 ^ 16) bs

unfoldable pub cal_crc16 : List ℕ → ℕ
cal_crc16 bs = cal_crc16_from 0xFFFF bs

-- `axisCalValid`
unfoldable pub axis_cal_valid : AxisCal → Bool
axis_cal_valid c = ltb (c.min + c.deadzone) c.centre && ltb (c.centre + c.deadzone) c.max

-- `axisCalApply`
unfoldable pub axis_cal_apply : AxisCal → ℕ → ℕ
axis_cal_apply c raw =
    if not (axis_cal_valid c)
    then raw
    else if leb raw c.min
    then 0
    else if leb c.max raw
    then 65535
    else if ltb raw c.centre
    then (raw - c.min) * 32768 / (c.centre - c.min)
    else 32768 + (raw - c.centre) * 32767 / (c.max - c.centre)

-- CAL_MAGIC, "OSKC", and CAL_VERSION
abbrev pub cal_magic : ℕ
cal_magic = 0x434B534F

abbrev pub cal_version : ℕ
cal_version = 1

-- AXIS_CAL_SLOTS
abbrev pub axis_cal_slots : ℕ
axis_cal_slots = 8

-- `struct CalBlob`
pub record CalBlob : Type 0 where
  pub magic : ℕ
  pub version : ℕ
  pub axes : List AxisCal
  pub crc : ℕ

abbrev pub bytes16 : ℕ → List ℕ
bytes16 v = v % 256 ∷ v / 256 % 256 ∷ []

-- the bytes of the axes, as they lie in the blob
unfoldable pub axes_bytes : List AxisCal → List ℕ
axes_bytes [] = []
axes_bytes (c ∷ cs) =
    bytes16 c.min ++ (bytes16 c.centre ++ (bytes16 c.max ++ (bytes16 c.deadzone ++ axes_bytes cs)))

-- `calBlobCrc`
unfoldable pub cal_blob_crc : CalBlob → ℕ
cal_blob_crc b = cal_crc16 (
    bytes16 (b.magic % 2 ^ 16)
    ++ (bytes16 (b.magic / 2 ^ 16) ++ (bytes16 b.version ++ axes_bytes b.axes)))

-- `calBlobValid`
unfoldable pub cal_blob_valid : CalBlob → Bool
cal_blob_valid b = b.magic == cal_magic && (b.version == cal_version && b.crc == cal_blob_crc b)

-- `calBlobClear`
unfoldable pub cal_blob_clear : CalBlob
cal_blob_clear = record {
  magic = 0;
  version = 0;
  axes = replicate axis_cal_slots (record { min = 0; centre = 0; max = 0; deadzone = 0 });
  crc = 0;
}

-- `calBlobSeal`
unfoldable pub cal_blob_seal : CalBlob → CalBlob
cal_blob_seal b =
    let c = record b { magic = cal_magic; version = cal_version } in
    record c { crc = cal_blob_crc c }
