-- ===== src/Upload/Nack.antt =====
-- CAL_NACK_* (AxisCal.h), the reasons of a refusal.
use open_skyhawk.Base.{ℕ}

abbrev pub bad_index : ℕ
bad_index = 0x04

abbrev pub no_session : ℕ
no_session = 0x06

abbrev pub busy : ℕ
busy = 0x09

abbrev pub too_large : ℕ
too_large = 0x0A

abbrev pub bad_offset : ℕ
bad_offset = 0x0B

abbrev pub image_crc : ℕ
image_crc = 0x0C

abbrev pub bad_image : ℕ
bad_image = 0x0D

abbrev pub not_staged : ℕ
not_staged = 0x0E
