-- ===== src/Upload/Kind.antt =====
-- CAL_T_UPL_* (AxisCal.h), the types of the frames between the client and the uploader.
use open_skyhawk.Base.{ℕ}

abbrev pub info : ℕ
info = 0x10

abbrev pub upl_begin : ℕ
upl_begin = 0x11

abbrev pub chunk : ℕ
chunk = 0x12

abbrev pub upl_end : ℕ
upl_end = 0x13

abbrev pub flash : ℕ
flash = 0x14

abbrev pub abort : ℕ
abort = 0x15

abbrev pub info_ack : ℕ
info_ack = 0x90

abbrev pub status : ℕ
status = 0x91

abbrev pub result : ℕ
result = 0x92
