-- ===== src/Gateway/CalType.antt =====
-- CAL_T_* (AxisCal.h), the types of the calibration's frames; those of the uploader are `Upload.Kind`.
use open_skyhawk.Base.{ℕ}

abbrev pub hello : ℕ
hello = 0x01

abbrev pub get_cal : ℕ
get_cal = 0x02

abbrev pub session_open : ℕ
session_open = 0x03

abbrev pub session_close : ℕ
session_close = 0x04

abbrev pub commit : ℕ
commit = 0x05

abbrev pub reset : ℕ
reset = 0x06

abbrev pub keepalive : ℕ
keepalive = 0x07

abbrev pub stream_select : ℕ
stream_select = 0x08

abbrev pub get_diag : ℕ
get_diag = 0x09

abbrev pub hello_ack : ℕ
hello_ack = 0x81

abbrev pub cal_data : ℕ
cal_data = 0x82

abbrev pub session_ack : ℕ
session_ack = 0x83

abbrev pub ack : ℕ
ack = 0x84

abbrev pub nack : ℕ
nack = 0x85

abbrev pub raw : ℕ
raw = 0x86

abbrev pub diag : ℕ
diag = 0x87
