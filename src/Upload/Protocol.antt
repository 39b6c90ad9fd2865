-- ===== src/Upload/Protocol.antt =====
-- The upload protocol between the client and the Gateway: UploadProtocol.h, the type and refusal codes
-- of AxisCal.h that it uses, and the timing constants of Uploader.cpp.
use open_skyhawk.Base.{ℕ, ◌*◌}

pub data UplState : Type 0 where
  idle staging staged flashing : UplState

unfoldable pub state_code : UplState → ℕ
state_code idle = 0
state_code staging = 1
state_code staged = 2
state_code flashing = 3

pub data UplPhase : Type 0 where
  entering_boot connected setting_id erasing writing verifying rebooting confirming : UplPhase

unfoldable pub phase_code : UplPhase → ℕ
phase_code entering_boot = 1
phase_code connected = 2
phase_code setting_id = 3
phase_code erasing = 4
phase_code writing = 5
phase_code verifying = 6
phase_code rebooting = 7
phase_code confirming = 8

pub data UplResult : Type 0 where
  none ok no_response no_bootloader id_mismatch kind_mismatch too_big_for_board : UplResult
  write_failed verify_failed version_mismatch timeout unsupported : UplResult

unfoldable pub result_code : UplResult → ℕ
result_code none = 0x00
result_code ok = 0x01
result_code no_response = 0x02
result_code no_bootloader = 0x03
result_code id_mismatch = 0x04
result_code kind_mismatch = 0x05
result_code too_big_for_board = 0x06
result_code write_failed = 0x07
result_code verify_failed = 0x08
result_code version_mismatch = 0x09
result_code timeout = 0x0A
result_code unsupported = 0x0B

abbrev pub upl_proto_version : ℕ
upl_proto_version = 1

abbrev pub upl_max_image_bytes : ℕ
upl_max_image_bytes = 124 * 1024

abbrev pub upl_chunk_bytes : ℕ
upl_chunk_bytes = 256

abbrev pub upl_target_bridge : ℕ
upl_target_bridge = 0x00

abbrev pub upl_target_unconfigured : ℕ
upl_target_unconfigured = 0xFE

abbrev pub upl_retries : ℕ
upl_retries = 2

abbrev pub session_idle_ms : ℕ
session_idle_ms = 30000

abbrev pub client_gone_ms : ℕ
client_gone_ms = 5000

abbrev pub status_every_ms : ℕ
status_every_ms = 250

abbrev pub connect_every_ms : ℕ
connect_every_ms = 100

abbrev pub enter_timeout_ms : ℕ
enter_timeout_ms = 10000

abbrev pub reply_timeout_ms : ℕ
reply_timeout_ms = 3000

abbrev pub erase_timeout_ms : ℕ
erase_timeout_ms = 6000

abbrev pub ack_timeout_ms : ℕ
ack_timeout_ms = 500

abbrev pub max_stalls : ℕ
max_stalls = 6

abbrev pub confirm_timeout_ms : ℕ
confirm_timeout_ms = 10000

-- WINDOW_BLOCKS (BootProtocol.h)
abbrev pub window_blocks : ℕ
window_blocks = 4
