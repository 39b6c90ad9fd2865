-- ===== src/Boot/Protocol.antt =====
-- The bootloader's contract: Firmware/Libraries/BootProtocol/BootProtocol.h, the offsets of
-- Firmware/Libraries/FirmwareImage/FirmwareImage.h and the address constants of main.cpp.
use open_skyhawk.Base.{ℕ, ◌%◌, ◌^◌}

-- `enum class Status`
pub data Status : Type 0 where
  ok bad_crc flash_error out_of_range out_of_order no_app bad_image wrong_node wrong_kind : Status

unfoldable pub status_code : Status → ℕ
status_code ok = 0x00
status_code bad_crc = 0x01
status_code flash_error = 0x02
status_code out_of_range = 0x03
status_code out_of_order = 0x04
status_code no_app = 0x05
status_code bad_image = 0x06
status_code wrong_node = 0x07
status_code wrong_kind = 0x08

-- `enum class BootState`
pub data BootState : Type 0 where
  requested app_invalid unconfigured app_unstable caught : BootState

unfoldable pub boot_state_code : BootState → ℕ
boot_state_code requested = 0x01
boot_state_code app_invalid = 0x02
boot_state_code unconfigured = 0x03
boot_state_code app_unstable = 0x04
boot_state_code caught = 0x05

-- `uint32_t` arithmetic wraps.
abbrev pub u32 : ℕ → ℕ
u32 n = n % 2 ^ 32

abbrev pub protocol_version : ℕ
protocol_version = 1

abbrev pub block_size : ℕ
block_size = 64

abbrev pub data_bytes : ℕ
data_bytes = 7

abbrev pub data_frames : ℕ
data_frames = 10

abbrev pub announce_interval_ms : ℕ
announce_interval_ms = 1000

abbrev pub idle_timeout_ms : ℕ
idle_timeout_ms = 30000

abbrev pub attempt_limit : ℕ
attempt_limit = 3

-- FLASH_BASE, then APP_ADDR = FLASH_BASE + APP_OFFSET
abbrev pub flash_base : ℕ
flash_base = 0x08000000

abbrev pub app_addr : ℕ
app_addr = 0x08001000

-- the F103's page size
abbrev pub page : ℕ
page = 1024

-- SRAM_BASE and RAM_END
abbrev pub sram_base : ℕ
sram_base = 0x20000000

abbrev pub ram_end : ℕ
ram_end = 0x20005000

-- an erased option byte
abbrev pub unset : ℕ
unset = 0xFF

abbrev pub identity_offset : ℕ
identity_offset = 0x200

abbrev pub identity_magic : ℕ
identity_magic = 0x594B534F

-- NodeKind::BRIDGE (NodeStatus.h)
abbrev pub kind_bridge : ℕ
kind_bridge = 0x03
