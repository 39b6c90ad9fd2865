-- ===== src/Boot/Reply.antt =====
-- `enum class Reply` (BootProtocol.h), the first byte of a frame to the host.
use open_skyhawk.Base.{ℕ}

abbrev pub connected : ℕ
connected = 0x81

abbrev pub begun : ℕ
begun = 0x82

abbrev pub block_ack : ℕ
block_ack = 0x90

abbrev pub announce : ℕ
announce = 0xA0

abbrev pub ended : ℕ
ended = 0xB0

abbrev pub going : ℕ
going = 0xC0

abbrev pub node_set : ℕ
node_set = 0xD0
