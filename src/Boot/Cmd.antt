-- ===== src/Boot/Cmd.antt =====
-- `enum class Cmd` (BootProtocol.h), the first byte of a frame from the host.
use open_skyhawk.Base.{ℕ}

abbrev pub connect : ℕ
connect = 0x01

abbrev pub begin : ℕ
begin = 0x02

abbrev pub block : ℕ
block = 0x10

abbrev pub data_0 : ℕ
data_0 = 0x20

abbrev pub data_9 : ℕ
data_9 = 0x29

abbrev pub end : ℕ
end = 0x30

abbrev pub go : ℕ
go = 0x40

abbrev pub set_node_id : ℕ
set_node_id = 0x50
