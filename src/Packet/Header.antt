-- ===== src/Packet/Header.antt =====
-- The four header bytes as `xptClient_process` and `xptServer_receiveData` take them apart.
use fastrie.Base.{ℕ, ◌/◌, ◌%◌, ◌^◌}

-- `headerVal&0xFF`
unfoldable pub header_opcode : ℕ → ℕ
header_opcode v = v % 256

-- `(headerVal>>8)&0xFFFFFF`
unfoldable pub header_size : ℕ → ℕ
header_size v = v / 256 % 2 ^ 24
