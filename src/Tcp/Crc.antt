-- ===== src/Tcp/Crc.antt =====
-- `crc_table` and `crc32_seg` of src/tcp_lite.cpp.
pub mod Bitwise
pub mod Detect
use fast_break.Base.{
  ℕ, zero, suc, ◌+◌, ◌/◌, ◌%◌, ◌^◌, List, [], ◌∷◌, bit_and, bit_xor, ◌==◌, if◌then◌else◌, ◌>>>◌,
}

abbrev pub polynomial : ℕ
polynomial = 0xEDB88320

-- One round of the loop that fills an entry.
unfoldable pub crc_bit : ℕ → ℕ
crc_bit c = if bit_and c 1 == 0 then c >>> 1 else bit_xor polynomial (c >>> 1)

unfoldable pub crc_bits : ℕ → ℕ → ℕ
crc_bits zero c = c
crc_bits (suc k) c = crc_bits k (crc_bit c)

-- `t[i]`
unfoldable pub crc_table : ℕ → ℕ
crc_table i = crc_bits 8 i

unfoldable pub crc_byte : ℕ → ℕ → ℕ
crc_byte crc b = bit_xor (crc_table (bit_and (bit_xor crc b) 0xFF)) (crc >>> 8)

unfoldable pub crc_bytes : ℕ → List ℕ → ℕ
crc_bytes crc [] = crc
crc_bytes crc (b ∷ bs) = crc_bytes (crc_byte crc b) bs

-- The header segment, then the payload.
unfoldable pub crc32_seg : List ℕ → List ℕ → ℕ
crc32_seg h p = bit_xor (crc_bytes (crc_bytes 0xFFFFFFFF h) p) 0xFFFFFFFF
