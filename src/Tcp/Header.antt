-- ===== src/Tcp/Header.antt =====
-- `TcpLiteHeader` of include/tcp_lite.h and src/tcp_lite.cpp. A header's sixteen bytes are its
-- fields in declaration order, packed, each with its low byte first (the host order of the x86-64
-- targets).
pub mod Laws
use fast_break.Base.{
  ℕ, zero, suc, ◌+◌, ◌*◌, ◌-◌, ◌/◌, ◌%◌, ◌^◌, Bool, List, [], ◌∷◌, ◌++◌, ◌==◌, u8, ◌>>>◌,
}
use fast_break.Tcp.Crc.{crc32_seg}

pub record Header : Type 0 where
  pub seq_num : ℕ
  pub ack_num : ℕ
  pub flags : ℕ
  pub payload_len : ℕ
  pub checksum : ℕ

-- enum TcpFlags
abbrev pub tcp_syn : ℕ
tcp_syn = 0x01

abbrev pub tcp_ack : ℕ
tcp_ack = 0x02

-- The bytes of a field in memory.
abbrev pub le16 : ℕ → List ℕ
le16 x = u8 x ∷ u8 (x >>> 8) ∷ []

abbrev pub le32 : ℕ → List ℕ
le32 x = u8 x ∷ u8 (x >>> 8) ∷ u8 (x >>> 16) ∷ u8 (x >>> 24) ∷ []

-- The header as the `memcpy` and the checksum see it.
unfoldable pub bytes_of : Header → List ℕ
bytes_of h =
    le32 h.seq_num ++ (le32 h.ack_num ++ (le16 h.flags ++ (le16 h.payload_len ++ le32 h.checksum)))

-- `*reinterpret_cast<const TcpLiteHeader*>(p)` where `p` points to the bytes `b`.
unfoldable pub header_at : (ℕ → ℕ) → Header
header_at b = record {
  seq_num = b 0 + 2 ^ 8 * b 1 + 2 ^ 16 * b 2 + 2 ^ 24 * b 3;
  ack_num = b 4 + 2 ^ 8 * b 5 + 2 ^ 16 * b 6 + 2 ^ 24 * b 7;
  flags = b 8 + 2 ^ 8 * b 9;
  payload_len = b 10 + 2 ^ 8 * b 11;
  checksum = b 12 + 2 ^ 8 * b 13 + 2 ^ 16 * b 14 + 2 ^ 24 * b 15;
}

-- The checksum over the header with that field zeroed, then the payload.
unfoldable pub compute_checksum : Header → List ℕ → Header
compute_checksum h payload =
    let zeroed = record h { checksum = 0 } in
    record zeroed { checksum = crc32_seg (bytes_of zeroed) payload }

unfoldable pub verify_checksum : Header → List ℕ → Bool
verify_checksum h payload =
    let tmp = record h { checksum = 0 } in crc32_seg (bytes_of tmp) payload == h.checksum

abbrev zero_header : Header
zero_header = record { seq_num = 0; ack_num = 0; flags = 0; payload_len = 0; checksum = 0 }

unfoldable pub make_syn : ℕ → Header
make_syn seq = compute_checksum (record zero_header { seq_num = seq; flags = tcp_syn }) []

unfoldable pub make_ack : ℕ → ℕ → Header
make_ack seq ack =
    compute_checksum (record zero_header { seq_num = seq; ack_num = ack; flags = tcp_ack }) []

-- The caller computes the checksum, once the payload is in place.
unfoldable pub make_data : ℕ → ℕ → ℕ → Header
make_data seq ack len = record zero_header {
  seq_num = seq;
  ack_num = ack;
  flags = tcp_ack;
  payload_len = len;
}
