-- ===== src/Parser/Accepts.antt =====
-- Which frames `PacketParser::parse` accepts as IPv4 and as UDP.
use fast_break.Base.{ℕ, ◌+◌, ◌*◌, ◌/◌, ◌%◌, ◌^◌, ◌≤◌, ◌<◌, ◌≡◌, ◌↔◌, ◌⊎◌, true, false, arith, sub64}
use fast_break.Base.Bits.{and_mask}
use fast_break.Parser.{
  from, rd16, View, eth_valid, ethertype, header_len, ip_valid, total_len, ip_payload_len,
  udp_valid, checksum_valid, parse,
}
use fast_break.Parser.Checksum.{rd16_lem}

pub header_len_lem : (v : View) → header_len v ≡ 4 * (v.buf 0 % 16)
unfolding header_len
header_len_lem v = omega (arith, and_mask 4 (v.buf 0))

module _ (b : ℕ → ℕ) (len : ℕ) where
  -- For a buffer of bytes and a length that is a `size_t`, a frame is taken for IPv4 exactly
  -- if it holds an Ethernet header with that type and twenty bytes after it, the first of
  -- which names version 4 and a header of at least five words.
  pub parse-has_ip :
      ((j : ℕ) → b j < 256)
      → len < 2 ^ 64
      → ((parse b len).has_ip ≡ true)
        ↔ ((34 ≤ len) × (256 * b 12 + b 13 ≡ 0x0800) × (b 14 / 16 ≡ 4) × (5 ≤ b 14 % 16))
  unfolding parse eth_valid ethertype ip_valid
  parse-has_ip bytes word =
      let v : View = record { buf = from 14 b; len = sub64 len 14 } in
      let type : rd16 (from 12 b) ≡ 256 * b 12 + b 13 =
        rd16_lem (from 12 b) (bytes 12) (bytes 13) in
      rw (type, header_len_lem v) (ground (arith, bytes 14))

  -- For a buffer of bytes, a frame is taken for UDP exactly if it is taken for IPv4, its
  -- protocol is 17, and its total length leaves eight bytes after the header or is less than
  -- the header's length, since the difference then wraps.
  pub parse-has_udp :
      ((j : ℕ) → b j < 256)
      → let p = parse b len in
        let total = 256 * b 16 + b 17 in
        let header = 4 * (b 14 % 16) in
        (p.has_udp ≡ true)
        ↔ ((p.has_ip ≡ true) × (b 23 ≡ 17) × ((header + 8 ≤ total) ⊎ (total < header)))
  unfolding parse ip_payload_len total_len udp_valid
  parse-has_udp bytes =
      let v : View = record { buf = from 14 b; len = sub64 len 14 } in
      let total : rd16 (from 2 (from 14 b)) ≡ 256 * b 16 + b 17 =
        rd16_lem (from 2 (from 14 b)) (bytes 16) (bytes 17) in
      rw (total, header_len_lem v) (ground (arith, bytes 14, bytes 16, bytes 17))

  -- A frame is valid exactly if it is as long as an Ethernet header, and is not IPv4 or has a
  -- header checksum that verifies. No frame is taken for UDP without being taken for IPv4.
  pub parse-valid :
      let p = parse b len in
      ((p.valid ≡ true) ↔ ((14 ≤ len) × ((p.has_ip ≡ false) ⊎ (checksum_valid p.ip ≡ true))))
      × (p.has_udp ≡ true → p.has_ip ≡ true)
  unfolding parse eth_valid
  parse-valid = ground arith
