-- ===== src/Parser.antt =====
-- include/packet_parser.h: views over the bytes of a frame, and `PacketParser::parse`.
-- The three view classes keep a pointer and a length each: here the bytes from the pointer on, as a
-- function of the offset, and the length. The operators `&` and `|` of `parse` evaluate both sides,
-- so that a view is also read where an earlier test has failed.
pub mod Checksum
pub mod Accepts
mod Examples
use fast_break.Base.{
  ℕ, zero, suc, ◌+◌, ◌-◌, ◌*◌, ◌/◌, ◌%◌, ◌^◌, Bool, true, false, ◌&&◌, ◌||◌, not, bit_and, bit_or,
  ◌==◌, ltb, leb, if◌then◌else◌, u16, u32, sub64, ◌<<<◌, ◌>>>◌,
}

-- `p + k`
abbrev pub from : ℕ → (ℕ → ℕ) → ℕ → ℕ
from k p i = p (k + i)

unfoldable pub rd16 : (ℕ → ℕ) → ℕ
rd16 p = u16 (bit_or (p 0 <<< 8) (p 1))

unfoldable pub rd32 : (ℕ → ℕ) → ℕ
rd32 p = bit_or (bit_or (bit_or (u32 (p 0 <<< 24)) (u32 (p 1 <<< 16))) (u32 (p 2 <<< 8))) (p 3)

pub record View : Type 0 where
  pub buf : ℕ → ℕ
  pub len : ℕ

unfoldable pub eth_valid : View → Bool
eth_valid v = leb 14 v.len

unfoldable pub ethertype : View → ℕ
ethertype v = rd16 (from 12 v.buf)

abbrev pub eth_payload : View → ℕ → ℕ
eth_payload v = from 14 v.buf

unfoldable pub header_len : View → ℕ
header_len v = bit_and (v.buf 0) 0x0F * 4

unfoldable pub ip_valid : View → Bool
ip_valid v = ((v.buf 0 >>> 4) == 4) && leb 20 v.len && leb 20 (header_len v)

abbrev pub protocol : View → ℕ
protocol v = v.buf 9

unfoldable pub src_ip : View → ℕ
src_ip v = rd32 (from 12 v.buf)

unfoldable pub dst_ip : View → ℕ
dst_ip v = rd32 (from 16 v.buf)

unfoldable pub total_len : View → ℕ
total_len v = rd16 (from 2 v.buf)

unfoldable pub ip_payload : View → ℕ → ℕ
ip_payload v = from (header_len v) v.buf

-- The difference is a `size_t`.
unfoldable pub ip_payload_len : View → ℕ
ip_payload_len v = sub64 (total_len v) (header_len v)

-- The loop over the words of the header, with at most `fuel` rounds.
unfoldable pub sum_words : ℕ → ℕ → ℕ → (ℕ → ℕ) → ℕ → ℕ
sum_words zero i hl buf sum = sum
sum_words (suc fuel) i hl buf sum =
    let rest = sum_words fuel (i + 2) hl buf (u32 (sum + rd16 (from i buf))) in
    if ltb (i + 1) hl then rest else sum

-- The loop that folds the carries, with at most `fuel` rounds.
unfoldable pub fold_carries : ℕ → ℕ → ℕ
fold_carries zero sum = sum
fold_carries (suc fuel) sum =
    let rest = fold_carries fuel (u32 (bit_and sum 0xFFFF + (sum >>> 16))) in
    if (sum >>> 16) == 0 then sum else rest

-- A header has at most 30 words, and two rounds fold a 32-bit sum.
unfoldable pub checksum_valid : View → Bool
checksum_valid v = fold_carries 2 (sum_words 30 0 (header_len v) v.buf 0) == 0xFFFF

unfoldable pub udp_valid : View → Bool
udp_valid v = leb 8 v.len

unfoldable pub src_port : View → ℕ
src_port v = rd16 v.buf

unfoldable pub dst_port : View → ℕ
dst_port v = rd16 (from 2 v.buf)

-- `length()` and `payload_len()` of the datagram.
unfoldable pub udp_length : View → ℕ
udp_length v = rd16 (from 4 v.buf)

unfoldable pub payload_len : View → ℕ
payload_len v = sub64 (udp_length v) 8

-- `raw` and `raw_len` are the bytes and the length that `eth` keeps.
pub record ParsedPacket : Type 0 where
  pub valid : Bool
  pub eth : View
  pub ip : View
  pub udp : View
  pub has_ip : Bool
  pub has_udp : Bool

unfoldable pub parse : (ℕ → ℕ) → ℕ → ParsedPacket
parse buf len =
    let eth : View = record { buf = buf; len = len } in
    let ip : View = record { buf = eth_payload eth; len = sub64 len 14 } in
    let is_ipv4 = eth_valid eth && (ethertype eth == 0x0800) && ip_valid ip in
    let udp : View = record { buf = ip_payload ip; len = ip_payload_len ip } in
    let is_udp = is_ipv4 && (protocol ip == 17) && udp_valid udp in
    let csum_ok = not is_ipv4 || checksum_valid ip in
    record {
      valid = eth_valid eth && csum_ok;
      eth = eth;
      ip = ip;
      udp = udp;
      has_ip = is_ipv4;
      has_udp = is_udp;
    }
