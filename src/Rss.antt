-- ===== src/Rss.antt =====
-- include/rss_distributor.h and src/rss_distributor.cpp: the Toeplitz hash of a flow, and `submit`,
-- which puts a buffer on the queue that the hash selects. A buffer is named by its index, as in
-- Pool.
pub mod Window
pub mod Toeplitz
pub mod Submit
mod Examples
use fast_break.Base.{
  ℕ, zero, suc, ◌+◌, ◌-◌, ◌*◌, ◌/◌, ◌%◌, ◌^◌, Bool, true, false, List, [], ◌∷◌, bit_and, bit_or,
  bit_xor, ◌==◌, if◌then◌else◌, u8, u32, ◌<<<◌, ◌>>>◌, get_or,
}
use fast_break.Spsc.{Ring, fresh, push}
use fast_break.Parser.{ParsedPacket, src_ip, dst_ip, src_port, dst_port}

abbrev pub rss_key : List ℕ
rss_key =
    0x6d ∷ 0x5a ∷ 0x56 ∷ 0xda ∷ 0x25 ∷ 0x5b ∷ 0x0e ∷ 0xc2 ∷ 0x41 ∷ 0x67 ∷ 0x25 ∷ 0x3d ∷ 0x43 ∷ 0xa3
    ∷ 0x8f ∷ 0xb0 ∷ 0xd0 ∷ 0xca ∷ 0x2b ∷ 0xcb ∷ 0xae ∷ 0x7b ∷ 0x30 ∷ 0xb4 ∷ 0x77 ∷ 0xcb ∷ 0x2d
    ∷ 0xa3 ∷ 0x80 ∷ 0x30 ∷ 0xf2 ∷ 0x0c ∷ 0x6a ∷ 0x42 ∷ 0xb7 ∷ 0x3b ∷ 0xbe ∷ 0xac ∷ 0x01 ∷ 0xfa ∷ []

-- The locals of the loops.
pub record Hashing : Type 0 where
  pub result : ℕ
  pub window : ℕ
  pub next_bit : ℕ

-- The key bit that comes next.
unfoldable pub key_bit : ℕ → ℕ
key_bit next_bit =
    let key_byte = get_or rss_key (next_bit >>> 3) 0 in
    bit_and (key_byte >>> (7 - bit_and next_bit 7)) 1

-- One round of the inner loop, for an input bit.
unfoldable pub hash_bit : ℕ → Hashing → Hashing
hash_bit bit s = record {
  result = if bit == 0 then s.result else bit_xor s.result s.window;
  window = bit_or (u32 (s.window <<< 1)) (key_bit s.next_bit);
  next_bit = u32 (s.next_bit + 1);
}

-- The inner loop, from the bit `n - 1` of the byte down.
unfoldable pub hash_bits : ℕ → ℕ → Hashing → Hashing
hash_bits byte zero s = s
hash_bits byte (suc bit) s = hash_bits byte bit (hash_bit (bit_and (byte >>> bit) 1) s)

-- The outer loop.
unfoldable pub hash_bytes : List ℕ → Hashing → Hashing
hash_bytes [] s = s
hash_bytes (byte ∷ bytes) s = hash_bytes bytes (hash_bits byte 8 s)

unfoldable pub input_bytes : ℕ → ℕ → ℕ → ℕ → List ℕ
input_bytes src_ip dst_ip src_port dst_port =
    u8 (src_ip >>> 24)
    ∷ u8 (src_ip >>> 16)
    ∷ u8 (src_ip >>> 8)
    ∷ u8 src_ip
    ∷ u8 (dst_ip >>> 24)
    ∷ u8 (dst_ip >>> 16)
    ∷ u8 (dst_ip >>> 8)
    ∷ u8 dst_ip
    ∷ u8 (src_port >>> 8)
    ∷ u8 src_port
    ∷ u8 (dst_port >>> 8)
    ∷ u8 dst_port
    ∷ []

-- The window starts as the first four bytes of the key.
unfoldable pub first_window : Hashing
first_window = record {
  result = 0;
  window =
      bit_or
        (bit_or (bit_or (u32 (get_or rss_key 0 0 <<< 24)) (u32 (get_or rss_key 1 0 <<< 16)))
          (u32 (get_or rss_key 2 0 <<< 8)))
        (get_or rss_key 3 0);
  next_bit = 32;
}

unfoldable pub toeplitz : ℕ → ℕ → ℕ → ℕ → ℕ
toeplitz src_ip dst_ip src_port dst_port =
    (hash_bytes (input_bytes src_ip dst_ip src_port dst_port) first_window).result

pub record RssDistributor : Type 0 where
  pub queue_count : ℕ
  pub mask : ℕ
  pub queues : ℕ → Ring ℕ

-- The constructor, for a count that its assertion accepts. `memory` is what the slots hold.
unfoldable pub create : (ℕ → ℕ) → ℕ → RssDistributor
create memory queue_count = record {
  queue_count = queue_count;
  mask = u32 (queue_count - 1);
  queues = λ _. fresh memory;
}

unfoldable pub hash : ℕ → ℕ → ℕ → ℕ → RssDistributor → ℕ
hash src_ip dst_ip src_port dst_port d = bit_and (toeplitz src_ip dst_ip src_port dst_port) d.mask

abbrev pub queue_capacity : ℕ
queue_capacity = 8192

unfoldable pub index_for : ParsedPacket → RssDistributor → ℕ
index_for pkt d =
    if pkt.has_udp
    then hash (src_ip pkt.ip) (dst_ip pkt.ip) (src_port pkt.udp) (dst_port pkt.udp) d
    else if pkt.has_ip
    then hash (src_ip pkt.ip) (dst_ip pkt.ip) 0 0 d
    else 0

unfoldable pub submit : ℕ → ParsedPacket → RssDistributor → Bool × RssDistributor
submit buf pkt d =
    let index = index_for pkt d in
    let (pushed, queue) = push queue_capacity (d.queues index) buf in
    (pushed, record d { queues = λ i. if i == index then queue else d.queues i })
