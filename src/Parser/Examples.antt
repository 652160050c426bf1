-- ===== src/Parser/Examples.antt =====
-- A frame with an IPv4 header of twenty bytes and a UDP header of eight, and the theorems of Parser
-- at it.
use fast_break.Base.{
  ℕ, ◌+◌, ◌*◌, ◌/◌, ◌%◌, ◌≤◌, ◌<◌, ◌≡◌, ◌≢◌, ◌↔◌, ◌⊎◌, refl, true, arith, ◌==◌, if◌then◌else◌,
}
use fast_break.Parser.{
  View, from, rd16, eth_valid, ethertype, ip_valid, header_len, ip_payload_len, total_len,
  udp_valid, checksum_valid, sum_words, fold_carries, parse,
}
use fast_break.Parser.Checksum.{word_sum, checksum_valid_iff}
use fast_break.Parser.Accepts.{parse-has_ip, parse-has_udp}

abbrev frame : ℕ → ℕ
frame i =
    if i == 12
    then 0x08
    else if i == 14
    then 0x45
    else if i == 17
    then 0x28
    else if i == 23
    then 0x11
    else if i == 24
    then 0xBA
    else if i == 25
    then 0xC6
    else 0

frame-byte : (j : ℕ) → frame j < 256
frame-byte j = ground arith

abbrev datagram : View
datagram = record { buf = from 14 frame; len = 40 }

datagram-checksum : checksum_valid datagram ≡ true
unfolding checksum_valid sum_words fold_carries header_len rd16
datagram-checksum = refl

checksum_valid_iff_example :
    let total = word_sum datagram.buf 0 (2 * (datagram.buf 0 % 16)) in
    (checksum_valid datagram ≡ true) ↔ ((total ≢ 0) × (total % 65535 ≡ 0))
checksum_valid_iff_example = checksum_valid_iff datagram (λ j. frame-byte (14 + j))

parse-has_ip_example :
    ((parse frame 54).has_ip ≡ true)
    ↔ ((34 ≤ 54) × (256 * frame 12 + frame 13 ≡ 0x0800) × (frame 14 / 16 ≡ 4) × (5 ≤ frame 14 % 16))
parse-has_ip_example = parse-has_ip frame 54 frame-byte (omega arith)

parse-has_udp_example :
    let p = parse frame 54 in
    let total = 256 * frame 16 + frame 17 in
    let header = 4 * (frame 14 % 16) in
    (p.has_udp ≡ true)
    ↔ ((p.has_ip ≡ true) × (frame 23 ≡ 17) × ((header + 8 ≤ total) ⊎ (total < header)))
parse-has_udp_example = parse-has_udp frame 54 frame-byte

-- The datagram's total length of 40 leaves twenty bytes after the header.
accepted : (parse frame 54).has_udp ≡ true
unfolding parse eth_valid ethertype ip_valid header_len ip_payload_len total_len udp_valid rd16
accepted = refl
