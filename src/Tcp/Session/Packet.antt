-- ===== src/Tcp/Session/Packet.antt =====
-- A data packet: what `pump_tx` leaves in the buffer, and what the receiver reads out of it.
use fast_break.Base.{
  [], append-nil, ℕ, ◌+◌, ◌^◌, ◌≤◌, ◌<◌, ◌≡◌, inl, inr, refl, sym, ap, ap₂, ◌∙◌, true, List, ◌++◌,
  arith, length, length-append, get_or-append, get_or-append_right, get_or,
}
use fast_break.Tcp.Header.{
  Header, bytes_of, header_at, compute_checksum, verify_checksum, make_data, make_ack,
}
use fast_break.Tcp.Header.Laws.{
  IsHeader, length-bytes_of, header_at_ext, compute_checksum-IsHeader, verify-compute_self,
}
use fast_break.Tcp.Crc.Detect.{AllBytes}
use fast_break.Tcp.Memory.{
  read, write, write-inside, write-outside, read_ext, read-write, read-write_outside, read-append,
}
use fast_break.Tcp.Session.{fill_packet}

-- A header at the start of a buffer, with anything written behind it.
header_under :
    (m : ℕ → ℕ) (h : Header) (p : List ℕ)
    → IsHeader h
    → header_at (write (write m 0 (bytes_of h)) 16 p) ≡ h
header_under m h p v = header_at_ext (write (write m 0 (bytes_of h)) 16 p) h v λ i lt.
    write-outside (write m 0 (bytes_of h)) 16 i p (inl lt)
    ∙ ap (write m 0 (bytes_of h)) {x = i} {y = 0 + i} (omega arith)
    ∙ write-inside m 0 i (bytes_of h) (omega (arith, length-bytes_of h))

-- The buffer that `pump_tx` fills holds the header, its checksum computed, and then the payload.
pub fill_packet_lem :
    (h : Header) (p : List ℕ) (m : ℕ → ℕ)
    → IsHeader h
    → h.payload_len ≡ length p
    → read (fill_packet h p m) 0 (16 + length p) ≡ bytes_of (compute_checksum h p) ++ p
unfolding fill_packet bytes_of
fill_packet_lem h p m v e =
    let m₁ : ℕ → ℕ = write (write m 0 (bytes_of h)) 16 p in
    let whole : read m₁ 16 h.payload_len ≡ p =
      ap (read m₁ 16) e ∙ read-write (write m 0 (bytes_of h)) 16 p in
    let sealed = bytes_of (compute_checksum h p) in
    rw (header_under m h p v, whole)
      (read-append (write m₁ 0 sealed) 0 16 (length p)
        ∙ ap₂ ◌++◌ (read-write m₁ 0 sealed) (
            read-write_outside m₁ (0 + 16) (length p) 0 sealed (inr (omega arith))
            ∙ read-write (write m 0 (bytes_of h)) 16 p))

-- `pump_tx` writes no byte behind the packet.
pub fill_packet-outside :
    (h : Header) (p : List ℕ) (m : ℕ → ℕ) (i : ℕ) → 16 + length p ≤ i → fill_packet h p m i ≡ m i
unfolding fill_packet
fill_packet-outside h p m i le =
    let m₁ : ℕ → ℕ = write (write m 0 (bytes_of h)) 16 p in
    let sealed = compute_checksum (header_at m₁) (read m₁ 16 h.payload_len) in
    write-outside m₁ 0 i (bytes_of sealed) (inr (omega (arith, length-bytes_of sealed)))
    ∙ write-outside (write m 0 (bytes_of h)) 16 i p (inr (omega arith))
    ∙ write-outside m 0 i (bytes_of h) (inr (omega (arith, length-bytes_of h)))

make_data-IsHeader :
    (seq ack len : ℕ)
    → seq < 2 ^ 32
    → ack < 2 ^ 32
    → len < 2 ^ 16
    → IsHeader (make_data seq ack len)
unfolding make_data
make_data-IsHeader seq ack len hs ha hl = omega arith

-- A packet as the network carries it.
unfoldable pub packet : ℕ → ℕ → List ℕ → List ℕ
packet seq ack p = bytes_of (compute_checksum (make_data seq ack (length p)) p) ++ p

pub length-packet : (seq ack : ℕ) (p : List ℕ) → length (packet seq ack p) ≡ 16 + length p
unfolding packet
length-packet seq ack p =
    let sealed = compute_checksum (make_data seq ack (length p)) p in
    length-append (bytes_of sealed) p ∙ ap (λ k. k + length p) (length-bytes_of sealed)

pub fill_packet-packet :
    (seq ack : ℕ) (p : List ℕ) (m : ℕ → ℕ)
    → seq < 2 ^ 32
    → ack < 2 ^ 32
    → length p ≤ 1024
    → read (fill_packet (make_data seq ack (length p)) p m) 0 (16 + length p) ≡ packet seq ack p
unfolding packet
fill_packet-packet seq ack p m hs ha hl =
    fill_packet_lem (make_data seq ack (length p)) p m
      (make_data-IsHeader seq ack (length p) hs ha (omega arith)) (unfold make_data in refl)

-- A packet without payload.
pub make_ack-packet : (seq ack : ℕ) → bytes_of (make_ack seq ack) ≡ packet seq ack []
unfolding packet make_ack make_data
make_ack-packet seq ack = sym (append-nil (bytes_of (make_ack seq ack)))

pub write_start : (m : ℕ → ℕ) (p : List ℕ) (i : ℕ) → i < length p → write m 0 p i ≡ get_or p i 0
write_start m p i lt = ap (write m 0 p) {x = i} {y = 0 + i} (omega arith) ∙ write-inside m 0 i p lt

-- What is read from a buffer that starts with a packet.
pub packet_read :
    (seq ack : ℕ) (p : List ℕ) (got : ℕ → ℕ)
    → ((i : ℕ) → i < 16 + length p → got i ≡ get_or (packet seq ack p) i 0)
    → seq < 2 ^ 32
    → ack < 2 ^ 32
    → length p ≤ 1024
    → AllBytes p
    → ((header_at got).seq_num ≡ seq)
      × ((header_at got).ack_num ≡ ack)
      × ((header_at got).payload_len ≡ length p)
      × (read got 16 (length p) ≡ p)
      × (verify_checksum (header_at got) (read got 16 (length p)) ≡ true)
unfolding packet
packet_read seq ack p got same hs ha hl bytes =
    let h = make_data seq ack (length p) in
    let v : IsHeader h = make_data-IsHeader seq ack (length p) hs ha (omega arith) in
    let sealed = compute_checksum h p in
    let head : header_at got ≡ sealed =
      header_at_ext got sealed (compute_checksum-IsHeader h p v bytes) λ i lt.
        same i (omega arith)
        ∙ get_or-append (bytes_of sealed) p i 0 (omega (arith, length-bytes_of sealed)) in
    let tail : read got 16 (length p) ≡ p = read_ext got 16 p λ i lt.
      same (16 + i) (omega arith)
      ∙ ap (λ k. get_or (bytes_of sealed ++ p) (k + i) 0) (sym (length-bytes_of sealed))
      ∙ get_or-append_right (bytes_of sealed) p i 0 in
    rw (head, tail)
      (unfold compute_checksum make_data in (refl, refl, refl, refl, verify-compute_self h p))

-- What `pump_tx` leaves in a buffer for sequence and acknowledgement numbers that are words and
-- a payload of at most 1024 bytes, copied into any buffer of the other side, reads back there:
-- the header has the numbers and the length that were sent, the payload is the same, and the
-- checksum verifies.
pub fill_packet-received :
    (seq ack : ℕ) (p : List ℕ) (m m' : ℕ → ℕ)
    → seq < 2 ^ 32
    → ack < 2 ^ 32
    → length p ≤ 1024
    → AllBytes p
    → let sent = read (fill_packet (make_data seq ack (length p)) p m) 0 (16 + length p) in
      let got = write m' 0 sent in
      ((header_at got).seq_num ≡ seq)
      × ((header_at got).ack_num ≡ ack)
      × ((header_at got).payload_len ≡ length p)
      × (read got 16 (length p) ≡ p)
      × (verify_checksum (header_at got) (read got 16 (length p)) ≡ true)
fill_packet-received seq ack p m m' hs ha hl bytes = rw (fill_packet-packet seq ack p m hs ha hl) (
    packet_read seq ack p (write m' 0 (packet seq ack p))
      (λ i lt. write_start m' (packet seq ack p) i (omega (arith, length-packet seq ack p))) hs ha
      hl bytes)
