-- ===== src/Tcp/Header/Laws.antt =====
-- Headers through memory, and what the checksum accepts.
use fast_break.Base.{
  ℕ, ◌^◌, ◌<◌, ◌≡◌, ◌≢◌, refl, sym, true, false, List, ◌∷◌, ◌++◌, arith, ==_refl, ne→==, get_or,
  length,
}
use fast_break.Tcp.Crc.Detect.{AllBytes, crc32_seg-ne, crc32_seg-lt}
use fast_break.Tcp.Header.{Header, bytes_of, header_at, compute_checksum, verify_checksum}

-- Each field fits its width.
pub record IsHeader (h : Header) : Type 0 where
  pub seq_word : h.seq_num < 2 ^ 32
  pub ack_word : h.ack_num < 2 ^ 32
  pub flags_half : h.flags < 2 ^ 16
  pub len_half : h.payload_len < 2 ^ 16
  pub sum_word : h.checksum < 2 ^ 32

-- If each field fits its width, a header is sixteen bytes in memory, and reading them back gives
-- the header.
pub header_at-bytes_of :
    (h : Header)
    → IsHeader h
    → (header_at (λ i. get_or (bytes_of h) i 0) ≡ h) × (length (bytes_of h) ≡ 16)
unfolding header_at bytes_of
header_at-bytes_of h v = (ground arith, refl)

bytes_of-AllBytes : (h : Header) → AllBytes (bytes_of h)
unfolding bytes_of
bytes_of-AllBytes h = omega arith

pub length-bytes_of : (h : Header) → length (bytes_of h) ≡ 16
unfolding bytes_of
length-bytes_of h = refl

-- A header in memory depends on sixteen bytes.
pub header_at_ext :
    (m : ℕ → ℕ) (h : Header)
    → IsHeader h
    → ((i : ℕ) → i < 16 → m i ≡ get_or (bytes_of h) i 0)
    → header_at m ≡ h
unfolding header_at bytes_of
header_at_ext m h v same = ground (
  arith,
  same 0,
  same 1,
  same 2,
  same 3,
  same 4,
  same 5,
  same 6,
  same 7,
  same 8,
  same 9,
  same 10,
  same 11,
  same 12,
  same 13,
  same 14,
  same 15,
)

pub compute_checksum-IsHeader :
    (h : Header) (p : List ℕ) → IsHeader h → AllBytes p → IsHeader (compute_checksum h p)
unfolding compute_checksum
compute_checksum-IsHeader h p v bytes = record {
  seq_word = v.seq_word;
  ack_word = v.ack_word;
  flags_half = v.flags_half;
  len_half = v.len_half;
  sum_word = crc32_seg-lt (bytes_of (record h { checksum = 0 })) p (bytes_of-AllBytes _) bytes;
}

-- For a payload of bytes, a computed checksum verifies; and if one byte of the payload has since
-- changed to another, it does not.
pub verify-compute :
    (h : Header) (xs ys : List ℕ) (a b : ℕ)
    → AllBytes xs
    → AllBytes ys
    → a < 256
    → b < 256
    → a ≢ b
    → let sealed = compute_checksum h (xs ++ (a ∷ ys)) in
      (verify_checksum sealed (xs ++ (a ∷ ys)) ≡ true)
      × (verify_checksum sealed (xs ++ (b ∷ ys)) ≡ false)
unfolding verify_checksum compute_checksum
verify-compute h xs ys a b hx hy ha hb ne = (
  ==_refl _,
  ne→== _ _ (λ e.
      crc32_seg-ne (bytes_of (record h { checksum = 0 })) xs ys a b (bytes_of-AllBytes _) hx hy ha
        hb ne (sym e)),
)

pub verify-compute_self :
    (h : Header) (p : List ℕ) → verify_checksum (compute_checksum h p) p ≡ true
unfolding verify_checksum compute_checksum
verify-compute_self h p = ==_refl _
