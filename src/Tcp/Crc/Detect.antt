-- ===== src/Tcp/Crc/Detect.antt =====
-- The checksum register loses nothing: each of its steps can be undone, so that two inputs which
-- differ in one byte end in different checksums.
use fast_break.Base.{
  ℕ, zero, suc, ◌+◌, ◌*◌, ◌/◌, ◌^◌, ◌≤◌, ◌<◌, ◌≡◌, ◌≢◌, inl, inr, sym, ap, ◌∙◌, List, [], ◌∷◌, ◌++◌,
  bit_xor, if◌then◌else◌, arith, leb,
}
use native.Mathlib.Decide.{dec_lt}
use fast_break.Base.Bits.{xor_comm, xor-lt}
use fast_break.Tcp.Crc.{polynomial, crc_bit, crc_bits, crc_byte, crc_bytes, crc32_seg}
use fast_break.Tcp.Crc.Bitwise.{crc_bit-even, crc_bit-odd, xor_cancel, parity, crc_byte-eq-crc_bits}

abbrev pub AllBytes : List ℕ → Type 0
AllBytes [] = Unit
AllBytes (b ∷ bs) = (b < 256) × AllBytes bs

-- The polynomial's top bit shows in the result whether it was added.
odd_high : (x : ℕ) → x < 2 ^ 31 → 2 ^ 31 ≤ bit_xor polynomial x
odd_high x h = elim (dec_lt (bit_xor polynomial x) (2 ^ 31)) [
  | yes low ↦
      let again = xor-lt 31 x (bit_xor polynomial x) h low in
      absurd (omega (arith, again, ap (bit_xor x) (xor_comm polynomial x), xor_cancel x polynomial))
  | no high ↦ omega arith
]

-- The step backwards.
back : ℕ → ℕ
back d = if leb (2 ^ 31) d then 2 * bit_xor polynomial d + 1 else 2 * d

back-crc_bit : (c : ℕ) → c < 2 ^ 32 → back (crc_bit c) ≡ c
unfolding back
back-crc_bit c h = elim (parity c) [
  | inl even ↦ rw (crc_bit-even c even) (ground arith)
  | inr odd ↦
      rw (crc_bit-odd c odd) (ground (arith, odd_high (c / 2), xor_cancel polynomial (c / 2)))
]

crc_bit-lt : (c : ℕ) → c < 2 ^ 32 → crc_bit c < 2 ^ 32
crc_bit-lt c h = elim (parity c) [
  | inl even ↦ rw (crc_bit-even c even) (omega arith)
  | inr odd ↦ rw (crc_bit-odd c odd) (xor-lt 32 polynomial (c / 2) (omega arith) (omega arith))
]

crc_bits-inj : (k c d : ℕ) → c < 2 ^ 32 → d < 2 ^ 32 → crc_bits k c ≡ crc_bits k d → c ≡ d
unfolding crc_bits
crc_bits-inj zero c d hc hd e = e
crc_bits-inj (suc k) c d hc hd e =
    sym (back-crc_bit c hc)
    ∙ ap back (crc_bits-inj k (crc_bit c) (crc_bit d) (crc_bit-lt c hc) (crc_bit-lt d hd) e)
    ∙ back-crc_bit d hd

crc_bits-lt : (k c : ℕ) → c < 2 ^ 32 → crc_bits k c < 2 ^ 32
unfolding crc_bits
crc_bits-lt zero c h = h
crc_bits-lt (suc k) c h = crc_bits-lt k (crc_bit c) (crc_bit-lt c h)

word_xor : (c b : ℕ) → c < 2 ^ 32 → b < 256 → bit_xor c b < 2 ^ 32
word_xor c b hc hb = xor-lt 32 c b hc (omega arith)

crc_byte-lt : (c b : ℕ) → c < 2 ^ 32 → b < 256 → crc_byte c b < 2 ^ 32
crc_byte-lt c b hc hb =
    rw (crc_byte-eq-crc_bits c b hb) (crc_bits-lt 8 (bit_xor c b) (word_xor c b hc hb))

xor_inj : (p x y : ℕ) → bit_xor p x ≡ bit_xor p y → x ≡ y
xor_inj p x y e = sym (xor_cancel p x) ∙ ap (bit_xor p) e ∙ xor_cancel p y

xor_inj_left : (p x y : ℕ) → bit_xor x p ≡ bit_xor y p → x ≡ y
xor_inj_left p x y e = xor_inj p x y (xor_comm p x ∙ e ∙ xor_comm y p)

-- Equal registers come from equal ones after the same byte, and from equal bytes after the same
-- register.
crc_byte-inj :
    (c d a b : ℕ)
    → c < 2 ^ 32
    → d < 2 ^ 32
    → a < 256
    → b < 256
    → crc_byte c a ≡ crc_byte d b
    → bit_xor c a ≡ bit_xor d b
crc_byte-inj c d a b hc hd ha hb e =
    crc_bits-inj 8 (bit_xor c a) (bit_xor d b) (word_xor c a hc ha) (word_xor d b hd hb)
      (sym (crc_byte-eq-crc_bits c a ha) ∙ e ∙ crc_byte-eq-crc_bits d b hb)

pub crc_bytes-lt : (c : ℕ) (bs : List ℕ) → c < 2 ^ 32 → AllBytes bs → crc_bytes c bs < 2 ^ 32
unfolding crc_bytes
crc_bytes-lt c [] h a = h
crc_bytes-lt c (b ∷ bs) h (hb, a) = crc_bytes-lt (crc_byte c b) bs (crc_byte-lt c b h hb) a

crc_bytes-inj :
    (c d : ℕ) (bs : List ℕ)
    → c < 2 ^ 32
    → d < 2 ^ 32
    → AllBytes bs
    → crc_bytes c bs ≡ crc_bytes d bs
    → c ≡ d
unfolding crc_bytes
crc_bytes-inj c d [] hc hd a e = e
crc_bytes-inj c d (b ∷ bs) hc hd (hb, a) e = xor_inj_left b c d (
    crc_byte-inj c d b b hc hd hb hb (
      crc_bytes-inj (crc_byte c b) (crc_byte d b) bs (crc_byte-lt c b hc hb) (crc_byte-lt d b hd hb)
        a e))

changed_byte :
    (c : ℕ) (xs ys : List ℕ) (a b : ℕ)
    → c < 2 ^ 32
    → AllBytes xs
    → AllBytes ys
    → a < 256
    → b < 256
    → crc_bytes c (xs ++ (a ∷ ys)) ≡ crc_bytes c (xs ++ (b ∷ ys))
    → a ≡ b
unfolding crc_bytes
changed_byte c [] ys a b hc hx hy ha hb e = xor_inj c a b (
    crc_byte-inj c c a b hc hc ha hb (
      crc_bytes-inj (crc_byte c a) (crc_byte c b) ys (crc_byte-lt c a hc ha) (crc_byte-lt c b hc hb)
        hy e))
changed_byte c (x ∷ xs) ys a b hc (hx, hxs) hy ha hb e =
    changed_byte (crc_byte c x) xs ys a b (crc_byte-lt c x hc hx) hxs hy ha hb e

pub crc32_seg-lt : (h p : List ℕ) → AllBytes h → AllBytes p → crc32_seg h p < 2 ^ 32
unfolding crc32_seg
crc32_seg-lt h p hh hp =
    xor-lt 32 (crc_bytes (crc_bytes 0xFFFFFFFF h) p) 0xFFFFFFFF
      (crc_bytes-lt (crc_bytes 0xFFFFFFFF h) p (crc_bytes-lt 0xFFFFFFFF h (omega arith) hh) hp)
      (omega arith)

-- Changing any one byte of the payload changes the checksum.
pub crc32_seg-ne :
    (h xs ys : List ℕ) (a b : ℕ)
    → AllBytes h
    → AllBytes xs
    → AllBytes ys
    → a < 256
    → b < 256
    → a ≢ b
    → crc32_seg h (xs ++ (a ∷ ys)) ≢ crc32_seg h (xs ++ (b ∷ ys))
unfolding crc32_seg
crc32_seg-ne h xs ys a b hh hx hy ha hb ne e = ne (
    changed_byte (crc_bytes 0xFFFFFFFF h) xs ys a b (crc_bytes-lt 0xFFFFFFFF h (omega arith) hh) hx
      hy ha hb (xor_inj_left 0xFFFFFFFF _ _ e))
