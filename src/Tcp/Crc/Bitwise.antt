-- ===== src/Tcp/Crc/Bitwise.antt =====
-- The table-driven step is eight steps of the bitwise shift register.
use fast_break.Base.{
  ℕ, zero, suc, ◌+◌, ◌*◌, ◌/◌, ◌%◌, ◌^◌, ◌<◌, ◌≡◌, ◌⊎◌, inl, inr, refl, sym, ap, ap₂, ◌∙◌, bit_xor,
  arith,
}
use fast_break.Base.Bits.{
  xor_assoc, xor_comm, xor_self, zero-xor, xor-half, xor-parity, xor-lt, and_mask, xor_fields,
  double_pow,
}
use fast_break.Tcp.Crc.{polynomial, crc_bit, crc_bits, crc_table, crc_byte}

-- The register's step by the parity of its content.
pub crc_bit-even : (c : ℕ) → c % 2 ≡ 0 → crc_bit c ≡ c / 2
unfolding crc_bit
crc_bit-even c h = ground (arith, and_mask 1 c)

pub crc_bit-odd : (c : ℕ) → c % 2 ≡ 1 → crc_bit c ≡ bit_xor polynomial (c / 2)
unfolding crc_bit
crc_bit-odd c h = ground (arith, and_mask 1 c)

pub parity : (c : ℕ) → (c % 2 ≡ 0) ⊎ (c % 2 ≡ 1)
parity c = omega arith

-- p ^ (p ^ x) is x.
pub xor_cancel : (p x : ℕ) → bit_xor p (bit_xor p x) ≡ x
xor_cancel p x = sym (xor_assoc p p x) ∙ rw (xor_self p, zero-xor x)

xor_swap : (p x y : ℕ) → bit_xor x (bit_xor p y) ≡ bit_xor p (bit_xor x y)
xor_swap p x y = sym (xor_assoc x p y) ∙ ap (λ t. bit_xor t y) (xor_comm x p) ∙ xor_assoc p x y

-- The register is linear.
crc_bit-xor : (a b : ℕ) → crc_bit (bit_xor a b) ≡ bit_xor (crc_bit a) (crc_bit b)
crc_bit-xor a b = elim (parity a) [
  | inl ea ↦ elim (parity b) [
    | inl eb ↦
        crc_bit-even (bit_xor a b) (omega (arith, xor-parity a b))
        ∙ xor-half a b
        ∙ sym (ap₂ bit_xor (crc_bit-even a ea) (crc_bit-even b eb))
    | inr ob ↦
        crc_bit-odd (bit_xor a b) (omega (arith, xor-parity a b))
        ∙ ap (bit_xor polynomial) (xor-half a b)
        ∙ sym (xor_swap polynomial (a / 2) (b / 2))
        ∙ sym (ap₂ bit_xor (crc_bit-even a ea) (crc_bit-odd b ob))
  ]
  | inr oa ↦ elim (parity b) [
    | inl eb ↦
        crc_bit-odd (bit_xor a b) (omega (arith, xor-parity a b))
        ∙ ap (bit_xor polynomial) (xor-half a b)
        ∙ sym (xor_assoc polynomial (a / 2) (b / 2))
        ∙ sym (ap₂ bit_xor (crc_bit-odd a oa) (crc_bit-even b eb))
    | inr ob ↦
        crc_bit-even (bit_xor a b) (omega (arith, xor-parity a b))
        ∙ xor-half a b
        ∙ sym (xor_cancel polynomial (bit_xor (a / 2) (b / 2)))
        ∙ sym (ap (bit_xor polynomial) (xor_swap polynomial (a / 2) (b / 2)))
        ∙ sym (xor_assoc polynomial (a / 2) (bit_xor polynomial (b / 2)))
        ∙ sym (ap₂ bit_xor (crc_bit-odd a oa) (crc_bit-odd b ob))
  ]
]

crc_bits-xor : (k a b : ℕ) → crc_bits k (bit_xor a b) ≡ bit_xor (crc_bits k a) (crc_bits k b)
unfolding crc_bits
crc_bits-xor zero a b = refl
crc_bits-xor (suc k) a b =
    ap (crc_bits k) (crc_bit-xor a b) ∙ crc_bits-xor k (crc_bit a) (crc_bit b)

-- Zeros are shifted out with no feedback.
crc_bits-shift : (k x : ℕ) → crc_bits k (x * 2 ^ k) ≡ x
unfolding crc_bits
crc_bits-shift zero x = omega arith
crc_bits-shift (suc k) x =
    ap (crc_bits k)
      (crc_bit-even (x * 2 ^ suc k) (omega (arith, double_pow x k)) ∙ omega (arith, double_pow x k))
    ∙ crc_bits-shift k x

-- A word is its low byte and the rest.
split_byte : (c : ℕ) → c ≡ bit_xor (c / 256 * 256) (c % 256)
split_byte c = omega (arith, xor_fields 8 (c / 256) (c % 256) (omega arith))

-- The high part of a register, once a byte has been added below it.
high_part : (c b : ℕ) → b < 256 → bit_xor c b / 256 ≡ c / 256
high_part c b h =
    let low : bit_xor (c % 256) b < 256 = xor-lt 8 (c % 256) b (omega arith) h in
    let e : bit_xor c b ≡ c / 256 * 256 + bit_xor (c % 256) b =
      ap (λ t. bit_xor t b) (split_byte c)
      ∙ xor_assoc (c / 256 * 256) (c % 256) b
      ∙ xor_fields 8 (c / 256) (bit_xor (c % 256) b) low in
    omega arith

-- For a byte `b` and any register, looking the low byte up in the table and shifting the rest is
-- the bitwise register run for eight bits on the register with the byte mixed in.
pub crc_byte-eq-crc_bits : (c b : ℕ) → b < 256 → crc_byte c b ≡ crc_bits 8 (bit_xor c b)
unfolding crc_byte crc_table
crc_byte-eq-crc_bits c b h =
    let x = bit_xor c b in
    rw (and_mask 8 x) (
      sym (
        ap (crc_bits 8) (split_byte x)
        ∙ crc_bits-xor 8 (x / 256 * 256) (x % 256)
        ∙ ap (λ t. bit_xor t (crc_bits 8 (x % 256))) (crc_bits-shift 8 (x / 256))
        ∙ xor_comm (x / 256) (crc_bits 8 (x % 256))
        ∙ ap (bit_xor (crc_bits 8 (x % 256))) (high_part c b h)))
