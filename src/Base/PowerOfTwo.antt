-- ===== src/Base/PowerOfTwo.antt =====
-- What the test `N != 0 && (N & (N - 1)) == 0` gives of a `size_t` N: it is a power of two, masking
-- by `N - 1` is the remainder by N, and wrapping at 2 ^ 64 does not disturb that remainder.
use Prim.Native.Nat.{ℕ, zero, suc, ◌+◌, ◌-◌, ◌*◌, ◌/◌, ◌%◌, ◌^◌, ◌≤◌, ◌<◌, ◌∣◌, bit_and}
use mathlib.Core.Path.{◌≡◌, refl, ap}
use mathlib.Core.Logic.{◌≢◌, ◌⊎◌, inl, inr}
use native.Mathlib.Nat.{pow-suc, pow-le-pow_right, mod-mod_of_dvd, dvd_refl}
use native.Mathlib.Nat.{dvd-mul_right_of_dvd}
use native.Mathlib.Decide.{dec_lt, dec_le}
use native.Mathlib.Omega.{arith}
use fast_break.Base.Bits.{and_digit, and_mask}

-- The `static_assert` of the ring, and the `assert` of the distributor.
pub record IsPowerOfTwo (n : ℕ) : Type 0 where
  pub nonzero : n ≢ 0
  pub one_bit : bit_and n (n - 1) ≡ 0
  pub fits : n < 2 ^ 64

and_self_upto : (n a : ℕ) → a ≤ n → bit_and a a ≡ a
and_self_upto n zero h = refl
and_self_upto zero (suc a) h = absurd (omega arith)
and_self_upto (suc n) (suc a) h =
    omega (arith, and_digit (suc a) (suc a), and_self_upto n (suc a / 2) (omega arith))

-- A number is even or odd.
halves : (n : ℕ) → (n ≡ 2 * (n / 2)) ⊎ (n ≡ 2 * (n / 2) + 1)
halves n = omega arith

exponent : (fuel n : ℕ) → n ≤ fuel → n ≢ 0 → bit_and n (n - 1) ≡ 0 → (k : ℕ) × (n ≡ 2 ^ k)
exponent fuel zero h p q = absurd (p refl)
exponent zero (suc n) h p q = absurd (omega arith)
exponent (suc fuel) (suc n) h p q = elim (halves (suc n)) [
  | inl even ↦
      let (k, e) = exponent fuel (suc n / 2) (omega arith) (omega arith) (
        omega (
          arith,
          and_digit (suc n) (suc n - 1),
          ap (bit_and (suc n / 2)) {x = (suc n - 1) / 2} {y = suc n / 2 - 1} (omega arith),
        )) in
      (suc k, omega (arith, pow-suc 2 k))
  | inr odd ↦ (
    0,
    omega (
      arith,
      and_digit (suc n) (suc n - 1),
      ap (bit_and (suc n / 2)) {x = (suc n - 1) / 2} {y = suc n / 2} (omega arith),
      and_self_upto (suc n / 2) (suc n / 2) (omega arith),
    ),
  )
]

pow-dvd : (i j : ℕ) → i ≤ j → 2 ^ i ∣ 2 ^ j
pow-dvd i zero h = let e : i ≡ 0 = omega arith in rw e (dvd_refl (2 ^ 0))
pow-dvd i (suc j) h = elim (dec_le i j) [
  | yes p ↦ rw (pow-suc 2 j) (dvd-mul_right_of_dvd (2 ^ i) (pow-dvd i j p) 2)
  | no p ↦ let e : i ≡ suc j = omega arith in rw e (dvd_refl (2 ^ suc j))
]

mask_at : (k n x : ℕ) → n ≡ 2 ^ k → bit_and x (n - 1) ≡ x % n
mask_at k n x e = rw e (and_mask k x)

mod_word_at : (k n j x : ℕ) → n ≡ 2 ^ k → k ≤ j → x % 2 ^ j % n ≡ x % n
mod_word_at k n j x e h = rw e (mod-mod_of_dvd (2 ^ k) x (pow-dvd k j h))

module _ {n : ℕ} (size : IsPowerOfTwo n) where
  pub size_pos : 0 < n
  size_pos = omega (arith, size.nonzero)

  log : (k : ℕ) × (n ≡ 2 ^ k)
  log = exponent n n (omega arith) size.nonzero size.one_bit

  log-lt : log.0 < 64
  log-lt = elim (dec_lt log.0 64) [
    | yes p ↦ p
    | no p ↦ absurd (
        omega (
          arith,
          pow-le-pow_right {n = 2} (omega arith) {i = 64} {j = log.0} (omega arith),
          log.1,
          size.fits,
        ))
  ]

  pub size-le : n ≤ 2 ^ 63
  size-le = omega (
    arith,
    log.1,
    pow-le-pow_right {n = 2} (omega arith) {i = log.0} {j = 63} (omega (arith, log-lt)),
  )

  pub mask_lem : (x : ℕ) → bit_and x (n - 1) ≡ x % n
  mask_lem x = mask_at log.0 n x log.1

  pub mod_u64 : (x : ℕ) → x % 2 ^ 64 % n ≡ x % n
  mod_u64 x = mod_word_at log.0 n 64 x log.1 (omega (arith, log-lt))
