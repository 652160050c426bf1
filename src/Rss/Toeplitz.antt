-- ===== src/Rss/Toeplitz.antt =====
-- The Toeplitz hash against its definition by the bits of the input.
use fast_break.Base.{
  ℕ, zero, suc, ◌+◌, ◌-◌, ◌*◌, ◌/◌, ◌%◌, ◌^◌, ◌≤◌, ◌<◌, ◌≡◌, refl, sym, ap, ◌∙◌, List, [], ◌∷◌,
  arith, ◌==◌, bit_and, bit_xor, u32, ◌>>>◌, get_or, length, if◌then◌else◌, Bool-cases, inl, inr,
}
use fast_break.Base.Bits.{and_mask, xor-zero}
use fast_break.Rss.{Hashing, hash_bit, hash_bits, hash_bytes, input_bytes, first_window, toeplitz}
use fast_break.Rss.Window.{window_at, window_next, first_window_lem}

-- The bit `i` of a run of bytes, the high bit of the first byte being the bit 0.
abbrev pub input_bit : (ℕ → ℕ) → ℕ → ℕ
input_bit bytes i = bytes (i / 8) / 2 ^ (7 - i % 8) % 2

-- The windows of the first `n` bits that are set, combined.
unfoldable pub xor_windows : (ℕ → ℕ) → ℕ → ℕ
xor_windows bytes zero = 0
xor_windows bytes (suc n) =
    bit_xor (xor_windows bytes n) (if input_bit bytes n == 0 then 0 else window_at n)

abbrev locals : ℕ → ℕ → ℕ → Hashing
locals r w n = record { result = r; window = w; next_bit = n }

pick : (bit x w : ℕ) → (if bit == 0 then x else bit_xor x w) ≡ bit_xor x (if bit == 0 then 0 else w)
pick bit x w = elim (Bool-cases (bit == 0)) [
  | inl clear ↦ rw clear (sym (xor-zero x))
  | inr set ↦ rw set refl
]

module _ (bytes : ℕ → ℕ) where
  -- The loops' locals when `i` bits are done.
  abbrev at_bit : ℕ → Hashing
  at_bit i = locals (xor_windows bytes i) (window_at i) (32 + i)

  hash_bit_lem :
      (i bit : ℕ) → i < 96 → bit ≡ input_bit bytes i → hash_bit bit (at_bit i) ≡ at_bit (suc i)
  unfolding hash_bit xor_windows
  hash_bit_lem i bit lt e =
      let next : u32 (32 + i + 1) ≡ 32 + suc i = omega arith in
      let plus : i + 1 ≡ suc i = omega arith in
      rw (e, window_next i lt, next, plus)
        (ap (λ r. locals r (window_at (suc i)) (32 + suc i))
          (pick (input_bit bytes i) (xor_windows bytes i) (window_at i)))

  hash_bits_lem :
      (byte k bit : ℕ)
      → k < 12
      → bit ≤ 8
      → byte ≡ bytes k
      → hash_bits byte bit (at_bit (8 * k + (8 - bit))) ≡ at_bit (8 * k + 8)
  unfolding hash_bits
  hash_bits_lem byte k zero lt le e = refl
  hash_bits_lem byte k (suc bit) lt le e =
      let i = 8 * k + (8 - suc bit) in
      let byte_at : i / 8 ≡ k = omega arith in
      let place : 7 - i % 8 ≡ bit = omega arith in
      let same : bit_and (byte >>> bit) 1 ≡ input_bit bytes i =
        rw (byte_at, place, e) (and_mask 1 (bytes k / 2 ^ bit)) in
      let next : suc i ≡ 8 * k + (8 - bit) = omega arith in
      rw (hash_bit_lem i _ (omega arith) same, next) (hash_bits_lem byte k bit lt (omega arith) e)

  hash_bytes_lem :
      (rest : List ℕ) (k : ℕ)
      → k + length rest ≤ 12
      → ((j : ℕ) → j < length rest → get_or rest j 0 ≡ bytes (k + j))
      → hash_bytes rest (at_bit (8 * k)) ≡ at_bit (8 * (k + length rest))
  unfolding hash_bytes
  hash_bytes_lem [] k le same = ap (λ t. at_bit (8 * t)) {x = k} {y = k + 0} (omega arith)
  hash_bytes_lem (byte ∷ rest) k le same =
      let start : 8 * k ≡ 8 * k + (8 - 8) = omega arith in
      let next : 8 * k + 8 ≡ 8 * (k + 1) = omega arith in
      let end : k + length (byte ∷ rest) ≡ k + 1 + length rest = omega arith in
      let here = same 0 (omega arith) ∙ ap bytes {x = k + 0} {y = k} (omega arith) in
      let e : hash_bits byte 8 (at_bit (8 * k)) ≡ at_bit (8 * (k + 1)) =
        ap (λ t. hash_bits byte 8 (at_bit t)) start
        ∙ hash_bits_lem byte k 8 (omega arith) (omega arith) here
        ∙ ap at_bit next in
      rw (e, end)
        (hash_bytes_lem rest (k + 1) (omega arith) (λ j lt.
          same (suc j) (omega arith) ∙ ap bytes {x = k + suc j} {y = k + 1 + j} (omega arith)))

-- The hash is the exclusive or, over the 96 bits of the addresses and ports in network order, of
-- the 32-bit windows of the key that start at the bits that are set.
pub toeplitz_lem :
    (src_ip dst_ip src_port dst_port : ℕ)
    → let input = input_bytes src_ip dst_ip src_port dst_port in
      toeplitz src_ip dst_ip src_port dst_port ≡ xor_windows (λ k. get_or input k 0) 96
unfolding toeplitz input_bytes first_window xor_windows
toeplitz_lem src_ip dst_ip src_port dst_port =
    let input = input_bytes src_ip dst_ip src_port dst_port in
    let start : first_window ≡ at_bit (λ k. get_or input k 0) (8 * 0) =
      ap (λ w. locals 0 w 32) first_window_lem in
    let twelve : length input ≡ 12 = refl in
    ap (λ s. (hash_bytes input s).result) start
    ∙ ap (λ (s : Hashing). s.result)
        (hash_bytes_lem (λ k. get_or input k 0) input 0 (omega (arith, twelve))
          (λ j lt. ap (λ t. get_or input t 0) {x = j} {y = 0 + j} (omega arith)))
