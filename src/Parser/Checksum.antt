-- ===== src/Parser/Checksum.antt =====
-- The checksum of the IPv4 header, against the sum of its words in one's complement.
use fast_break.Base.{
  ℕ, zero, suc, ◌+◌, ◌*◌, ◌/◌, ◌%◌, ◌^◌, ◌≤◌, ◌<◌, ◌≡◌, ◌≢◌, ◌↔◌, refl, ap, ◌∙◌, true, arith,
  bit_and, ◌==◌, ==→eq, if◌then◌else◌, u32, ◌>>>◌,
}
use fast_break.Base.Bits.{and_mask, or_fields}
use fast_break.Parser.{from, rd16, View, header_len, sum_words, fold_carries, checksum_valid}

-- A byte of a buffer, read as the high part and the low part of a word.
pub rd16_lem : (p : ℕ → ℕ) → p 0 < 256 → p 1 < 256 → rd16 p ≡ 256 * p 0 + p 1
unfolding rd16
rd16_lem p h0 h1 = omega (arith, or_fields 8 (p 0) (p 1))

-- The sum of `k` words from the offset `i` on, with no bound.
unfoldable pub word_sum : (ℕ → ℕ) → ℕ → ℕ → ℕ
word_sum buf i zero = 0
word_sum buf i (suc k) = 256 * buf i + buf (i + 1) + word_sum buf (i + 2) k

word_sum-lt : (buf : ℕ → ℕ) (i k : ℕ) → ((j : ℕ) → buf j < 256) → word_sum buf i k ≤ 65535 * k
unfolding word_sum
word_sum-lt buf i zero bytes = omega arith
word_sum-lt buf i (suc k) bytes =
    omega (arith, bytes i, bytes (i + 1), word_sum-lt buf (i + 2) k bytes)

-- The loop adds the words up: with 30 of them no sum reaches 2 ^ 32.
sum_words_lem :
    (k fuel i : ℕ) (buf : ℕ → ℕ) (sum : ℕ)
    → ((j : ℕ) → buf j < 256)
    → k ≤ fuel
    → sum + 65535 * k < 2 ^ 32
    → sum_words fuel i (i + 2 * k) buf sum ≡ sum + word_sum buf i k
unfolding sum_words word_sum
sum_words_lem zero zero i buf sum bytes le small = omega arith
sum_words_lem zero (suc fuel) i buf sum bytes le small = ground arith
sum_words_lem (suc k) zero i buf sum bytes le small = elim le [ ]
sum_words_lem (suc k) (suc fuel) i buf sum bytes le small =
    let word : rd16 (from i buf) ≡ 256 * buf i + buf (i + 1) =
      rd16_lem (from i buf) (bytes (i + 0)) (bytes (i + 1))
      ∙ ap (λ t. 256 * buf t + buf (i + 1)) {x = i + 0} {y = i} (omega arith) in
    let sum' = sum + (256 * buf i + buf (i + 1)) in
    let added : u32 (sum + rd16 (from i buf)) ≡ sum' =
      omega (arith, word, bytes i, bytes (i + 1)) in
    let rest =
      sum_words_lem k fuel (i + 2) buf sum' bytes (omega arith)
        (omega (arith, bytes i, bytes (i + 1))) in
    let end : i + 2 * suc k ≡ i + 2 + 2 * k = omega arith in rw (added, end) (ground (arith, rest))

fold_round :
    (fuel s : ℕ)
    → s < 2 ^ 32
    → fold_carries (suc fuel) s
      ≡ (if s / 65536 == 0 then s else fold_carries fuel (s % 65536 + s / 65536))
unfolding fold_carries
fold_round fuel s h =
    let sum : u32 (bit_and s 0xFFFF + (s >>> 16)) ≡ s % 65536 + s / 65536 =
      omega (arith, and_mask 16 s) in
    rw sum refl

-- Folding keeps the residue by 65535, and ends below 2 ^ 16, at 0 only for 0.
fold_carries_lem :
    (s : ℕ) → s < 2 ^ 32 → ((fold_carries 2 s ≡ 0xFFFF) ↔ ((s ≢ 0) × (s % 65535 ≡ 0)))
unfolding fold_carries
fold_carries_lem s h =
    let t = s % 65536 + s / 65536 in
    rw (fold_round 1 s h, fold_round 0 t (omega arith), fold_carries) (ground arith)

-- On a buffer of bytes, `checksum_valid` holds exactly if the words of the header add up, with
-- no bound on the number, to a multiple of 65535 that is not 0.
pub checksum_valid_iff :
    (v : View)
    → ((j : ℕ) → v.buf j < 256)
    → let total = word_sum v.buf 0 (2 * (v.buf 0 % 16)) in
      (checksum_valid v ≡ true) ↔ ((total ≢ 0) × (total % 65535 ≡ 0))
unfolding checksum_valid header_len
checksum_valid_iff v bytes =
    let k = 2 * (v.buf 0 % 16) in
    let total = word_sum v.buf 0 k in
    let len : bit_and (v.buf 0) 0x0F * 4 ≡ 0 + 2 * k = omega (arith, and_mask 4 (v.buf 0)) in
    let small : total < 2 ^ 32 = omega (arith, word_sum-lt v.buf 0 k bytes) in
    let sum : sum_words 30 0 (0 + 2 * k) v.buf 0 ≡ total =
      sum_words_lem k 30 0 v.buf 0 bytes (omega arith) (omega arith) ∙ omega arith in
    let (to, back) = fold_carries_lem total small in
    rw (len, sum) (λ e. to (==→eq _ _ e), λ h. rw (back h) refl)
