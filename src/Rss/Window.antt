-- ===== src/Rss/Window.antt =====
-- The window over the key that slides by one bit in each round, against the key as one number.
use fast_break.Base.{
  ℕ, zero, suc, ◌+◌, ◌-◌, ◌*◌, ◌/◌, ◌%◌, ◌^◌, ◌<◌, ◌≡◌, refl, ap, Bool, true, ◌&&◌, List, [], ◌∷◌,
  arith, ◌==◌, ==→eq, bit_or, u32, ◌<<<◌,
}
use fast_break.Rss.{rss_key, key_bit, first_window}

-- The bytes as one number, the first the highest.
abbrev big_endian : ℕ → List ℕ → ℕ
big_endian n [] = n
big_endian n (b ∷ bs) = big_endian (256 * n + b) bs

-- The 32 bits of the key from the bit `i` on.
unfoldable pub window_at : ℕ → ℕ
window_at i = big_endian 0 rss_key / 2 ^ (320 - 32 - i) % 2 ^ 32

abbrev slides : ℕ → Bool
slides i = bit_or (u32 (window_at i <<< 1)) (key_bit (32 + i)) == window_at (i + 1)

abbrev all_below : (ℕ → Bool) → ℕ → Bool
all_below f zero = true
all_below f (suc n) = f n && all_below f n

all_below_lem : (f : ℕ → Bool) (n i : ℕ) → all_below f n ≡ true → i < n → f i ≡ true
all_below_lem f zero i h lt = absurd (omega arith)
all_below_lem f (suc n) i h lt = ground (arith, all_below_lem f n i, ap f {x = i} {y = n})

slides_all : all_below slides 96 ≡ true
unfolding window_at key_bit
slides_all = refl

pub window_next :
    (i : ℕ) → i < 96 → bit_or (u32 (window_at i <<< 1)) (key_bit (32 + i)) ≡ window_at (i + 1)
window_next i lt = ==→eq _ _ (all_below_lem slides 96 i slides_all lt)

pub first_window_lem : first_window.window ≡ window_at 0
unfolding first_window window_at
first_window_lem = refl
