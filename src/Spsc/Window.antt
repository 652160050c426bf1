-- ===== src/Spsc/Window.antt =====
-- The items between the two counters, as a list, and what a write or a moved counter does to it.
use fast_break.Base.{
  ℕ, zero, suc, ◌+◌, ◌-◌, ◌^◌, ◌≤◌, ◌<◌, ◌≡◌, ◌≢◌, refl, ap, ap₂, ◌∙◌, List, [], ◌∷◌, ◌++◌, bit_and,
  arith, length, u64, sub64, ne→==,
}
use fast_break.Base.PowerOfTwo.{IsPowerOfTwo, size-le, mask_lem, mod_u64}
use native.Mathlib.Nat.{mod-add-mod}
use fast_break.Base.Modulus.{mod_moved}
use fast_break.Spsc.{Ring, store_at}

-- The items of the next `n` slots from counter `h` on.
module _ {T : Type 0} (N : ℕ) (slots : ℕ → T) where
  unfoldable pub window : ℕ → ℕ → List T
  window h zero = []
  window h (suc n) = slots (bit_and h (N - 1)) ∷ window (u64 (h + 1)) n

  pub length-window : (h n : ℕ) → length (window h n) ≡ n
  unfolding window
  length-window h zero = refl
  length-window h (suc n) = ap suc (length-window (u64 (h + 1)) n)

abbrev pub contents : {T : Type 0} → ℕ → Ring T → List T
contents N r = window N r.slots r.head (sub64 r.tail r.head)

-- Both counters are words, and never more than `N` apart.
pub record IsValid {T : Type 0} (N : ℕ) (r : Ring T) : Type 0 where
  pub head_word : r.head < 2 ^ 64
  pub tail_word : r.tail < 2 ^ 64
  pub within : sub64 r.tail r.head ≤ N

-- Counters that are `d` apart, with `0 < d < N`, have different slots.
pub slot_ne :
    {N : ℕ}
    → IsPowerOfTwo N
    → (h d c : ℕ) → c ≡ u64 (h + d)
    → 0 < d
    → d < N
    → bit_and c (N - 1) ≢ bit_and h (N - 1)
slot_ne {N} pow h d c e pos lt =
    rw (e, mask_lem pow (u64 (h + d)), mask_lem pow h, mod_u64 pow (h + d), ← mod-add-mod h N d)
      (mod_moved N h d pos lt)

module _ {T : Type 0} {N : ℕ} (pow : IsPowerOfTwo N) where
  -- A write to the slot of a counter `c`, `m` counters on, is not seen by the window of `n ≤ m`
  -- items.
  pub window-store :
      (slots : ℕ → T) (v : T) (h n m c : ℕ)
      → c ≡ u64 (h + m)
      → n ≤ m
      → m < N
      → window N (store_at slots (bit_and c (N - 1)) v) h n ≡ window N slots h n
  unfolding window
  window-store slots v h zero m c e le lt = refl
  window-store slots v h (suc n) m c e le lt =
      ap₂ ◌∷◌ (rw (ne→== _ _ (slot_ne pow h m c e (omega arith) lt)))
        (window-store slots v (u64 (h + 1)) n (m - 1) c (omega arith) (omega arith) (omega arith))

-- One more counter adds the item of its slot at the end.
pub window-suc :
    {T : Type 0} (N : ℕ) (slots : ℕ → T) (h n : ℕ)
    → h < 2 ^ 64
    → window N slots h (suc n) ≡ window N slots h n ++ (slots (bit_and (u64 (h + n)) (N - 1)) ∷ [])
unfolding window
window-suc N slots h zero lt =
    ap (λ c. slots (bit_and c (N - 1)) ∷ []) {x = h} {y = u64 (h + 0)} (omega arith)
window-suc N slots h (suc n) lt = ap (◌∷◌ (slots (bit_and h (N - 1)))) (
    window-suc N slots (u64 (h + 1)) n (omega arith)
    ∙ ap (λ c. window N slots (u64 (h + 1)) n ++ (slots (bit_and c (N - 1)) ∷ []))
        {x = u64 (u64 (h + 1) + n)} {y = u64 (h + suc n)} (omega arith))

-- The three changes that an operation makes, in terms of the counters.
module _ {T : Type 0} {N : ℕ} (pow : IsPowerOfTwo N) (r : Ring T) (v : IsValid N r) where
  pub contents-write :
      (x : T)
      → sub64 r.tail r.head < N
      → contents N (record r { slots = store_at r.slots (bit_and r.tail (N - 1)) x }) ≡ contents N r
  contents-write x lt =
      window-store pow r.slots x r.head (sub64 r.tail r.head) (sub64 r.tail r.head) r.tail
        (omega (arith, v.head_word, v.tail_word)) (omega arith) lt

  pub contents-publish :
      sub64 r.tail r.head < N
      → contents N (record r { tail = u64 (r.tail + 1) })
        ≡ contents N r ++ (r.slots (bit_and r.tail (N - 1)) ∷ [])
  contents-publish lt =
      ap (window N r.slots r.head) {x = sub64 (u64 (r.tail + 1)) r.head}
        {y = suc (sub64 r.tail r.head)} (omega (arith, v.head_word, v.tail_word, size-le pow))
      ∙ window-suc N r.slots r.head (sub64 r.tail r.head) v.head_word
      ∙ ap (λ c. contents N r ++ (r.slots (bit_and c (N - 1)) ∷ []))
          {x = u64 (r.head + sub64 r.tail r.head)} {y = r.tail}
          (omega (arith, v.head_word, v.tail_word))

  pub contents-take :
      0 < sub64 r.tail r.head
      → contents N r
        ≡ r.slots (bit_and r.head (N - 1)) ∷ contents N (record r { head = u64 (r.head + 1) })
  unfolding window
  contents-take pos =
      ap (window N r.slots r.head) {x = sub64 r.tail r.head}
        {y = suc (sub64 r.tail (u64 (r.head + 1)))} (omega (arith, v.head_word, v.tail_word))

  pub contents-empty : r.head ≡ r.tail → contents N r ≡ []
  unfolding window
  contents-empty e =
      ap (window N r.slots r.head) {x = sub64 r.tail r.head} {y = 0} (omega (arith, v.tail_word))

  pub publish-IsValid : sub64 r.tail r.head < N → IsValid N (record r { tail = u64 (r.tail + 1) })
  publish-IsValid lt = omega (arith, v.head_word, v.tail_word, size-le pow)

  pub take-IsValid : 0 < sub64 r.tail r.head → IsValid N (record r { head = u64 (r.head + 1) })
  take-IsValid pos = omega (arith, v.head_word, v.tail_word, v.within)
