-- ===== src/Pool/Counted.antt =====
-- How often a buffer is among those that a pool's users hold.
use fast_break.Base.{
  ℕ, ◌+◌, ◌≤◌, ◌<◌, ◌≡◌, refl, inl, inr, true, false, List, [], ◌∷◌, arith, length, ◌==◌,
  Bool-cases, some,
}
use fast_break.Base.Sums.{weigh, is}
use fast_break.Pool.FreeStack.{Descriptor, empty_index}
use fast_break.Pool.{Pool, create}
use fast_break.Pool.Chain.{has}
use fast_break.Pool.Users.{Users, Reach, Distinct}
use fast_break.Pool.Client.{Reach-held}

weigh-is_out : (x : ℕ) (xs : List ℕ) → has x xs ≡ false → weigh (is x) xs ≡ 0
weigh-is_out x [] h = refl
weigh-is_out x (y ∷ ys) h = ground (arith, weigh-is_out x ys)

weigh-is_in : (x : ℕ) (xs : List ℕ) → 0 < weigh (is x) xs → has x xs ≡ true
weigh-is_in x xs h = elim (Bool-cases (has x xs)) [
  | inl e ↦ e
  | inr out ↦ absurd (omega (arith, weigh-is_out x xs out))
]

Distinct-once : (x : ℕ) (xs : List ℕ) → Distinct xs → weigh (is x) xs ≤ 1
Distinct-once x [] d = omega arith
Distinct-once x (y ∷ ys) (out, d) = elim (Bool-cases (x == y)) [
  | inl same ↦ ground (arith, weigh-is_out x ys)
  | inr other ↦ ground (arith, Distinct-once x ys d)
]

module _ (backing size n : ℕ) (memory : ℕ → Descriptor) {p : Pool} (marked : n ≤ empty_index)
    (made : create backing memory size n ≡ some p) where
  -- From a new pool, users that give back only what they hold never hold a buffer twice, nor one
  -- that is not the pool's.
  pub Reach-once :
      {s : Users}
      → Reach p s
      → ((x : ℕ) → (weigh (is x) s.held ≤ 1) × (0 < weigh (is x) s.held → x < n))
        × (s.pool.stack.size + length s.held ≡ n)
  Reach-once {s} r =
      let (distinct, bounded, total) = Reach-held backing size n memory marked made r in
      (λ x. (Distinct-once x s.held distinct, λ h. bounded x (weigh-is_in x s.held h)), total)
