-- ===== src/Base/Sums.antt =====
-- Sums over the numbers below a bound and over lists, with a weight for each item.
use Prim.Native.Nat.{ℕ, zero, suc, ◌+◌, ◌≤◌, ◌<◌}
use mathlib.Core.Path.{◌≡◌, refl, sym, ap}
use mathlib.Core.Logic.{◌≢◌}
use mathlib.Core.List.{List, [], ◌∷◌, ◌++◌}
use native.Mathlib.Omega.{arith}
use native.Mathlib.Decide.{dec_lt}
use fast_break.Base.Tests.{◌==◌, if◌then◌else◌, Bool-cases, ==→eq}
use fast_break.Base.Lists.{length}
use mathlib.Core.Logic.{inl, inr}

unfoldable pub sum_below : (ℕ → ℕ) → ℕ → ℕ
sum_below f zero = 0
sum_below f (suc k) = sum_below f k + f k

sum_below_ext :
    (f g : ℕ → ℕ) (k : ℕ) → ((i : ℕ) → i < k → g i ≡ f i) → sum_below g k ≡ sum_below f k
unfolding sum_below
sum_below_ext f g zero same = refl
sum_below_ext f g (suc k) same =
    omega (arith, sum_below_ext f g k (λ i lt. same i (omega arith)), same k (omega arith))

-- One term has changed.
pub sum_below_changed :
    (f g : ℕ → ℕ) (k q : ℕ)
    → q < k
    → ((i : ℕ) → i ≢ q → g i ≡ f i)
    → sum_below g k + f q ≡ sum_below f k + g q
unfolding sum_below
sum_below_changed f g zero q lt same = absurd (omega arith)
sum_below_changed f g (suc k) q lt same = elim (dec_lt q k) [
  | yes below ↦ omega (arith, sum_below_changed f g k q below same, same k (omega arith))
  | no top ↦
      let e : q ≡ k = omega arith in
      rw e (omega (arith, sum_below_ext f g k (λ i h. same i (omega arith))))
]

pub sum_below_term : (f : ℕ → ℕ) (k q : ℕ) → q < k → f q ≤ sum_below f k
unfolding sum_below
sum_below_term f zero q lt = absurd (omega arith)
sum_below_term f (suc k) q lt = elim (dec_lt q k) [
  | yes below ↦ omega (arith, sum_below_term f k q below)
  | no top ↦ let e : q ≡ k = omega arith in rw e (omega arith)
]

abbrev pub weigh : (ℕ → ℕ) → List ℕ → ℕ
weigh w [] = 0
weigh w (y ∷ ys) = w y + weigh w ys

pub weigh-append : (w : ℕ → ℕ) (xs ys : List ℕ) → weigh w (xs ++ ys) ≡ weigh w xs + weigh w ys
weigh-append w [] ys = omega arith
weigh-append w (x ∷ xs) ys = omega (arith, weigh-append w xs ys)

-- The weight that counts `x`, and the one that counts everything.
abbrev pub is : ℕ → ℕ → ℕ
is x y = if x == y then 1 else 0

abbrev pub any : ℕ → ℕ
any y = 1

pub weigh-any : (xs : List ℕ) → weigh any xs ≡ length xs
weigh-any [] = refl
weigh-any (x ∷ xs) = omega (arith, weigh-any xs)

-- What is counted is there.
pub weigh_split :
    (x : ℕ) (xs : List ℕ)
    → 0 < weigh (is x) xs
    → (before : List ℕ) × (after : List ℕ) × (xs ≡ before ++ (x ∷ after))
weigh_split x [] h = absurd (omega arith)
weigh_split x (y ∷ ys) h = elim (Bool-cases (x == y)) [
  | inl same ↦ ([], ys, ap (λ z. z ∷ ys) (sym (==→eq x y same)))
  | inr other ↦
      let (before, after, e) = weigh_split x ys (ground arith) in
      (y ∷ before, after, ap (λ l. y ∷ l) e)
]
