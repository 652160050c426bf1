-- ===== src/Tcp/Session/Region.antt =====
-- The buffers of a pool as regions of memory: what a write to one of them leaves of the others.
use fast_break.Base.{
  ℕ, ◌+◌, ◌-◌, ◌≤◌, ◌<◌, ◌≡◌, ◌⊎◌, refl, leb, sym, ap, ◌∙◌, inl, inr, List, ◌∷◌, arith, Bool-cases,
  ==_refl,
}
use mathlib.Core.Path.{fun_ext}
use fast_break.Base.Sums.{weigh, is}
use fast_break.Pool.{Pool}
use fast_break.Pool.Owned.{Owned, Owned-Once, Owned-address, Owned-apart, Spaced, address, is_out}
use fast_break.Tcp.Session.{put, view}

-- The bytes of the buffers of a pool, by buffer and offset.
abbrev pub seen : Pool → (ℕ → ℕ) → ℕ → ℕ → ℕ
seen p m x = view m (address p x)

pub put_self : (m : ℕ → ℕ) (at : ℕ) (f : ℕ → ℕ) → view (put m at f) at ≡ f
put_self m at f = fun_ext λ i. let e : at + i - at ≡ i = omega arith in ground (arith, ap f e)

put_other :
    (m : ℕ → ℕ) (at : ℕ) (f : ℕ → ℕ) (n a : ℕ)
    → (a < at) ⊎ (at + n ≤ a)
    → ((o : ℕ) → n ≤ o → f o ≡ m (at + o))
    → put m at f a ≡ m a
put_other m at f n a apart same = elim (Bool-cases (leb at a)) [
  | inl from ↦
      rw from (same (a - at) (ground arith) ∙ ap m {x = at + (a - at)} {y = a} (ground arith))
  | inr below ↦ rw below refl
]

-- A write to the first bytes of a buffer leaves those of the other buffers that are held.
pub put_apart :
    {p₀ pool : Pool} {xs : List ℕ} (b x : ℕ) (m f : ℕ → ℕ)
    → Spaced 1040 p₀
    → Owned p₀ pool (b ∷ xs)
    → 0 < weigh (is x) xs
    → ((o : ℕ) → 1040 ≤ o → f o ≡ m (address pool b + o))
    → (o : ℕ) → o < 1040
    → put m (address pool b) f (address p₀ x + o) ≡ m (address p₀ x + o)
put_apart {p₀} {pool} b x m f spaced owned mine same o lt =
    let one : is b b ≡ 1 = rw (==_refl b) refl in
    let off = is_out x b (omega (arith, Owned-Once spaced.once owned x)) in
    let apart = Owned-apart x b spaced owned (omega arith) (omega arith) (λ e. off (sym e)) in
    put_other m (address pool b) f 1040 (address p₀ x + o)
      (omega (arith, apart, Owned-address b owned)) same
