-- ===== src/Base/Modulus.antt =====
-- Remainders by a number that is not known.
use Prim.Native.Nat.{ℕ, ◌+◌, ◌-◌, ◌%◌, ◌<◌}
use mathlib.Core.Path.{◌≡◌, ◌∙◌}
use mathlib.Core.Logic.{◌≢◌}
use native.Mathlib.Omega.{arith}
use native.Mathlib.Nat.{mod-add-mod, mod-eq_of_lt, mod-eq-sub-mod, mod-lt}
use native.Mathlib.Decide.{dec_lt}

-- A remainder moves on by less than `n` without coming back.
pub mod_moved : (n a d : ℕ) → 0 < d → d < n → (a % n + d) % n ≢ a % n
mod_moved n a d pos lt = elim (dec_lt (a % n + d) n) [
  | yes p ↦ omega (arith, mod-eq_of_lt p)
  | no p ↦ omega (
    arith,
    mod-lt a {m = n} (omega arith),
    mod-eq-sub-mod {n = a % n + d} {m = n} (omega arith),
    mod-eq_of_lt {n = a % n + d - n} {m = n} (omega (arith, mod-lt a {m = n} (omega arith))),
  )
]

-- Numbers less than `n` apart have different remainders.
pub mod-ne : (n a d : ℕ) → 0 < d → d < n → (a + d) % n ≢ a % n
mod-ne n a d pos lt e = mod_moved n a d pos lt (mod-add-mod a n d ∙ e)

pub mod_next : (n a d : ℕ) → (a % n + d) % n ≡ (a + d) % n
mod_next n a d = mod-add-mod a n d
