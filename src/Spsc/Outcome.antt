-- ===== src/Spsc/Outcome.antt =====
-- What a whole call of `push` or `pop` does to the contents of a valid ring, by its result.
use fast_break.Base.{
  ℕ, ◌≡◌, ◌⊎◌, inl, inr, refl, sym, ap, ap₂, Bool, true, false, Option, none, some, Option-cases,
  some_inj, List, [], ◌∷◌, ◌++◌, length, ◌==◌, ==→eq, Bool-cases,
}
use fast_break.Base.PowerOfTwo.{IsPowerOfTwo}
use fast_break.Spsc.{Ring, push, pop}
use fast_break.Spsc.Queue
use fast_break.Spsc.Window.{contents, IsValid}
use fast_break.Spsc.Refine.{push_refines, pop_refines}

module _ {T : Type 0} where
  popped_none : (xs ys : List T) → (none, ys) ≡ Queue.pop xs → (xs ≡ []) × (ys ≡ [])
  unfolding Queue.pop
  popped_none [] ys e = (refl, ap (λ (p : Option T × List T). p.1) e)
  popped_none (x ∷ xs) ys e = absurd (cc (ap (λ (p : Option T × List T). p.0) e))

  popped_some : (b : T) (xs ys : List T) → (some b, ys) ≡ Queue.pop xs → xs ≡ b ∷ ys
  unfolding Queue.pop
  popped_some b [] ys e = absurd (cc (ap (λ (p : Option T × List T). p.0) e))
  popped_some b (x ∷ xs) ys e =
      ap₂ ◌∷◌ (sym (some_inj (ap (λ (p : Option T × List T). p.0) e)))
        (sym (ap (λ (p : Option T × List T). p.1) e))

  module _ {N : ℕ} (pow : IsPowerOfTwo N) (r : Ring T) (v : IsValid N r) where
    pub pop_outcome :
        let (out, r') = pop N r in
        ((out ≡ none) × (contents N r ≡ []) × (contents N r' ≡ []))
        ⊎ ((x : T) × (out ≡ some x) × (contents N r ≡ x ∷ contents N r'))
    pop_outcome =
        let out = pop_refines pow r v in
        elim (Option-cases ((pop N r).0)) [
          | inl gone ↦
              let (before, after) = popped_none _ _ (rw gone at out) in inl (gone, before, after)
          | inr (x, got) ↦ inr (x, got, popped_some x _ _ (rw got at out))
        ]

    pub push_outcome :
        (x : T)
        → let (done, r') = push N r x in
          ((done ≡ true) × (contents N r' ≡ contents N r ++ (x ∷ [])))
          ⊎ ((done ≡ false) × (length (contents N r) ≡ N) × (contents N r' ≡ contents N r))
    unfolding Queue.push
    push_outcome x =
        let out = push_refines pow r v x in
        elim (Bool-cases (length (contents N r) == N)) [
          | inl full ↦
              let e = rw full at out in
              inr (
                ap (λ (p : Bool × List T). p.0) e,
                ==→eq _ _ full,
                ap (λ (p : Bool × List T). p.1) e,
              )
          | inr room ↦
              let e = rw room at out in
              inl (ap (λ (p : Bool × List T). p.0) e, ap (λ (p : Bool × List T). p.1) e)
        ]
