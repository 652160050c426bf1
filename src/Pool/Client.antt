-- ===== src/Pool/Client.antt =====
-- What a pool's users see of it, from a new pool on.
use fast_break.Base.{
  ℕ, ◌+◌, ◌≤◌, ◌<◌, ◌≡◌, ◌↔◌, ◌∙◌, true, false, none, some, List, [], ◌∷◌, arith, length,
}
use fast_break.Base.{sym, some_inj}
use fast_break.Pool.FreeStack.{Descriptor, empty_index}
use fast_break.Pool.{Pool, acquire, create}
use fast_break.Pool.Create.{create-IsPool, countdown, length-countdown}
use fast_break.Pool.Chain.{has}
use fast_break.Pool.Users.{
  Users, Reach, here, next, Distinct, Shares, Shares-get, Shares-none, Step-Shares,
}

module _ (backing size n : ℕ) (memory : ℕ → Descriptor) {p : Pool} (marked : n ≤ empty_index)
    (made : create backing memory size n ≡ some p) where
  Reach-Shares : {s : Users} → Reach p s → (free : List ℕ) × Shares n s free
  Reach-Shares here =
      let (v, count) = create-IsPool backing memory size n marked made in
      (
        countdown n,
        record {
          pool = v;
          capacity = count;
          distinct = tt;
          bounded = λ x i. cc;
          apart = λ x i. cc;
          total = omega (arith, length-countdown n);
        },
      )
  Reach-Shares (next r st) = let (free, h) = Reach-Shares r in Step-Shares free st h

  pub Reach-held :
      {s : Users}
      → Reach p s
      → Distinct s.held
        × ((x : ℕ) → has x s.held ≡ true → x < n)
        × (s.pool.stack.size + length s.held ≡ n)
  Reach-held r =
      let (free, h) = Reach-Shares r in
      (h.distinct, h.bounded, omega (arith, h.total, h.pool.stack.count))

  -- From a new pool of `n` buffers, with `n` below the empty mark, after any calls of users
  -- that give back only what they hold: a buffer that `acquire` returns is one of the `n`, and
  -- no user holds it.
  pub acquire-unshared :
      {s : Users} {x : ℕ}
      → Reach p s
      → (acquire s.pool).0 ≡ some x
      → (has x s.held ≡ false) × (x < n)
  acquire-unshared {s} {x} r e = go (Reach-Shares r).0 (Reach-Shares r).1
    where
      go : (free : List ℕ) → Shares n s free → (has x s.held ≡ false) × (x < n)
      go [] h = absurd (cc ((Shares-none h).0))
      go (y ∷ rest) h =
          let (got, new, lt, _) = Shares-get y rest h in
          let same : y ≡ x = some_inj (sym got ∙ e) in rw (← same) (new, lt)

  -- From a new pool of `n` buffers, with `n` below the empty mark, after any calls of users
  -- that give back only what they hold: `acquire` fails exactly when the users hold all `n`,
  -- and the stack's size is `n` less what they hold.
  pub acquire-none_iff :
      {s : Users}
      → Reach p s
      → (((acquire s.pool).0 ≡ none) ↔ (length s.held ≡ n))
        × (s.pool.stack.size + length s.held ≡ n)
  acquire-none_iff {s} r = go (Reach-Shares r).0 (Reach-Shares r).1
    where
      go :
          (free : List ℕ)
          → Shares n s free
          → (((acquire s.pool).0 ≡ none) ↔ (length s.held ≡ n))
            × (s.pool.stack.size + length s.held ≡ n)
      go [] h =
          let (e, all, _) = Shares-none h in
          ((λ _. all, λ _. e), omega (arith, h.total, h.pool.stack.count))
      go (y ∷ rest) h =
          let got = (Shares-get y rest h).0 in
          (
            (λ e. absurd (cc got), λ e. absurd (omega (arith, h.total))),
            omega (arith, h.total, h.pool.stack.count),
          )
