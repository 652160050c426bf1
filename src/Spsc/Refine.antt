-- ===== src/Spsc/Refine.antt =====
-- `push` and `pop` against the queue of Spsc/Queue.
use fast_break.Base.{
  ℕ, ◌-◌, ◌≤◌, ◌<◌, ◌≡◌, ◌↔◌, refl, ◌∙◌, true, false, List, [], ◌∷◌, ◌++◌, bit_and, arith, length,
  sub64, ◌==◌, Bool-cases, ==→eq, ==_refl, ne→==, inl, inr,
}
use fast_break.Base.PowerOfTwo.{IsPowerOfTwo, size-le}
use fast_break.Spsc.{Ring, store_at, fresh, push, pop, empty, size}
use fast_break.Spsc.Queue
use fast_break.Spsc.Queue.{Op, put, get, Reply, pushed, popped}
use fast_break.Spsc.Window.{
  length-window, contents, IsValid, contents-write, contents-publish, contents-take, contents-empty,
}

-- A client's calls in order, with what each returns.
unfoldable pub run : {T : Type 0} → ℕ → Ring T → List (Op T) → List (Reply T)
run N r [] = []
run N r (put x ∷ ops) = let (ok, r') = push N r x in pushed ok ∷ run N r' ops
run N r (get ∷ ops) = let (out, r') = pop N r in popped out ∷ run N r' ops

pub length-contents : {T : Type 0} (N : ℕ) (r : Ring T) → length (contents N r) ≡ size r
unfolding size
length-contents N r = length-window N r.slots r.head (sub64 r.tail r.head)

module _ {T : Type 0} {N : ℕ} (pow : IsPowerOfTwo N) where
  pub fresh-IsValid : (memory : ℕ → T) → IsValid N (fresh memory)
  unfolding fresh
  fresh-IsValid memory = omega arith

  module _ (r : Ring T) (v : IsValid N r) where
    -- A full ring is left as it is, with `false`.
    push-full : (x : T) → sub64 r.tail r.head ≡ N → push N r x ≡ (false, r)
    unfolding push
    push-full x e = rw (e, ==_refl N)

    -- With room, the item is the last of the contents, and the ring stays valid.
    push-room :
        (x : T)
        → sub64 r.tail r.head < N
        → let (done, r') = push N r x in
          (done ≡ true) × (contents N r' ≡ contents N r ++ (x ∷ [])) × IsValid N r'
    unfolding push
    push-room x lt =
        let written : Ring T = record r { slots = store_at r.slots (bit_and r.tail (N - 1)) x } in
        rw (ne→== (sub64 r.tail r.head) N (omega arith)) (
          refl,
          contents-publish pow written (omega arith) lt
              ∙ rw (contents-write pow r v x lt, ==_refl (bit_and r.tail (N - 1))),
          omega (arith, size-le pow),
        )

    pub push-IsValid : (x : T) → IsValid N (push N r x).1
    push-IsValid x = elim (Bool-cases (sub64 r.tail r.head == N)) [
      | inl e ↦ rw (push-full x (==→eq _ _ e)) v
      | inr ne ↦ (push-room x (ground arith)).2
    ]

    pub pop-IsValid : IsValid N (pop N r).1
    unfolding pop
    pop-IsValid = ground arith

    -- `push` returns what the bounded queue returns, and leaves the ring holding its queue.
    pub push_refines :
        (x : T)
        → let (done, r') = push N r x in (done, contents N r') ≡ Queue.push N (contents N r) x
    unfolding Queue.push
    push_refines x = elim (Bool-cases (sub64 r.tail r.head == N)) [
      | inl e ↦
          rw (push-full x (==→eq _ _ e), length-window N r.slots r.head (sub64 r.tail r.head), e)
      | inr ne ↦
          let (done, held, _) = push-room x (ground arith) in
          rw (done, held, length-window N r.slots r.head (sub64 r.tail r.head), ne)
    ]

    -- `pop` returns what the queue returns, and leaves the ring holding the rest.
    pub pop_refines : let (out, r') = pop N r in (out, contents N r') ≡ Queue.pop (contents N r)
    unfolding pop Queue.pop
    pop_refines = elim (Bool-cases (r.head == r.tail)) [
      | inl e ↦ rw (e, contents-empty pow r v (==→eq _ _ e))
      | inr ne ↦ rw (ne, contents-take pow r v (ground arith))
    ]

  -- For a power of two `N` and a valid ring, any sequence of `push` and `pop` calls returns
  -- exactly what a queue bounded by `N` returns from the ring's contents: the same pushes are
  -- refused, the same items come out in the same order, across the wrap of both counters.
  pub run_refines :
      (ops : List (Op T)) (r : Ring T) → IsValid N r → run N r ops ≡ Queue.run N (contents N r) ops
  unfolding run Queue.run
  run_refines [] r v = refl
  run_refines (put x ∷ ops) r v =
      rw (run_refines ops (push N r x).1 (push-IsValid r v x), ← push_refines r v x)
  run_refines (get ∷ ops) r v =
      rw (run_refines ops (pop N r).1 (pop-IsValid r v), ← pop_refines r v)

  -- For a power of two `N` and a valid ring, `size` is the number of items held, never above
  -- `N`, and `empty` tells whether it is 0.
  pub size_lem :
      (r : Ring T)
      → IsValid N r
      → (size r ≡ length (contents N r)) × (size r ≤ N) × ((empty r ≡ true) ↔ (size r ≡ 0))
  unfolding size empty
  size_lem r v = ground (arith, length-window N r.slots r.head (sub64 r.tail r.head))
