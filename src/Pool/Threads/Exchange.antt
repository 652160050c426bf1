-- ===== src/Pool/Threads/Exchange.antt =====
-- What a compare-exchange that succeeds does: it is a whole `push` or `pop`.
use fast_break.Base.{
  ℕ, ◌^◌, ◌≤◌, ◌<◌, ◌≡◌, refl, sym, ap, ◌∙◌, inl, inr, none, some, List, arith, ◌==◌, ne→==, ==→eq,
  Bool-cases,
}
use fast_break.Pool.FreeStack.{FreeStack, empty_index, gen_of, index_of, push, pop}
use fast_break.Pool.Chain.{IsStack}
use fast_break.Pool.Threads.{
  Thread, System, renewed, Step, load_to_push, link, retry_push, swap_push, count_push, load_to_pop,
  find_empty, read_link, retry_pop, swap_pop, count_pop, Reach, here, next,
}
use fast_break.Pool.Threads.Inv.{Inv, head_free, head-lt, known, Step-Inv}

swaps_grow : {s u : System} → Step s u → s.swaps ≤ u.swaps
swaps_grow (load_to_push t index _ _) = omega arith
swaps_grow (link t _) = omega arith
swaps_grow (retry_push t _) = omega arith
swaps_grow (swap_push t _ _) = omega arith
swaps_grow (count_push t _) = omega arith
swaps_grow (load_to_pop t _) = omega arith
swaps_grow (find_empty t _ _) = omega arith
swaps_grow (read_link t _ _) = omega arith
swaps_grow (retry_pop t _) = omega arith
swaps_grow (swap_pop t _ _) = omega arith
swaps_grow (count_pop t _) = omega arith

module _ {n : ℕ} {stack : FreeStack} {all : List ℕ} (v : IsStack n stack all) where
  Reach-Inv : {s : System} → Reach stack s → s.swaps < 2 ^ 32 → (free : List ℕ) × Inv n s free
  Reach-Inv here few = (
    all,
    record {
      chain = v.chain;
      generation = refl;
      unowned = λ b h. refl;
      owned = λ b t h. absurd (cc h);
      knows = λ t. tt;
    },
  )
  Reach-Inv (next r st) few =
      let (free, i) = Reach-Inv r (omega (arith, swaps_grow st)) in Step-Inv v.marked free st few i

  -- Several threads make the accesses of `push` and `pop` in any order, each pushing only what
  -- it owns, from a stack whose buffers are all free. While the exchanges are fewer than 2 ^
  -- 32 in all: when the exchange of a `pop` succeeds, it takes the buffer and leaves the head
  -- of a whole `pop` at that moment, and the buffer is one of the stack's and no thread's,
  -- however stale the link was when it was read.
  pub swap_pop_lem :
      {s : System} {old after : ℕ} (t : ℕ)
      → Reach stack s
      → s.swaps < 2 ^ 32
      → s.threads t ≡ Thread.pop_read old after
      → s.stack.top ≡ old
      → (index_of old ≡ (pop s.stack).0)
        × (renewed old after ≡ (pop s.stack).1.top)
        × (index_of old < n)
        × (s.owner (index_of old) ≡ none)
  unfolding pop
  swap_pop_lem {s} {old} {after} t r few e same =
      let (free, i) = Reach-Inv r few in
      let (_, some_left, read) = known v.marked s t (Thread.pop_read old after) free e i in
      let g : gen_of old ≡ s.swaps = rw (← same) i.generation in
      let mine : s.owner (index_of old) ≡ none = i.unowned (index_of old) (
        rw (← same) (
          head_free s.stack.descriptors n (index_of s.stack.top) free i.chain
            (rw (← same) at some_left))) in
      rw (same, ne→== (index_of old) empty_index some_left)
        (
          refl,
          ap (renewed old) (sym (read g)),
          head-lt s.stack.descriptors n (index_of old) free (rw same at i.chain) some_left,
          mine,
        )

  -- With fewer than 2 ^ 32 exchanges, one that puts a buffer on the stack leaves the head and the
  -- links of a whole `push`, and until then the buffer is the thread's.
  pub swap_push_lem :
      {s : System} {index old : ℕ} (t : ℕ)
      → Reach stack s
      → s.swaps < 2 ^ 32
      → s.threads t ≡ Thread.push_linked index old
      → s.stack.top ≡ old
      → (renewed old index ≡ (push index s.stack).top)
        × ((j : ℕ) → (s.stack.descriptors j).next ≡ ((push index s.stack).descriptors j).next)
        × (s.owner index ≡ some t)
  unfolding push
  swap_push_lem {s} {index} {old} t r few e same =
      let (free, i) = Reach-Inv r few in
      let (own, linked) = known v.marked s t (Thread.push_linked index old) free e i in
      (
        ap (λ x. renewed x index) (sym same),
        λ j. elim (Bool-cases (index == j)) [
          | inl hit ↦ rw hit (
              ap (λ x. (s.stack.descriptors x).next) (sym (==→eq index j hit))
              ∙ linked
              ∙ ap index_of (sym same))
          | inr other ↦ rw other refl
        ],
        own,
      )
