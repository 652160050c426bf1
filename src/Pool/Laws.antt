-- ===== src/Pool/Laws.antt =====
-- What `acquire` and `release` do to the free buffers of a pool.
use fast_break.Base.{
  ℕ, ◌+◌, ◌<◌, ◌≡◌, refl, ◌∙◌, false, none, some, List, [], ◌∷◌, arith, ==_refl, ne→==, u64,
}
use fast_break.Pool.FreeStack.{FreeStack, empty_index, index_of, update}
use fast_break.Pool.{Pool, set_len, clear_len, acquire, release}
use fast_break.Pool.Chain.{
  has, IsStack, Chain-update, Chain-frame, push-IsStack, pop-nil, pop-cons, push_keeps,
}

-- `xs` are the free buffers, the next to be handed out first.
pub record IsPool (p : Pool) (xs : List ℕ) : Type 0 where
  pub stack : IsStack p.buffer_count p.stack xs
  pub indices : (i : ℕ) → i < p.buffer_count → (p.stack.descriptors i).pool_index ≡ i

clear_len-IsStack :
    {n : ℕ} {s : FreeStack} {xs : List ℕ} (b : ℕ)
    → IsStack n s xs
    → has b xs ≡ false
    → IsStack n (clear_len b s) xs
unfolding clear_len
clear_len-IsStack {n} {s} {xs} b v out = record {
  marked = v.marked;
  chain = Chain-update s.descriptors n _ b _ xs out v.chain;
  count = v.count;
}

module _ {p : Pool} where
  -- With no free buffer `acquire` returns null, counts it, and changes nothing else.
  pub acquire-nil :
      IsPool p [] → acquire p ≡ (none, record p { total_exhausted = u64 (p.total_exhausted + 1) })
  unfolding acquire
  acquire-nil v = rw (pop-nil v.stack)

  -- Else it hands out the buffer that was freed last, and the others stay free.
  pub acquire-cons :
      {x : ℕ} {xs : List ℕ}
      → IsPool p (x ∷ xs)
      → let (got, q) = acquire p in
        (got ≡ some x)
        × IsPool q xs
        × (q.buffer_count ≡ p.buffer_count)
        × (q.stack.descriptors ≡ p.stack.descriptors)
        × (q.total_acquires ≡ u64 (p.total_acquires + 1))
  unfolding acquire
  acquire-cons {x} {xs} v =
      let (e, lt, same, rest) = pop-cons v.stack in
      rw (e, ne→== x empty_index (omega (arith, v.stack.marked)))
        (refl, record { stack = rest; indices = λ i h. rw same (v.indices i h) }, refl, same, refl)

  -- A buffer of the pool that is not free becomes the next one to be handed out.
  pub release-IsPool :
      {xs : List ℕ} (b : ℕ)
      → IsPool p xs
      → b < p.buffer_count
      → has b xs ≡ false
      → IsPool (release b p) (b ∷ xs) × ((release b p).buffer_count ≡ p.buffer_count)
  unfolding release
  release-IsPool {xs} b v lt out = rw (v.indices b lt) (
    record {
      stack = push-IsStack b (clear_len-IsStack b v.stack out) lt out;
      indices = λ i h. (push_keeps b (clear_len b p.stack) i).3 ∙ cleared i h;
    },
    refl,
  )
    where
      cleared : (i : ℕ) → i < p.buffer_count → ((clear_len b p.stack).descriptors i).pool_index ≡ i
      cleared i h = unfold clear_len in ground (arith, v.indices i h)

pub set_len-IsPool : {p : Pool} {xs : List ℕ} (b n : ℕ) → IsPool p xs → IsPool (set_len b n p) xs
unfolding set_len
set_len-IsPool {p} {xs} b n v = record {
  stack = record {
    marked = v.stack.marked;
    chain =
        Chain-frame p.stack.descriptors
          (update p.stack.descriptors b (record (p.stack.descriptors b) { len = n })) p.buffer_count
          (index_of p.stack.top) xs (λ x h. ground arith) v.stack.chain;
    count = v.stack.count;
  };
  indices = λ i h. ground (arith, v.indices i h);
}

-- The released buffer is empty, and the call is counted.
pub release_counted :
    (b : ℕ) (p : Pool)
    → (((release b p).stack.descriptors b).len ≡ 0)
      × ((release b p).total_releases ≡ u64 (p.total_releases + 1))
unfolding release clear_len
release_counted b p = (
  (push_keeps (p.stack.descriptors b).pool_index (clear_len b p.stack) b).1 ∙ rw (==_refl b),
  refl,
)
