-- ===== src/Pool/Chain.antt =====
-- The free stack as a list: from the head's index the `next` links lead through the free indices,
-- each once, to the end mark.
use fast_break.Base.{
  ℕ, ◌+◌, ◌*◌, ◌%◌, ◌^◌, ◌≤◌, ◌<◌, ◌≡◌, refl, ap, Bool, true, false, ◌||◌, List, [], ◌∷◌, arith,
  length, ◌==◌, ==_refl, ne→==, u32, Bool-cases, inl, inr,
}
use fast_break.Base.Bits.{or_fields}
use fast_break.Pool.FreeStack.{
  Descriptor, FreeStack, empty_index, pack, gen_of, index_of, update, push, pop,
}

abbrev pub has : ℕ → List ℕ → Bool
has x [] = false
has x (y ∷ ys) = x == y || has x ys

abbrev pub Chain : (ℕ → Descriptor) → ℕ → ℕ → List ℕ → Type 0
Chain ds n i [] = i ≡ empty_index
Chain ds n i (x ∷ xs) = (i ≡ x) × (x < n) × (has x xs ≡ false) × Chain ds n (ds x).next xs

-- `n` descriptors, none of which has the end mark for its index; `xs` are free, the top first.
pub record IsStack (n : ℕ) (s : FreeStack) (xs : List ℕ) : Type 0 where
  pub marked : n ≤ empty_index
  pub chain : Chain s.descriptors n (index_of s.top) xs
  pub count : s.size ≡ u32 (length xs)

pub pack_parts :
    (g i : ℕ) → g < 2 ^ 32 → i < 2 ^ 32 → (gen_of (pack g i) ≡ g) × (index_of (pack g i) ≡ i)
unfolding pack
pack_parts g i hg hi =
    let e : (g * 2 ^ 32) % 2 ^ 64 ≡ g * 2 ^ 32 = omega arith in
    rw (e, or_fields 32 g i hi) (omega arith)

-- A chain sees of the descriptors only the links of its own indices.
pub Chain-frame :
    (ds ds' : ℕ → Descriptor) (n i : ℕ) (xs : List ℕ)
    → ((x : ℕ) → has x xs ≡ true → (ds' x).next ≡ (ds x).next)
    → Chain ds n i xs
    → Chain ds' n i xs
Chain-frame ds ds' n i [] same c = c
Chain-frame ds ds' n i (x ∷ xs) same (e, lt, new, rest) = (
  e,
  lt,
  new,
  rw (same x (ground arith))
      (Chain-frame ds ds' n (ds x).next xs (λ y h. same y (ground arith)) rest),
)

pub Chain-update :
    (ds : ℕ → Descriptor) (n i b : ℕ) (d : Descriptor) (xs : List ℕ)
    → has b xs ≡ false
    → Chain ds n i xs
    → Chain (update ds b d) n i xs
Chain-update ds n i b d xs out c = Chain-frame ds (update ds b d) n i xs (λ x h. kept x h) c
  where
    kept : (x : ℕ) → has x xs ≡ true → (update ds b d x).next ≡ (ds x).next
    kept x h = elim (Bool-cases (b == x)) [
      | inl e ↦ let same : b ≡ x = ground arith in ground (arith, ap (λ y. has y xs) same)
      | inr ne ↦ rw ne
    ]

pub Chain-lt :
    (ds : ℕ → Descriptor) (n i : ℕ) (xs : List ℕ) → n ≤ empty_index → Chain ds n i xs → i < 2 ^ 32
Chain-lt ds n i [] h c = omega arith
Chain-lt ds n i (x ∷ xs) h c = omega arith

module _ {n : ℕ} {s : FreeStack} where
  pub push-IsStack :
      {xs : List ℕ} (index : ℕ)
      → IsStack n s xs
      → index < n
      → has index xs ≡ false
      → IsStack n (push index s) (index ∷ xs)
  unfolding push
  push-IsStack {xs} index v lt out =
      let (_, at) =
        pack_parts (u32 (gen_of s.top + 1)) index (omega arith) (omega (arith, v.marked)) in
      record {
        marked = v.marked;
        chain = (
          at,
          lt,
          out,
          rw (==_refl index) (Chain-update s.descriptors n (index_of s.top) index _ xs out v.chain),
        );
        count = omega (arith, v.count);
      }

  pub pop-nil : IsStack n s [] → pop s ≡ (empty_index, s)
  unfolding pop
  pop-nil v = rw v.chain

  pub pop-cons :
      {x : ℕ} {xs : List ℕ}
      → IsStack n s (x ∷ xs)
      → let (i, s') = pop s in
        (i ≡ x) × (x < n) × (s'.descriptors ≡ s.descriptors) × IsStack n s' xs
  unfolding pop
  pop-cons {x} {xs} v =
      let (e, lt, out, rest) = v.chain in
      let (_, at) =
        pack_parts (u32 (gen_of s.top + 1)) (s.descriptors x).next (omega arith)
          (Chain-lt s.descriptors n (s.descriptors x).next xs v.marked rest) in
      rw (e, ne→== x empty_index (omega (arith, v.marked)))
        (
          refl,
          lt,
          refl,
          record { marked = v.marked; chain = rw at rest; count = omega (arith, v.count) },
        )

-- Pushing touches of a descriptor only its link.
pub push_keeps :
    (i : ℕ) (s : FreeStack) (j : ℕ)
    → let d = s.descriptors j in
      let d' = (push i s).descriptors j in
      (d'.data_at ≡ d.data_at)
      × (d'.len ≡ d.len)
      × (d'.capacity ≡ d.capacity)
      × (d'.pool_index ≡ d.pool_index)
unfolding push
push_keeps i s j = ground arith
