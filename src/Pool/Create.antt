-- ===== src/Pool/Create.antt =====
-- The constructor of `BufferPool`: every buffer is free, and the buffers tile the backing region.
use fast_break.Base.{
  ℕ, zero, suc, ◌+◌, ◌-◌, ◌*◌, ◌^◌, ◌∙◌, ◌≤◌, ◌<◌, ◌≡◌, ◌⊎◌, refl, sym, ap, subst, false, ◌||◌,
  none, some, List, [], ◌∷◌, arith, length, ◌==◌, u32, u64, Bool-cases, some_inj, ◌↔◌, inl, inr,
}
use native.Mathlib.Nat.{mul-le-mul, mul-le-mul_right}
use fast_break.Pool.FreeStack.{Descriptor, FreeStack, empty_index, pack, update, push}
use fast_break.Pool.{Pool, add_buffer, add_buffers, create}
use fast_break.Pool.Chain.{has, IsStack, Chain-update, push-IsStack, push_keeps, pack_parts}
use fast_break.Pool.Laws.{IsPool}

-- n - 1, …, 1, 0
abbrev pub countdown : ℕ → List ℕ
countdown zero = []
countdown (suc n) = n ∷ countdown n

pub length-countdown : (n : ℕ) → length (countdown n) ≡ n
length-countdown zero = refl
length-countdown (suc n) = ap suc (length-countdown n)

has-countdown : (i n : ℕ) → n ≤ i → has i (countdown n) ≡ false
has-countdown i zero h = refl
has-countdown i (suc n) h = ground (arith, has-countdown i n)

-- The first `i` descriptors are set up.
abbrev Laid : ℕ → ℕ → ℕ → FreeStack → Type 0
Laid backing size i s =
    (j : ℕ)
    → j < i
    → ((s.descriptors j).data_at ≡ backing + u64 (j * size))
      × ((s.descriptors j).len ≡ 0)
      × ((s.descriptors j).capacity ≡ u32 size)
      × ((s.descriptors j).pool_index ≡ j)

module _ (backing size n : ℕ) (marked : n ≤ empty_index) where
  abbrev setup : ℕ → FreeStack → FreeStack
  setup i s = record s {
    descriptors = update s.descriptors i (record (s.descriptors i) {
      data_at = backing + u64 (i * size);
      len = 0;
      capacity = u32 size;
      pool_index = u32 i;
    });
  }

  add_buffer-IsStack :
      (i : ℕ) (s : FreeStack)
      → i < n
      → IsStack n s (countdown i)
      → IsStack n (add_buffer backing size i s) (countdown (suc i))
  unfolding add_buffer
  add_buffer-IsStack i s lt v =
      let small : u32 i ≡ i = omega arith in
      subst (λ k. IsStack n (push k (setup i s)) (countdown (suc i))) (sym small)
        (push-IsStack i
          (record {
            marked = marked;
            chain =
                Chain-update s.descriptors n _ i _ (countdown i) (has-countdown i i (omega arith))
                  v.chain;
            count = v.count;
          })
          lt (has-countdown i i (omega arith)))

  add_buffer-Laid :
      (i : ℕ) (s : FreeStack)
      → i < n
      → Laid backing size i s
      → Laid backing size (suc i) (add_buffer backing size i s)
  unfolding add_buffer
  add_buffer-Laid i s lt laid j h =
      let (a, l, c, x) = push_keeps (u32 i) (setup i s) j in
      ground (arith, a, l, c, x, laid j, ap (λ k. backing + u64 (k * size)) {x = i} {y = j})

  add_buffers_lem :
      (rounds i : ℕ) (s : FreeStack)
      → i + rounds ≡ n
      → IsStack n s (countdown i)
      → Laid backing size i s
      → let t = add_buffers backing size i rounds s in
        IsStack n t (countdown n) × Laid backing size n t
  unfolding add_buffers
  add_buffers_lem zero i s e v laid =
      let e' : i ≡ n = omega arith in
      subst (λ k. IsStack n s (countdown k) × Laid backing size k s) e' (v, laid)
  add_buffers_lem (suc rounds) i s e v laid =
      let next : suc i ≡ i + 1 = omega arith in
      let t = add_buffer backing size i s in
      add_buffers_lem rounds (i + 1) t (omega arith)
        (subst (λ k. IsStack n t (countdown k)) next (add_buffer-IsStack i s (omega arith) v))
        (subst (λ k. Laid backing size k t) next (add_buffer-Laid i s (omega arith) laid))

module _ (backing : ℕ) (memory : ℕ → Descriptor) (size n : ℕ) (marked : n ≤ empty_index) where
  abbrev bare : FreeStack
  bare = record { top = pack 0 empty_index; size = 0; descriptors = memory }

  built :
      let t = add_buffers backing size 0 n bare in IsStack n t (countdown n) × Laid backing size n t
  built =
      add_buffers_lem backing size n marked n 0 bare (omega arith)
        (record {
          marked = marked;
          chain = (pack_parts 0 empty_index (omega arith) (omega arith)).1;
          count = refl;
        })
        (λ j h. absurd (omega arith))

  made_from :
      {p : Pool}
      → create backing memory size n ≡ some p
      → (p.stack ≡ add_buffers backing size 0 n bare)
        × (p.buffer_count ≡ n)
        × (p.backing_bytes ≡ u64 (size * n))
  unfolding create
  made_from e = elim (Bool-cases ((size == 0) || (n == 0))) [
    | inl zero_size ↦ absurd (cc (rw zero_size at e))
    | inr ok ↦
        let q = some_inj (rw ok at e) in
        (
          sym (ap (λ (p : Pool). p.stack) q),
          sym (ap (λ (p : Pool). p.buffer_count) q),
          sym (ap (λ (p : Pool). p.backing_bytes) q),
        )
  ]

  pub create-IsPool :
      {p : Pool}
      → create backing memory size n ≡ some p
      → IsPool p (countdown n) × (p.buffer_count ≡ n)
  create-IsPool e =
      let (stack, count, _) = made_from e in
      (
        record {
          stack = rw (count, stack) built.0;
          indices = λ i h. rw stack (built.1 i (rw count at h)).3;
        },
        count,
      )

  -- The constructor throws exactly when the size or the count is 0.
  pub create-none_iff : (create backing memory size n ≡ none) ↔ ((size ≡ 0) ⊎ (n ≡ 0))
  unfolding create
  create-none_iff = ground arith

  -- The products of the constructor do not wrap.
  product-lt : size < 2 ^ 32 → (i : ℕ) → i ≤ n → size * i < 2 ^ 64
  product-lt small i le =
      let le' =
        mul-le-mul {n₁ = size} {m₁ = i} {n₂ = 2 ^ 32 - 1} {m₂ = 2 ^ 32 - 1} (omega arith)
          (omega arith) in
      omega (arith, le')

  at_address :
      {p : Pool} (i : ℕ)
      → size < 2 ^ 32
      → create backing memory size n ≡ some p
      → i < n
      → (p.stack.descriptors i).data_at ≡ backing + i * size
  at_address i small e lt =
      let at = (built.1 i lt).0 in
      let fits = product-lt small i (omega arith) in
      ap (λ (s : FreeStack). (s.descriptors i).data_at) (made_from e).0 ∙ at ∙ grind arith

  -- Two buffers of a new pool are apart.
  pub create-apart :
      {p : Pool} (i j : ℕ)
      → size < 2 ^ 32
      → create backing memory size n ≡ some p
      → i < j
      → j < n
      → (p.stack.descriptors i).data_at + size ≤ (p.stack.descriptors j).data_at
  create-apart i j small e lt lt' =
      let a = at_address i small e (omega arith) in
      let b = at_address j small e lt' in
      let gap = mul-le-mul_right {m = suc i} {n = j} size (omega arith) in grind arith

  -- In a new pool of `n` buffers of `size` bytes, with `n` at most the empty mark and `size`
  -- below 2 ^ 32, two buffers share no byte and lie in the region of `backing_bytes` bytes;
  -- each starts empty and with the capacity `size`.
  pub create_layout :
      {p : Pool} (i j : ℕ)
      → size < 2 ^ 32
      → create backing memory size n ≡ some p
      → i < j
      → j < n
      → let d = p.stack.descriptors in
        (backing ≤ (d i).data_at)
        × ((d i).data_at + size ≤ (d j).data_at)
        × ((d j).data_at + size ≤ backing + p.backing_bytes)
        × ((d i).len ≡ 0)
        × ((d i).capacity ≡ size)
  create_layout {p} i j small e lt lt' =
      let (stack, _, bytes) = made_from e in
      let (_, len, cap, _) = built.1 i (omega arith) in
      let a = at_address i small e (omega arith) in
      let b = at_address j small e lt' in
      let room : p.backing_bytes ≡ size * n =
        omega (arith, bytes, product-lt small n (omega arith)) in
      let last = mul-le-mul_right {m = suc j} {n = n} size (omega arith) in
      (
        omega (arith, a),
        create-apart i j small e lt lt',
        grind arith,
        ap (λ (s : FreeStack). (s.descriptors i).len) stack ∙ len,
        ap (λ (s : FreeStack). (s.descriptors i).capacity) stack ∙ cap ∙ omega arith,
      )
