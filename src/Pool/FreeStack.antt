-- ===== src/Pool/FreeStack.antt =====
-- `FreeStack` of include/buffer_pool.h and src/buffer_pool.cpp, and `BufferDescriptor`.
-- A buffer is named by the index of its descriptor, which stands for the pointer to it. The
-- descriptors are a function of the index; `next` is the free-list link that lives in the first
-- four padding bytes. Here the calls are whole, so that each compare-exchange succeeds;
-- Pool/Threads takes them apart.
use fast_break.Base.{ℕ, ◌+◌, ◌-◌, ◌^◌, bit_or, ◌==◌, if◌then◌else◌, u32, u64, sub32, ◌<<<◌, ◌>>>◌}

pub record Descriptor : Type 0 where
  pub data_at : ℕ  -- the address in `data`
  pub len : ℕ
  pub capacity : ℕ
  pub pool_index : ℕ
  pub next : ℕ

-- The array behind `descriptors_` is the pool's; the stack reaches it through its pointer.
pub record FreeStack : Type 0 where
  pub top : ℕ
  pub size : ℕ
  pub descriptors : ℕ → Descriptor

abbrev pub empty_index : ℕ
empty_index = 2 ^ 32 - 1

-- The 64-bit head: a generation above an index.
unfoldable pub pack : ℕ → ℕ → ℕ
pack gen index = bit_or (u64 (gen <<< 32)) index

abbrev pub gen_of : ℕ → ℕ
gen_of v = u32 (v >>> 32)

abbrev pub index_of : ℕ → ℕ
index_of v = u32 v

abbrev pub update : (ℕ → Descriptor) → ℕ → Descriptor → ℕ → Descriptor
update ds i d j = if i == j then d else ds j

-- `next_of(descriptors[i]) = n`
abbrev pub set_next : (ℕ → Descriptor) → ℕ → ℕ → ℕ → Descriptor
set_next ds i n = update ds i (record (ds i) { next = n })

unfoldable pub push : ℕ → FreeStack → FreeStack
push index s = record s {
  descriptors = set_next s.descriptors index (index_of s.top);
  top = pack (u32 (gen_of s.top + 1)) index;
  size = u32 (s.size + 1);
}

-- `empty_index` is returned when nothing is free.
unfoldable pub pop : FreeStack → ℕ × FreeStack
pop s =
    let index = index_of s.top in
    if index == empty_index then (empty_index, s) else (
      index,
      record s {
        top = pack (u32 (gen_of s.top + 1)) (s.descriptors index).next;
        size = sub32 s.size 1;
      },
    )
