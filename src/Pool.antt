-- ===== src/Pool.antt =====
-- `BufferPool` of include/buffer_pool.h and src/buffer_pool.cpp, over the free stack of
-- Pool/FreeStack.
pub mod FreeStack
pub mod Chain
pub mod Laws
pub mod Users
pub mod Client
pub mod Counted
pub mod Owned
pub mod Threads
pub mod Create
mod Examples
use fast_break.Base.{
  ℕ, zero, suc, ◌+◌, ◌-◌, ◌*◌, ◌^◌, Option, none, some, ◌==◌, ◌||◌, if◌then◌else◌, u32, u64,
}
use FreeStack
use FreeStack.{Descriptor, FreeStack as Stack, empty_index, pack, update, push, pop}

pub record Pool : Type 0 where
  pub buffer_size : ℕ
  pub buffer_count : ℕ
  pub backing_bytes : ℕ
  pub stack : Stack
  pub total_acquires : ℕ
  pub total_releases : ℕ
  pub total_exhausted : ℕ

unfoldable pub acquire : Pool → Option ℕ × Pool
acquire p =
    let (index, s) = pop p.stack in
    if index == empty_index
    then (none, record p { stack = s; total_exhausted = u64 (p.total_exhausted + 1) })
    else (some index, record p { stack = s; total_acquires = u64 (p.total_acquires + 1) })

-- `buf->len = 0`
unfoldable pub clear_len : ℕ → Stack → Stack
clear_len buf s = record s {
  descriptors = update s.descriptors buf (record (s.descriptors buf) { len = 0 });
}

-- `buf->len = n`, as the pool's users write it.
unfoldable pub set_len : ℕ → ℕ → Pool → Pool
set_len b n p = record p {
  stack = record (p.stack) {
    descriptors = update p.stack.descriptors b (record (p.stack.descriptors b) { len = n });
  };
}

-- `release` of the buffer whose descriptor is `buf`.
unfoldable pub release : ℕ → Pool → Pool
release buf p = record p {
  stack = push (p.stack.descriptors buf).pool_index (clear_len buf p.stack);
  total_releases = u64 (p.total_releases + 1);
}

-- One round of the constructor's loop: it sets the four fields of descriptor `i`, and frees it.
unfoldable pub add_buffer : ℕ → ℕ → ℕ → Stack → Stack
add_buffer backing buffer_size i s = push (u32 i) (record s {
  descriptors = update s.descriptors i (record (s.descriptors i) {
    data_at = backing + u64 (i * buffer_size);
    len = 0;
    capacity = u32 buffer_size;
    pool_index = u32 i;
  });
})

unfoldable pub add_buffers : ℕ → ℕ → ℕ → ℕ → Stack → Stack
add_buffers backing buffer_size i zero s = s
add_buffers backing buffer_size i (suc rounds) s =
    add_buffers backing buffer_size (i + 1) rounds (add_buffer backing buffer_size i s)

-- The constructor: `none` is the `std::runtime_error` for a size or a count of 0. The two regions
-- are what the allocator returned: the buffers' address, and the descriptors as the memory holds
-- them.
unfoldable pub create : ℕ → (ℕ → Descriptor) → ℕ → ℕ → Option Pool
create backing memory buffer_size buffer_count =
    if (buffer_size == 0) || (buffer_count == 0)
    then none
    else some (record {
      buffer_size = buffer_size;
      buffer_count = buffer_count;
      backing_bytes = u64 (buffer_size * buffer_count);
      stack =
          add_buffers backing buffer_size 0 buffer_count
            (record { top = pack 0 empty_index; size = 0; descriptors = memory });
      total_acquires = 0;
      total_releases = 0;
      total_exhausted = 0;
    })
