-- ===== src/Pool/Examples.antt =====
-- A pool of two buffers, and the theorems of Pool at it.
use fast_break.Base.{
  ℕ, ◌+◌, ◌-◌, ◌^◌, ◌≤◌, ◌<◌, ◌≡◌, ◌↔◌, refl, none, some, false, List, [], ◌∷◌, length, arith,
}
use fast_break.Pool.FreeStack.{Descriptor, empty_index, pack, push, pop}
use fast_break.Pool.{Pool, add_buffers, add_buffer, create, acquire}
use fast_break.Pool.Chain.{has}
use fast_break.Pool.Create.{create_layout}
use fast_break.Pool.Users.{get, Reach, here, next}
use fast_break.Pool.Client.{acquire-unshared, acquire-none_iff}
use fast_break.Pool.FreeStack.{FreeStack}
use fast_break.Pool.Chain.{IsStack}
use fast_break.Pool.Threads
use fast_break.Pool.Threads.{Thread, System, set_at, renewed, load_to_pop, read_link}
use fast_break.Pool.Threads.Exchange.{swap_pop_lem}

abbrev raw : ℕ → Descriptor
raw _ = record { data_at = 0; len = 77; capacity = 0; pool_index = 0; next = 0 }

-- Two buffers of 64 bytes at the address 4096.
abbrev pair : Pool
pair = record {
  buffer_size = 64;
  buffer_count = 2;
  backing_bytes = 128;
  stack =
      add_buffers 4096 64 0 2 (record { top = pack 0 empty_index; size = 0; descriptors = raw });
  total_acquires = 0;
  total_releases = 0;
  total_exhausted = 0;
}

made : create 4096 raw 64 2 ≡ some pair
unfolding create
made = refl

marked : 2 ≤ empty_index
marked = omega arith

first_out : (acquire pair).0 ≡ some 1
unfolding acquire pop add_buffers add_buffer push pack
first_out = refl

second_out : (acquire (acquire pair).1).0 ≡ some 0
unfolding acquire pop add_buffers add_buffer push pack
second_out = refl

third_out : (acquire (acquire (acquire pair).1).1).0 ≡ none
unfolding acquire pop add_buffers add_buffer push pack
third_out = refl

one_held : Reach pair (record { pool = (acquire pair).1; held = 1 ∷ [] })
one_held = next here (get first_out)

abbrev both : List ℕ
both = 0 ∷ 1 ∷ []

both_held : Reach pair (record { pool = (acquire (acquire pair).1).1; held = both })
both_held = next one_held (get second_out)

acquire-unshared_example : (has 0 (1 ∷ []) ≡ false) × (0 < 2)
acquire-unshared_example = acquire-unshared 4096 64 2 raw marked made one_held second_out

acquire-none_iff_example :
    (((acquire (acquire (acquire pair).1).1).0 ≡ none) ↔ (length both ≡ 2))
    × ((acquire (acquire pair).1).1.stack.size + length both ≡ 2)
acquire-none_iff_example = acquire-none_iff 4096 64 2 raw marked made both_held

create_layout_example :
    let d = pair.stack.descriptors in
    (4096 ≤ (d 0).data_at)
    × ((d 0).data_at + 64 ≤ (d 1).data_at)
    × ((d 1).data_at + 64 ≤ 4096 + pair.backing_bytes)
    × ((d 0).len ≡ 0)
    × ((d 0).capacity ≡ 64)
create_layout_example =
    create_layout 4096 raw 64 2 marked 0 1 (omega arith) made (omega arith) (omega arith)

-- One buffer is free after one push.
abbrev single : FreeStack
single = record {
  top = 2 ^ 32;
  size = 1;
  descriptors =
      λ _. record { data_at = 4096; len = 0; capacity = 64; pool_index = 0; next = 2 ^ 32 - 1 };
}

single-IsStack : IsStack 1 single (0 ∷ [])
single-IsStack = record {
  marked = omega arith;
  chain = (refl, omega arith, refl, refl);
  count = refl;
}

abbrev about_to_pop : System
about_to_pop = record {
  stack = single;
  threads =
      set_at 7 (Thread.pop_read (2 ^ 32) (2 ^ 32 - 1))
        (set_at 7 (Thread.pop_loaded (2 ^ 32)) (λ _. Thread.outside));
  owner = λ _. none;
  swaps = 1;
}

about_to_pop-Reach : Threads.Reach single about_to_pop
about_to_pop-Reach =
    Threads.next (Threads.next Threads.here (load_to_pop 7 refl)) (read_link 7 refl (omega arith))

swap_pop_lem_example :
    (0 ≡ (pop single).0)
    × (renewed (2 ^ 32) (2 ^ 32 - 1) ≡ (pop single).1.top)
    × (0 < 1)
    × (about_to_pop.owner 0 ≡ none)
swap_pop_lem_example = swap_pop_lem single-IsStack 7 about_to_pop-Reach (omega arith) refl refl
