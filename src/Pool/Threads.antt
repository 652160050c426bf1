-- ===== src/Pool/Threads.antt =====
-- `FreeStack` under several threads: the loads, the stores of links, the compare-exchanges and the
-- updates of the size of src/buffer_pool.cpp, interleaved. `owner` says which thread has a buffer
-- that is not free, and `swaps` counts the exchanges that succeeded.
pub mod Inv
pub mod Exchange
use fast_break.Base.{ℕ, ◌+◌, ◌≡◌, ◌≢◌, Option, none, some, ◌==◌, if◌then◌else◌, u32, sub32}
use fast_break.Pool.FreeStack.{FreeStack, empty_index, pack, gen_of, index_of, set_next}

-- Where a thread is: `old` and `after` (in `pop` the local
-- `next`) are the locals of `push` and `pop`.
pub data Thread : Type 0 where
  outside : Thread
  push_loaded : (index old : ℕ) → Thread
  push_linked : (index old : ℕ) → Thread
  push_swapped : Thread
  pop_loaded : (old : ℕ) → Thread
  pop_read : (old after : ℕ) → Thread
  pop_swapped : Thread

pub record System : Type 0 where
  pub stack : FreeStack
  pub threads : ℕ → Thread
  pub owner : ℕ → Option ℕ
  pub swaps : ℕ

abbrev pub set_at : {A : Type 0} → ℕ → A → (ℕ → A) → ℕ → A
set_at k v f i = if i == k then v else f i

-- The head that an exchange puts in the place of `old`.
abbrev pub renewed : ℕ → ℕ → ℕ
renewed old index = pack (u32 (gen_of old + 1)) index

pub data Step (s : System) : System → Type 0 where
  load_to_push :
      (t index : ℕ)
      → s.threads t ≡ Thread.outside
      → s.owner index ≡ some t
      → Step s (record s { threads = set_at t (Thread.push_loaded index s.stack.top) s.threads })
  link :
      {index old : ℕ} (t : ℕ)
      → s.threads t ≡ Thread.push_loaded index old
      → Step s (record s {
        stack = record (s.stack) {
          descriptors = set_next s.stack.descriptors index (index_of old);
        };
        threads = set_at t (Thread.push_linked index old) s.threads;
      })
  -- The exchange may fail though the head has not changed.
  retry_push :
      {index old : ℕ} (t : ℕ)
      → s.threads t ≡ Thread.push_linked index old
      → Step s (record s { threads = set_at t (Thread.push_loaded index s.stack.top) s.threads })
  swap_push :
      {index old : ℕ} (t : ℕ)
      → s.threads t ≡ Thread.push_linked index old
      → s.stack.top ≡ old
      → Step s (record {
        stack = record (s.stack) { top = renewed old index };
        threads = set_at t Thread.push_swapped s.threads;
        owner = set_at index none s.owner;
        swaps = s.swaps + 1;
      })
  count_push :
      (t : ℕ)
      → s.threads t ≡ Thread.push_swapped
      → Step s (record s {
        stack = record (s.stack) { size = u32 (s.stack.size + 1) };
        threads = set_at t Thread.outside s.threads;
      })
  load_to_pop :
      (t : ℕ)
      → s.threads t ≡ Thread.outside
      → Step s (record s { threads = set_at t (Thread.pop_loaded s.stack.top) s.threads })
  find_empty :
      {old : ℕ} (t : ℕ)
      → s.threads t ≡ Thread.pop_loaded old
      → index_of old ≡ empty_index
      → Step s (record s { threads = set_at t Thread.outside s.threads })
  read_link :
      {old : ℕ} (t : ℕ)
      → s.threads t ≡ Thread.pop_loaded old
      → index_of old ≢ empty_index
      → Step s (record s {
        threads =
            set_at t (Thread.pop_read old (s.stack.descriptors (index_of old)).next) s.threads;
      })
  retry_pop :
      {old after : ℕ} (t : ℕ)
      → s.threads t ≡ Thread.pop_read old after
      → Step s (record s { threads = set_at t (Thread.pop_loaded s.stack.top) s.threads })
  swap_pop :
      {old after : ℕ} (t : ℕ)
      → s.threads t ≡ Thread.pop_read old after
      → s.stack.top ≡ old
      → Step s (record {
        stack = record (s.stack) { top = renewed old after };
        threads = set_at t Thread.pop_swapped s.threads;
        owner = set_at (index_of old) (some t) s.owner;
        swaps = s.swaps + 1;
      })
  count_pop :
      (t : ℕ)
      → s.threads t ≡ Thread.pop_swapped
      → Step s (record s {
        stack = record (s.stack) { size = sub32 s.stack.size 1 };
        threads = set_at t Thread.outside s.threads;
      })

-- All threads are outside, every buffer is free, and the exchanges so far are those of the
-- constructor.
abbrev pub start : FreeStack → System
start stack = record {
  stack = stack;
  threads = λ _. Thread.outside;
  owner = λ _. none;
  swaps = gen_of stack.top;
}

pub data Reach (stack : FreeStack) : System → Type 0 where
  here : Reach stack (start stack)
  next : {s t : System} → Reach stack s → Step s t → Reach stack t
