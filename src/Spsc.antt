-- ===== src/Spsc.antt =====
-- include/spsc_ring.h: `SPSCRing<T, N>`, a bounded queue between one producer and one consumer.
-- `head` and `tail` are the two `size_t` counters, which run freely and wrap at 2 ^ 64; the slot of
-- a counter is its low bits. The slots are a function of the index, and each access masks its index.
-- Here `push` and `pop` run to completion; Spsc/Steps takes them apart into their memory accesses.
pub mod Window
pub mod Queue
pub mod Refine
pub mod Outcome
pub mod Steps
pub mod Inv
pub mod Fifo
pub mod Alone
mod Examples
use fast_break.Base.{
  ℕ, ◌+◌, ◌-◌, ◌^◌, Bool, true, false, Option, none, some, bit_and, ◌==◌, if◌then◌else◌, u64, sub64,
}

pub record Ring (T : Type 0) : Type 0 where
  pub head : ℕ
  pub tail : ℕ
  pub slots : ℕ → T

-- `slots[i] = v`
abbrev pub store_at : {T : Type 0} → (ℕ → T) → ℕ → T → ℕ → T
store_at slots i v j = if i == j then v else slots j

-- The member initialisers; the slots are left as the memory holds them.
unfoldable pub fresh : {T : Type 0} → (ℕ → T) → Ring T
fresh memory = record { head = 0; tail = 0; slots = memory }

-- `N` is the template's capacity.
module _ {T : Type 0} (N : ℕ) where
  unfoldable pub push : Ring T → T → Bool × Ring T
  push r item = if sub64 r.tail r.head == N then (false, r) else (
    true,
    record r { tail = u64 (r.tail + 1); slots = store_at r.slots (bit_and r.tail (N - 1)) item },
  )

  -- The option is what is assigned to the reference argument: nothing when the ring is empty.
  unfoldable pub pop : Ring T → Option T × Ring T
  pop r =
      if r.head == r.tail
      then (none, r)
      else (some (r.slots (bit_and r.head (N - 1))), record r { head = u64 (r.head + 1) })

unfoldable pub empty : {T : Type 0} → Ring T → Bool
empty r = r.head == r.tail

unfoldable pub size : {T : Type 0} → Ring T → ℕ
size r = sub64 r.tail r.head
