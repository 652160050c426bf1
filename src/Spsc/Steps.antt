-- ===== src/Spsc/Steps.antt =====
-- `push` and `pop` of one producer thread and one consumer thread, taken apart into their accesses
-- to the shared counters and slots and run in any order. The accesses are interleaved one at a
-- time: each counter is written by one thread, and its release store is seen together with the
-- slot accesses before it.
use fast_break.Base.{ℕ, ◌+◌, ◌-◌, ◌≡◌, ◌≢◌, List, [], ◌∷◌, ◌++◌, bit_and, u64, sub64}
use fast_break.Spsc.{Ring, store_at, fresh}

-- Where the producer stands in `push(item)`, with the local variables that are live there.
pub data Producer (T : Type 0) : Type 0 where
  outside : Producer T
  tail_loaded : (item : T) (tail : ℕ) → Producer T
  head_loaded : (item : T) (tail head : ℕ) → Producer T
  slot_written : (item : T) (tail : ℕ) → Producer T

-- Where the consumer stands in `pop`.
pub data Consumer (T : Type 0) : Type 0 where
  outside : Consumer T
  head_loaded : (head : ℕ) → Consumer T
  tail_loaded : (head tail : ℕ) → Consumer T
  slot_read : (item : T) (head : ℕ) → Consumer T

-- `pushed` and `popped` record the items of the calls that have returned `true`, in order.
pub record System (T : Type 0) : Type 0 where
  pub ring : Ring T
  pub producer : Producer T
  pub consumer : Consumer T
  pub pushed : List T
  pub popped : List T

abbrev pub start : {T : Type 0} → (ℕ → T) → System T
start memory = record {
  ring = fresh memory;
  producer = Producer.outside;
  consumer = Consumer.outside;
  pushed = [];
  popped = [];
}

pub data Step {T : Type 0} (N : ℕ) (s : System T) : System T → Type 0 where
  load_tail :
      (x : T)
      → s.producer ≡ Producer.outside
      → Step N s (record s { producer = Producer.tail_loaded x s.ring.tail })
  acquire_head :
      {x : T} {t : ℕ}
      → s.producer ≡ Producer.tail_loaded x t
      → Step N s (record s { producer = Producer.head_loaded x t s.ring.head })
  refuse :
      {x : T} {t h : ℕ}
      → s.producer ≡ Producer.head_loaded x t h
      → sub64 t h ≡ N
      → Step N s (record s { producer = Producer.outside })
  write_slot :
      {x : T} {t h : ℕ}
      → s.producer ≡ Producer.head_loaded x t h
      → sub64 t h ≢ N
      → Step N s (record s {
        ring = record (s.ring) { slots = store_at s.ring.slots (bit_and t (N - 1)) x };
        producer = Producer.slot_written x t;
      })
  release_tail :
      {x : T} {t : ℕ}
      → s.producer ≡ Producer.slot_written x t
      → Step N s (record s {
        ring = record (s.ring) { tail = u64 (t + 1) };
        producer = Producer.outside;
        pushed = s.pushed ++ (x ∷ []);
      })
  load_head :
      s.consumer ≡ Consumer.outside
      → Step N s (record s { consumer = Consumer.head_loaded s.ring.head })
  acquire_tail :
      {h : ℕ}
      → s.consumer ≡ Consumer.head_loaded h
      → Step N s (record s { consumer = Consumer.tail_loaded h s.ring.tail })
  find_empty :
      {h t : ℕ}
      → s.consumer ≡ Consumer.tail_loaded h t
      → h ≡ t
      → Step N s (record s { consumer = Consumer.outside })
  read_slot :
      {h t : ℕ}
      → s.consumer ≡ Consumer.tail_loaded h t
      → h ≢ t
      → Step N s (record s { consumer = Consumer.slot_read (s.ring.slots (bit_and h (N - 1))) h })
  release_head :
      {y : T} {h : ℕ}
      → s.consumer ≡ Consumer.slot_read y h
      → Step N s (record s {
        ring = record (s.ring) { head = u64 (h + 1) };
        consumer = Consumer.outside;
        popped = s.popped ++ (y ∷ []);
      })

pub data Reach {T : Type 0} (N : ℕ) (memory : ℕ → T) : System T → Type 0 where
  here : Reach N memory (start memory)
  next : {s t : System T} → Reach N memory s → Step N s t → Reach N memory t
