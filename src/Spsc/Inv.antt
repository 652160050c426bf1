-- ===== src/Spsc/Inv.antt =====
-- What holds in every state that the interleaved steps of Spsc/Steps reach.
use fast_break.Base.{
  ℕ, ◌+◌, ◌-◌, ◌^◌, ◌≤◌, ◌<◌, ◌≡◌, ◌≢◌, refl, sym, List, [], ◌∷◌, ◌++◌, append_assoc, bit_and,
  arith, u64, sub64, ne→==,
}
use fast_break.Base.PowerOfTwo.{IsPowerOfTwo, size-le}
use fast_break.Spsc.{Ring, store_at, fresh}
use fast_break.Spsc.Window.{slot_ne, contents, IsValid, contents-empty}
use fast_break.Spsc.Steps.{Producer, Consumer, System, start}

abbrev pub held : {T : Type 0} → Ring T → ℕ
held r = sub64 r.tail r.head

-- What the locals of each thread say about the shared ring.
abbrev pub ProducerKnows : {T : Type 0} → ℕ → Ring T → Producer T → Type 0
ProducerKnows N r Producer.outside = Unit
ProducerKnows N r (Producer.tail_loaded x t) = t ≡ r.tail
ProducerKnows N r (Producer.head_loaded x t h) =
    (t ≡ r.tail) × (held r ≤ sub64 t h) × (sub64 t h ≤ N)
ProducerKnows N r (Producer.slot_written x t) =
    (t ≡ r.tail) × (held r < N) × (r.slots (bit_and t (N - 1)) ≡ x)

abbrev pub ConsumerKnows : {T : Type 0} → ℕ → Ring T → Consumer T → Type 0
ConsumerKnows N r Consumer.outside = Unit
ConsumerKnows N r (Consumer.head_loaded h) = h ≡ r.head
ConsumerKnows N r (Consumer.tail_loaded h t) = (h ≡ r.head) × (sub64 t h ≤ held r) × (t < 2 ^ 64)
ConsumerKnows N r (Consumer.slot_read y h) =
    (h ≡ r.head) × (0 < held r) × (r.slots (bit_and h (N - 1)) ≡ y)

pub record Inv {T : Type 0} (N : ℕ) (s : System T) : Type 0 where
  pub valid : IsValid N s.ring
  pub fifo : s.pushed ≡ s.popped ++ contents N s.ring
  pub producer : ProducerKnows N s.ring s.producer
  pub consumer : ConsumerKnows N s.ring s.consumer

-- A new item goes behind what is held; the first item held goes behind what has been popped.
pub snoc_held :
    {T : Type 0} {q' : List T} (q pushed popped : List T) (x : T)
    → pushed ≡ popped ++ q
    → q' ≡ q ++ (x ∷ [])
    → pushed ++ (x ∷ []) ≡ popped ++ q'
snoc_held q pushed popped x e e' = rw (e', e) (append_assoc popped q (x ∷ []))

pub move_held :
    {T : Type 0} {q q' : List T} {y : T} (pushed popped : List T)
    → pushed ≡ popped ++ q
    → q ≡ y ∷ q'
    → pushed ≡ (popped ++ (y ∷ [])) ++ q'
move_held {q'} {y} pushed popped e e' = rw (e, e') (sym (append_assoc popped (y ∷ []) q'))

module _ {T : Type 0} {N : ℕ} (pow : IsPowerOfTwo N) where
  pub start-Inv : (memory : ℕ → T) → Inv N (start memory)
  unfolding fresh
  start-Inv memory = record {
    valid = omega arith;
    fifo = sym (contents-empty pow (fresh memory) (omega arith) refl);
    producer = tt;
    consumer = tt;
  }

  -- The slot about to be written is not the one being read.
  pub tail_slot_ne :
      (r : Ring T)
      → IsValid N r
      → 0 < held r
      → held r < N
      → bit_and r.tail (N - 1) ≢ bit_and r.head (N - 1)
  tail_slot_ne r v pos lt =
      slot_ne pow r.head (held r) r.tail (omega (arith, v.head_word, v.tail_word)) pos lt

  pub consumer-write :
      (r : Ring T) (x : T) (c : Consumer T)
      → IsValid N r
      → held r < N
      → ConsumerKnows N r c
      → ConsumerKnows N (record r { slots = store_at r.slots (bit_and r.tail (N - 1)) x }) c
  consumer-write r x Consumer.outside v lt k = tt
  consumer-write r x (Consumer.head_loaded h) v lt k = k
  consumer-write r x (Consumer.tail_loaded h t) v lt k = k
  consumer-write r x (Consumer.slot_read y h) v lt (at_head, pos, got) =
      (at_head, pos, rw (at_head, ne→== _ _ (tail_slot_ne r v pos lt)) (rw at_head at got))

  pub consumer-publish :
      (r : Ring T) (c : Consumer T)
      → IsValid N r
      → held r < N
      → ConsumerKnows N r c
      → ConsumerKnows N (record r { tail = u64 (r.tail + 1) }) c
  consumer-publish r Consumer.outside v lt k = tt
  consumer-publish r (Consumer.head_loaded h) v lt k = k
  consumer-publish r (Consumer.tail_loaded h t) v lt k =
      omega (arith, v.head_word, v.tail_word, size-le pow)
  consumer-publish r (Consumer.slot_read y h) v lt (at_head, pos, got) =
      (at_head, omega (arith, v.head_word, v.tail_word, size-le pow), got)

  pub producer-take :
      (r : Ring T) (p : Producer T)
      → IsValid N r
      → 0 < held r
      → ProducerKnows N r p
      → ProducerKnows N (record r { head = u64 (r.head + 1) }) p
  producer-take r Producer.outside v pos k = tt
  producer-take r (Producer.tail_loaded x t) v pos k = k
  producer-take r (Producer.head_loaded x t h) v pos k = omega (arith, v.head_word, v.tail_word)
  producer-take r (Producer.slot_written x t) v pos (at_tail, lt, got) =
      (at_tail, omega (arith, v.head_word, v.tail_word), got)
