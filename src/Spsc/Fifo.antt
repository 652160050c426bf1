-- ===== src/Spsc/Fifo.antt =====
-- The order of the items, and the slots in use, in every state that the steps of Spsc/Steps reach.
use fast_break.Base.{
  ℕ, ◌-◌, ◌≤◌, ◌<◌, ◌≡◌, ◌≢◌, refl, subst, ◌∙◌, ◌++◌, bit_and, arith, length, sub64, ==_refl,
}
use fast_break.Base.PowerOfTwo.{IsPowerOfTwo}
use fast_break.Spsc.Window.{
  length-window, contents, contents-write, contents-publish, contents-take, publish-IsValid,
  take-IsValid,
}
use fast_break.Spsc.Steps.{
  Producer, Consumer, System, Step, load_tail, acquire_head, refuse, write_slot, release_tail,
  load_head, acquire_tail, find_empty, read_slot, release_head, Reach, here, next,
}
use fast_break.Spsc.Inv.{
  held, ProducerKnows, ConsumerKnows, Inv, snoc_held, move_held, start-Inv, tail_slot_ne,
  consumer-write, consumer-publish, producer-take,
}

module _ {T : Type 0} {N : ℕ} (pow : IsPowerOfTwo N) where
  -- Every step keeps the invariant.
  Step-Inv : {s t : System T} → Step N s t → Inv N s → Inv N t
  Step-Inv {s} (load_tail x e) i = record {
    valid = i.valid;
    fifo = i.fifo;
    producer = refl;
    consumer = i.consumer;
  }
  Step-Inv {s} (acquire_head {x} {t} e) i = record {
    valid = i.valid;
    fifo = i.fifo;
    producer = let k = subst (ProducerKnows N s.ring) e i.producer in omega (arith, i.valid.within);
    consumer = i.consumer;
  }
  Step-Inv {s} (refuse e full) i = record {
    valid = i.valid;
    fifo = i.fifo;
    producer = tt;
    consumer = i.consumer;
  }
  Step-Inv {s} (write_slot {x} {t} {h} e room) i =
      let (at_tail, le, within) = subst (ProducerKnows N s.ring) e i.producer in
      let lt : held s.ring < N = omega arith in
      rw at_tail (record {
        valid = omega (arith, i.valid.head_word, i.valid.tail_word, i.valid.within);
        fifo = rw (contents-write pow s.ring i.valid x lt) i.fifo;
        producer = (refl, lt, rw (==_refl (bit_and s.ring.tail (N - 1))));
        consumer = consumer-write pow s.ring x s.consumer i.valid lt i.consumer;
      })
  Step-Inv {s} (release_tail {x} {t} e) i =
      let (at_tail, lt, got) = subst (ProducerKnows N s.ring) e i.producer in
      let last : s.ring.slots (bit_and s.ring.tail (N - 1)) ≡ x = rw at_tail at got in
      rw at_tail (record {
        valid = publish-IsValid pow s.ring i.valid lt;
        fifo =
            snoc_held (contents N s.ring) s.pushed s.popped x i.fifo
              (contents-publish pow s.ring i.valid lt ∙ rw last);
        producer = tt;
        consumer = consumer-publish pow s.ring s.consumer i.valid lt i.consumer;
      })
  Step-Inv {s} (load_head e) i = record {
    valid = i.valid;
    fifo = i.fifo;
    producer = i.producer;
    consumer = refl;
  }
  Step-Inv {s} (acquire_tail {h} e) i = record {
    valid = i.valid;
    fifo = i.fifo;
    producer = i.producer;
    consumer =
        let k = subst (ConsumerKnows N s.ring) e i.consumer in omega (arith, i.valid.tail_word);
  }
  Step-Inv {s} (find_empty e none_left) i = record {
    valid = i.valid;
    fifo = i.fifo;
    producer = i.producer;
    consumer = tt;
  }
  Step-Inv {s} (read_slot {h} {t} e some_left) i =
      let (at_head, le, word) = subst (ConsumerKnows N s.ring) e i.consumer in
      record {
        valid = i.valid;
        fifo = i.fifo;
        producer = i.producer;
        consumer = (at_head, omega (arith, i.valid.head_word), refl);
      }
  Step-Inv {s} (release_head {y} {h} e) i =
      let (at_head, pos, got) = subst (ConsumerKnows N s.ring) e i.consumer in
      let first : s.ring.slots (bit_and s.ring.head (N - 1)) ≡ y = rw at_head at got in
      rw at_head (record {
        valid = take-IsValid pow s.ring i.valid pos;
        fifo = move_held s.pushed s.popped i.fifo (contents-take pow s.ring i.valid pos ∙ rw first);
        producer = producer-take pow s.ring s.producer i.valid pos i.producer;
        consumer = tt;
      })

  Reach-Inv : {memory : ℕ → T} {s : System T} → Reach N memory s → Inv N s
  Reach-Inv {memory} here = start-Inv pow memory
  Reach-Inv (next r st) = Step-Inv st (Reach-Inv r)

  -- For a power of two `N`, in every interleaving of the two threads' accesses from the empty
  -- ring, the items of the returned pushes are the items of the returned pops followed by what
  -- the ring holds, in order: nothing is lost, repeated or overtaken. The ring never holds
  -- more than `N` items.
  pub fifo_order :
      {memory : ℕ → T} {s : System T}
      → Reach N memory s
      → (s.pushed ≡ s.popped ++ contents N s.ring) × (length (contents N s.ring) ≤ N)
  fifo_order {s} r =
      let i = Reach-Inv r in
      (
        i.fifo,
        omega (arith, length-window N s.ring.slots s.ring.head (held s.ring), i.valid.within),
      )

  -- For a power of two `N`, in every reachable state where the producer is about to write a
  -- slot and the consumer is about to read one, these are different slots.
  pub slots_race_free :
      {memory : ℕ → T} {s : System T} {x : T} {t h h' t' : ℕ}
      → Reach N memory s
      → s.producer ≡ Producer.head_loaded x t h
      → sub64 t h ≢ N
      → s.consumer ≡ Consumer.tail_loaded h' t'
      → h' ≢ t'
      → bit_and t (N - 1) ≢ bit_and h' (N - 1)
  slots_race_free {s} r p room c some_left =
      let i = Reach-Inv r in
      let (at_tail, le, within) = subst (ProducerKnows N s.ring) p i.producer in
      let (at_head, le', word) = subst (ConsumerKnows N s.ring) c i.consumer in
      rw (at_tail, at_head)
        (tail_slot_ne pow s.ring i.valid (omega (arith, i.valid.head_word)) (omega arith))
