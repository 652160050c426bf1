-- ===== src/Spsc/Alone.antt =====
-- The steps of Spsc/Steps with one thread at rest are the whole calls of Spsc.
use fast_break.Base.{
  ℕ, ◌≡◌, refl, [], ◌∷◌, ◌++◌, arith, sub64, ==→eq, ◌==◌, if◌then◌else◌, Bool-cases, inl, inr, none,
  some,
}
use fast_break.Spsc.{push, pop}
use fast_break.Spsc.Steps.{
  Producer, Consumer, System, Step, load_tail, acquire_head, refuse, write_slot, release_tail,
  load_head, acquire_tail, find_empty, read_slot, release_head,
}

pub data Steps {T : Type 0} (N : ℕ) (s : System T) : System T → Type 0 where
  done : Steps N s s
  more : {t u : System T} → Steps N s t → Step N t u → Steps N s u

module _ {T : Type 0} (N : ℕ) (s : System T) where
  -- A producer outside `push` can make the accesses of `push(x)`, with no step of the consumer
  -- between them, and ends with the ring of `push` and, when that returns `true`, the item
  -- recorded.
  pub push_alone :
      (x : T)
      → s.producer ≡ Producer.outside
      → Steps N s (record s {
        ring = (push N s.ring x).1;
        producer = Producer.outside;
        pushed = if (push N s.ring x).0 then s.pushed ++ (x ∷ []) else s.pushed;
      })
  unfolding push
  push_alone x e = elim (Bool-cases (sub64 s.ring.tail s.ring.head == N)) [
    | inl full ↦
        rw full (
          more (more (more done (load_tail x e)) (acquire_head refl))
            (refuse refl (==→eq _ _ full)))
    | inr room ↦ rw room (
        more
          (more (more (more done (load_tail x e)) (acquire_head refl))
            (write_slot refl (ground arith)))
          (release_tail refl))
  ]

  -- So it is with the consumer and `pop`.
  pub pop_alone :
      s.consumer ≡ Consumer.outside
      → Steps N s (record s {
        ring = (pop N s.ring).1;
        consumer = Consumer.outside;
        popped = elim (pop N s.ring).0 [ none ↦ s.popped | some y ↦ s.popped ++ (y ∷ []) ];
      })
  unfolding pop
  pop_alone e = elim (Bool-cases (s.ring.head == s.ring.tail)) [
    | inl none_left ↦ rw (none_left) (
        more (more (more done (load_head e)) (acquire_tail refl))
          (find_empty refl (==→eq _ _ none_left)))
    | inr some_left ↦ rw (some_left) (
        more
          (more (more (more done (load_head e)) (acquire_tail refl))
            (read_slot refl (ground arith)))
          (release_head refl))
  ]
