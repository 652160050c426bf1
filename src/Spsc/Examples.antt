-- ===== src/Spsc/Examples.antt =====
-- A ring of four slots about to wrap its counters, the theorems of Spsc at it, and a race of the two
-- threads.
use fast_break.Base.{
  ℕ, ◌-◌, ◌^◌, ◌≤◌, ◌≡◌, ◌≢◌, refl, true, false, some, List, [], ◌∷◌, ◌++◌, bit_and, arith, length,
}
use fast_break.Base.PowerOfTwo.{IsPowerOfTwo}
use fast_break.Spsc.{Ring, store_at, fresh, push, pop}
use fast_break.Spsc.Queue
use fast_break.Spsc.Queue.{Op, put, get, Reply, pushed, popped}
use fast_break.Spsc.Window.{window, contents, IsValid}
use fast_break.Spsc.Refine.{run, run_refines}
use fast_break.Spsc.Steps.{
  Producer, Consumer, System, load_tail, acquire_head, write_slot, release_tail, load_head,
  acquire_tail, Reach, here, next,
}
use fast_break.Spsc.Fifo.{fifo_order, slots_race_free}

four : IsPowerOfTwo 4
four = record { nonzero = omega arith; one_bit = refl; fits = omega arith }

-- 7, then 8, with the tail counter already past 2 ^ 64.
abbrev wrapped : Ring ℕ
wrapped = record { head = 2 ^ 64 - 1; tail = 1; slots = store_at (store_at (λ _. 0) 3 7) 0 8 }

wrapped-IsValid : IsValid 4 wrapped
wrapped-IsValid = omega arith

abbrev script : List (Op ℕ)
script = put 1 ∷ put 2 ∷ put 3 ∷ get ∷ get ∷ put 4 ∷ []

run-wrapped :
    run 4 wrapped script
    ≡ pushed true
      ∷ pushed true
      ∷ pushed false
      ∷ popped (some 7)
      ∷ popped (some 8)
      ∷ pushed true
      ∷ []
unfolding run push pop
run-wrapped = refl

run_refines_example : run 4 wrapped script ≡ Queue.run 4 (7 ∷ 8 ∷ []) script
unfolding window
run_refines_example = run_refines four script wrapped wrapped-IsValid

-- One item pushed; the producer is about to write a second, the consumer to read the first.
abbrev memory : ℕ → ℕ
memory _ = 0

abbrev racing : System ℕ
racing = record {
  ring = record { head = 0; tail = 1; slots = store_at memory 0 5 };
  producer = Producer.head_loaded 6 1 0;
  consumer = Consumer.tail_loaded 0 1;
  pushed = 5 ∷ [];
  popped = [];
}

racing-Reach : Reach 4 memory racing
unfolding fresh
racing-Reach =
    next
      (next
        (next
          (next
            (next
              (next (next (next here (load_tail 5 refl)) (acquire_head refl))
                (write_slot refl (omega arith)))
              (release_tail refl))
            (load_tail 6 refl))
          (acquire_head refl))
        (load_head refl))
      (acquire_tail refl)

fifo_order_example : (5 ∷ [] ≡ [] ++ contents 4 racing.ring) × (length (contents 4 racing.ring) ≤ 4)
fifo_order_example = fifo_order four racing-Reach

slots_race_free_example : bit_and 1 3 ≢ bit_and 0 3
slots_race_free_example =
    slots_race_free four {x = 6} {t = 1} {h = 0} {h' = 0} {t' = 1} racing-Reach refl (omega arith)
      refl (omega arith)
