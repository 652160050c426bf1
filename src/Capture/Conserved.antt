-- ===== src/Capture/Conserved.antt =====
-- Every buffer that is in use is in one place: with the main thread, on a queue, or with a worker.
use fast_break.Base.{
  ℕ, zero, suc, ◌+◌, ◌^◌, ◌≤◌, ◌<◌, ◌≡◌, refl, sym, ap, ◌∙◌, none, some, some_inj, [], ◌∷◌, arith,
  ==_refl, ne→==, inl, inr,
}
use fast_break.Base.PowerOfTwo.{IsPowerOfTwo}
use fast_break.Base.Sums.{sum_below, weigh, weigh-append, is, any, weigh-any}
use fast_break.Spsc.{fresh}
use fast_break.Spsc.Window.{contents, contents-empty}
use fast_break.Spsc.Refine.{fresh-IsValid}
use fast_break.Spsc.Outcome.{push_outcome, pop_outcome}
use fast_break.Pool.FreeStack.{Descriptor, empty_index}
use fast_break.Pool.{Pool, acquire, release, set_len}
use fast_break.Pool
use fast_break.Pool.Users
use fast_break.Pool.Counted.{Reach-once}
use fast_break.Rss.{RssDistributor, queue_capacity}
use fast_break.Rss
use fast_break.Rss.Submit.{capacity_power, create-IsDistributor}
use fast_break.Capture.{queue_for}
use fast_break.Capture.Steps.{
  MainThread, System, set_worker, Step, acquire_buffer, find_no_buffer, write_len, enqueue, refuse,
  give_up, dequeue, find_empty, finish, start, Reach, here, next,
}
use fast_break.Capture.Places.{of_main, places}
use fast_break.Capture.Moves.{Inv, get-Inv, give-Inv, push-Inv, pop-Inv, finish-Inv}

module _ {p : Pool} where
  Step-Inv : {s t : System} → Step s t → Inv p s → Inv p t
  Step-Inv (acquire_buffer idle got) i = get-Inv p idle got i
  Step-Inv (find_no_buffer idle e) i = record {
    held = i.held;
    reach = Users.next i.reach (Users.find_none e);
    same = i.same;
    valid = i.valid;
  }
  Step-Inv (write_len {b} n mine) i = record {
    held = i.held;
    reach = Users.next i.reach (Users.resize b n);
    same = i.same;
    valid = i.valid;
  }
  Step-Inv {s} (enqueue {b} pkt mine ok) i =
      let q = queue_for s.rss pkt in
      elim (push_outcome capacity_power (s.rss.queues q) (i.valid.rings q) b) [
        | inl (done, held) ↦
            push-Inv p b pkt MainThread.outside mine
              (λ w. omega (
                arith,
                ap (weigh w) held,
                weigh-append w (contents queue_capacity (s.rss.queues q)) (b ∷ []),
              ))
              i
        | inr (full, _, _) ↦ absurd (cc (full, ok))
      ]
  Step-Inv {s} (refuse {b} pkt mine out) i =
      let q = queue_for s.rss pkt in
      elim (push_outcome capacity_power (s.rss.queues q) (i.valid.rings q) b) [
        | inl (done, _) ↦ absurd (cc (done, out))
        | inr (_, _, held) ↦
            push-Inv p b pkt (MainThread.refused b) mine (λ w. omega (arith, ap (weigh w) held)) i
      ]
  Step-Inv {s} (give_up {b} mine) i =
      give-Inv p b (λ w. let old = ap (λ m. weigh w (of_main m)) mine in omega (arith, old)) refl
        i.valid i
  Step-Inv {s} (dequeue {b} q lt free got) i =
      elim (pop_outcome capacity_power (s.rss.queues q) (i.valid.rings q)) [
        | inl (gone, _, _) ↦ absurd (cc (gone, got))
        | inr (x, out, taken) ↦
            pop-Inv p q (some b) lt free (rw (some_inj (sym out ∙ got)) at taken)
              (set_worker q (some b) s.workers) (rw (==_refl q) refl)
              (λ j ne. rw (ne→== j q ne) refl) i
      ]
  Step-Inv {s} (find_empty q lt free e) i =
      elim (pop_outcome capacity_power (s.rss.queues q) (i.valid.rings q)) [
        | inl (_, before, after) ↦
            pop-Inv p q none lt free (before ∙ sym after) s.workers free (λ j ne. refl) i
        | inr (x, out, _) ↦ absurd (cc (out, e))
      ]
  Step-Inv {s} (finish q lt busy) i = finish-Inv p q lt busy i

sum_below_none : (k : ℕ) → sum_below (λ _. 0) k ≡ 0
unfolding sum_below
sum_below_none zero = refl
sum_below_none (suc k) = omega (arith, sum_below_none k)

module _ (backing size n queues : ℕ) (memory : ℕ → Descriptor) (slots : ℕ → ℕ) {p : Pool}
    (marked : n ≤ empty_index) (made : Pool.create backing memory size n ≡ some p)
    (power : IsPowerOfTwo queues) (few : queues ≤ 2 ^ 32) where
  start-empty : (w : ℕ → ℕ) → places w (start p (Rss.create slots queues)) ≡ 0
  unfolding Rss.create fresh
  start-empty w =
      let held : contents queue_capacity (fresh slots) ≡ [] =
        contents-empty capacity_power (fresh slots) (fresh-IsValid capacity_power slots) refl in
      ap (λ l. 0 + sum_below (λ _. weigh w l) queues) held ∙ omega (arith, sum_below_none queues)

  Reach-Inv : {s : System} → Reach (start p (Rss.create slots queues)) s → Inv p s
  Reach-Inv here = record {
    held = [];
    reach = Users.here;
    same = λ w. sym (start-empty w);
    valid = create-IsDistributor slots queues power few;
  }
  Reach-Inv (next r st) = Step-Inv st (Reach-Inv r)

  -- From a new pool of `n` buffers, with `n` below the empty mark, and a new distributor with
  -- at most 2 ^ 32 queues, a power of two: in every interleaving of the main thread and the
  -- workers, a buffer is in at most one place (with the main thread, on a queue, or with a
  -- worker) and is then one of the `n`, and the free buffers and the places add up to `n`.
  pub buffers_conserved :
      {s : System}
      → Reach (start p (Rss.create slots queues)) s
      → ((b : ℕ) → (places (is b) s ≤ 1) × (0 < places (is b) s → b < n))
        × (s.pool.stack.size + places any s ≡ n)
  buffers_conserved {s} r =
      let i = Reach-Inv r in
      let (once, total) = Reach-once backing size n memory marked made i.reach in
      (
        λ b.
            let (le, inside) = once b in
            (omega (arith, i.same (is b), le), λ h. inside (omega (arith, i.same (is b)))),
        omega (arith, i.same any, weigh-any i.held),
      )
