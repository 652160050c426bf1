-- ===== src/Capture/Workers.antt =====
-- A round of a worker's loop as a run of the steps of Capture/Steps.
use fast_break.Base.{
  ℕ, ◌<◌, ◌≡◌, refl, sym, ap, inl, inr, Option, none, some, Option-cases, ◌==◌, ==_refl, ==→eq,
  Bool-cases,
}
use fast_break.Spsc.{pop}
use fast_break.Pool.{release}
use fast_break.Rss.{queue_capacity}
use fast_break.Batch.{set_queue}
use fast_break.Worker.{Worker, round, process, idle}
use fast_break.Batch.Queues.{set_queue_count}
use fast_break.Capture.Steps.{
  System, set_worker, popping, dequeue, find_empty, finish, Reach, here, next,
}

-- The worker of the queue `q` is between two rounds, and its queue and pool are those of `s`.
pub record WorksOn (w : Worker) (q : ℕ) (s : System) : Type 0 where
  pub queue : w.shared.queue ≡ s.rss.queues q
  pub pool : w.shared.pool ≡ s.pool
  pub exists : q < s.rss.queue_count
  pub free : s.workers q ≡ none

-- `t` is `s` after a round of `w`.
pub record HasWorked (w : Worker) (q : ℕ) (s t : System) : Type 0 where
  pub pool : t.pool ≡ (round w).shared.pool
  pub rss : t.rss ≡ set_queue q (round w).shared.queue s.rss
  pub main : t.main ≡ s.main
  pub workers : (i : ℕ) → t.workers i ≡ s.workers i

set_worker_twice :
    (q i : ℕ) (o : Option ℕ) (workers : ℕ → Option ℕ)
    → workers q ≡ none
    → set_worker q none (set_worker q o workers) i ≡ workers i
set_worker_twice q i o workers free = elim (Bool-cases (i == q)) [
  | inl e ↦ rw (==→eq i q e, ==_refl q) (sym free)
  | inr ne ↦ rw ne refl
]

-- A round of a worker's loop, on the queue that is its own and between two of its rounds, is a
-- run of the steps of the interleaving, and ends in the pool and the queue that the round
-- leaves, with the main thread and the other workers as they were.
pub round-runs :
    (w : Worker) (q : ℕ) (s : System) → WorksOn w q s → (t : System) × Reach s t × HasWorked w q s t
unfolding round process idle
round-runs w q s on = elim (Option-cases ((pop queue_capacity (s.rss.queues q)).0)) [
  | inl e ↦
      let e' : (pop queue_capacity w.shared.queue).0 ≡ none = rw on.queue e in
      (
        record s { rss = (popping q s).1 },
        next here (find_empty q on.exists on.free e),
        record {
          pool = rw (e', round) (sym on.pool);
          rss =
              rw (e', round) (ap (λ r. set_queue q (pop queue_capacity r).1 s.rss) (sym on.queue));
          main = refl;
          workers = λ i. refl;
        },
      )
  | inr (b, e) ↦
      let e' : (pop queue_capacity w.shared.queue).0 ≡ some b = rw on.queue e in
      let popped : System = record s {
        rss = (popping q s).1;
        workers = set_worker q (some b) s.workers;
      } in
      (
        record popped {
          pool = release b s.pool;
          workers = set_worker q none (set_worker q (some b) s.workers);
        },
        next (next here (dequeue q on.exists on.free e)) (
            finish q
              (rw (set_queue_count q (pop queue_capacity (s.rss.queues q)).1 s.rss) on.exists)
              (rw (==_refl q) refl)),
        record {
          pool = rw (e', round) (ap (release b) (sym on.pool));
          rss =
              rw (e', round) (ap (λ r. set_queue q (pop queue_capacity r).1 s.rss) (sym on.queue));
          main = refl;
          workers = λ i. set_worker_twice q i (some b) s.workers on.free;
        },
      )
]
