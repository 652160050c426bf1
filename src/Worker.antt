-- ===== src/Worker.antt =====
-- include/worker_pool.h and src/worker_pool.cpp: `WorkerPool`, the threads that drain the queues. A
-- `Worker` is what the loop of one thread works on: its configuration, its counters, and the queue,
-- the pool and the bytes of the buffers that it shares with other threads. What the callback is called with goes to a log.
pub mod Rounds
pub mod Stop
pub mod Drops
mod Examples
use fast_break.Base.{
  ℕ, zero, suc, ◌+◌, ◌%◌, ◌^◌, Bool, true, false, ◌&&◌, Option, none, some, List, [], ◌∷◌, ◌++◌,
  ◌==◌, if◌then◌else◌, u64,
}
use fast_break.Spsc.{Ring, pop}
use fast_break.Pool.{Pool, release}
use fast_break.Parser.{ParsedPacket, parse}
use fast_break.Rss.{queue_capacity}

-- The core and the NUMA node are left out: the loop does not read them once it is pinned.
pub record WorkerConfig : Type 0 where
  pub queue_index : ℕ
  pub name : List ℕ

pub record WorkerStats : Type 0 where
  pub packets_processed : ℕ
  pub packets_dropped : ℕ
  pub idle_spins : ℕ

-- A call of the callback.
pub record Call : Type 0 where
  pub queue_id : ℕ
  pub buf : ℕ
  pub parsed : ParsedPacket

-- What other threads reach too.
pub record Shared : Type 0 where
  pub queue : Ring ℕ
  pub pool : Pool
  pub memory : ℕ → ℕ → ℕ

pub record Worker : Type 0 where
  pub config : WorkerConfig
  pub stats : WorkerStats
  pub shared : Shared
  pub iters : ℕ
  pub calls : List Call

-- What is done with a buffer that was popped.
unfoldable pub process : ℕ → Worker → Worker
process buf w =
    let s = w.shared in
    let parsed = parse (s.memory buf) (s.pool.stack.descriptors buf).len in
    record w {
      calls =
          w.calls
          ++ ((record { queue_id = w.config.queue_index; buf = buf; parsed = parsed }) ∷ []);
      shared = record s { pool = release buf s.pool };
      stats = record (w.stats) { packets_processed = u64 (w.stats.packets_processed + 1) };
    }

unfoldable pub idle : Worker → Worker
idle w = record w { stats = record (w.stats) { idle_spins = u64 (w.stats.idle_spins + 1) } }

-- The body of the loop, up to the test for the stop.
unfoldable pub round : Worker → Worker
round w =
    let (out, queue) = pop queue_capacity w.shared.queue in
    let popped = record w {
      shared = record (w.shared) { queue = queue };
      iters = u64 (w.iters + 1);
    } in
    elim out [ none ↦ idle popped | some buf ↦ process buf popped ]

abbrev pub stop_interval : ℕ
stop_interval = 1000

-- The loop. `others i` is what the other threads do to what they share before the round `i`,
-- and `stop i` is the flag at the end of it. `none` means that the rounds allowed were not enough.
unfoldable pub worker_loop : (ℕ → Shared → Shared) → (ℕ → Bool) → ℕ → ℕ → Worker → Option Worker
worker_loop others stop i zero w = none
worker_loop others stop i (suc rounds) w =
    let w' = round (record w { shared = others i w.shared }) in
    let rest = worker_loop others stop (i + 1) rounds w' in
    if (w'.iters % stop_interval == 0) && stop i then some w' else rest

-- The counters of the workers, in the order of the configurations.
abbrev pub Stats : Type 0
Stats = List (WorkerConfig × WorkerStats)

unfoldable pub record_drop : ℕ → Stats → Stats
record_drop queue_index [] = []
record_drop queue_index ((c, st) ∷ rest) =
    let dropped = record st { packets_dropped = u64 (st.packets_dropped + 1) } in
    let others = record_drop queue_index rest in
    if c.queue_index == queue_index then (c, dropped) ∷ rest else (c, st) ∷ others

-- The sums that `print_stats` prints last.
unfoldable pub aggregate : Stats → WorkerStats → WorkerStats
aggregate [] agg = agg
aggregate ((c, st) ∷ rest) agg = aggregate rest (record {
  packets_processed = u64 (agg.packets_processed + st.packets_processed);
  packets_dropped = u64 (agg.packets_dropped + st.packets_dropped);
  idle_spins = u64 (agg.idle_spins + st.idle_spins);
})
