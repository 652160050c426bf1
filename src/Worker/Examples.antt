-- ===== src/Worker/Examples.antt =====
-- A worker with two buffers on its queue, and the theorems of Worker at it.
use fast_break.Base.{ℕ, ◌+◌, ◌-◌, ◌^◌, ◌≡◌, refl, some, [], ◌∷◌, leb, arith}
use fast_break.Worker.{WorkerConfig, WorkerStats, Worker, Shared, worker_loop, record_drop}
use fast_break.Worker.Rounds.{HasRun}
use fast_break.Worker.Stop.{alone, last_round, worker_loop_ends, stop_lem}

abbrev on_queue : ℕ → WorkerConfig
on_queue i = record { queue_index = i; name = [] }

abbrev zeros : WorkerStats
zeros = record { packets_processed = 0; packets_dropped = 0; idle_spins = 0 }

-- The buffers 4 and 5 are on the queue.
abbrev two_waiting : Worker
two_waiting = record {
  config = on_queue 0;
  stats = zeros;
  shared = record {
    queue = record { head = 0; tail = 2; slots = λ i. 4 + i };
    pool = record {
      buffer_size = 2048;
      buffer_count = 8;
      backing_bytes = 16384;
      stack = record {
        top = 2 ^ 32 - 1;
        size = 0;
        descriptors =
            λ i. record { data_at = 0; len = 60; capacity = 2048; pool_index = i; next = 0 };
      };
      total_acquires = 8;
      total_releases = 0;
      total_exhausted = 0;
    };
    memory = λ _ _. 0;
  };
  iters = 0;
  calls = [];
}

first_worker_drops :
    record_drop 1 ((on_queue 0, zeros) ∷ (on_queue 1, zeros) ∷ (on_queue 1, zeros) ∷ [])
    ≡ (on_queue 0, zeros)
      ∷ (on_queue 1, record { packets_processed = 0; packets_dropped = 1; idle_spins = 0 })
      ∷ (on_queue 1, zeros)
      ∷ []
unfolding record_drop
first_worker_drops = refl

-- The flag is set in the sixth round, while another thread keeps one more buffer on the queue.
abbrev one_more : ℕ → Shared → Shared
one_more i s = record s { queue = record { head = 0; tail = 1; slots = λ _. i } }

worker_loop_ends_example :
    (w' : Worker) × (worker_loop one_more (leb 5) 0 1005 two_waiting ≡ some w')
worker_loop_ends_example =
    worker_loop_ends one_more (leb 5) 5 (λ j le. ground (arith, le)) 1005 0 two_waiting
      (omega arith) (omega arith)

stop_lem_example :
    (w' : Worker) × (worker_loop alone (leb 1500) 0 (last_round 1500) two_waiting ≡ some w')
    × HasRun (last_round 1500) two_waiting w'
stop_lem_example =
    stop_lem 1500 (omega arith) two_waiting (omega arith) refl (omega arith) (omega arith)
