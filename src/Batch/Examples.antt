-- ===== src/Batch/Examples.antt =====
-- A batch of three packets for two handlers, and the theorems of Batch at it.
use fast_break.Base.{
  ℕ, ◌+◌, ◌-◌, ◌^◌, ◌≡◌, ◌≢◌, refl, true, none, some, List, [], ◌∷◌, ◌++◌, map, arith, ◌==◌,
  if◌then◌else◌, u64, length, take, drop,
}
use fast_break.Spsc.{Ring, store_at}
use fast_break.Spsc.Window.{contents, IsValid}
use fast_break.Pool.Chain.{has}
use fast_break.Parser.{ParsedPacket, rd16, dst_port}
use fast_break.Rss.{create, queue_capacity}
use fast_break.Batch.{
  BatchProcessor, Batch, handle, flush, mark, handler_for, dispatch_one, dispatch_loop,
  dispatch_batch, run_once, batch_size,
}
use fast_break.Batch.Dispatch.{handled, handlers_of, calls_of, count, dispatch_batch_lem}
use fast_break.Batch.Run.{HasHandled, run_once_lem}

-- The handler 7 has the port 53, and the handler 9 takes what is left.
abbrev processor : BatchProcessor
processor = record {
  pool = record {
    buffer_size = 2048;
    buffer_count = 0;
    backing_bytes = 0;
    stack = record {
      top = 2 ^ 32 - 1;
      size = 0;
      descriptors = λ _. record { data_at = 0; len = 0; capacity = 0; pool_index = 0; next = 0 };
    };
    total_acquires = 0;
    total_releases = 0;
    total_exhausted = 0;
  };
  rss = create (λ _. 0) 1;
  memory = λ _ _. 0;
  queue_index = 0;
  udp_handlers = λ port. if port == 53 then some 7 else none;
  default_handler = some 9;
  batches_processed = 0;
  packets_processed = 0;
  packets_dispatched = 0;
  calls = [];
}

abbrev to_port : ℕ → ParsedPacket
to_port port = record {
  valid = true;
  eth = record { buf = λ _. 0; len = 60 };
  ip = record { buf = λ _. 0; len = 46 };
  udp = record { buf = λ i. if i == 3 then port else 0; len = 26 };
  has_ip = true;
  has_udp = true;
}

abbrev three : Batch
three = (0, to_port 53) ∷ (1, to_port 80) ∷ (2, to_port 53) ∷ []

three_calls :
    (dispatch_batch three processor).calls
    ≡ handle 7 (to_port 53) 0
      ∷ handle 9 (to_port 80) 1
      ∷ handle 7 (to_port 53) 2
      ∷ flush 7
      ∷ flush 9
      ∷ []
unfolding dispatch_batch dispatch_loop dispatch_one handler_for mark dst_port rd16
three_calls = refl

dispatch_batch_lem_example :
    let done = handled (λ pkt. handler_for pkt processor) three in
    let q = dispatch_batch three processor in
    (touched : List ℕ) × (q.calls ≡ processor.calls ++ (calls_of done ++ map flush touched))
    × ((x : ℕ) → count x touched ≡ (if has x (handlers_of done) then 1 else 0))
    × (q.packets_dispatched ≡ u64 (processor.packets_dispatched + length done))
dispatch_batch_lem_example = dispatch_batch_lem three processor (omega arith)

-- Two buffers wait.
abbrev waiting : Ring ℕ
waiting = record { head = 0; tail = 2; slots = store_at (store_at (λ _. 0) 0 5) 1 6 }

waiting-IsValid : IsValid queue_capacity waiting
waiting-IsValid = omega arith

abbrev busy : BatchProcessor
busy = record processor {
  rss = record { queue_count = 1; mask = 0; queues = λ _. waiting };
  default_handler = some 9;
}

run_once_lem_example :
    let held = contents queue_capacity waiting in
    let p' = run_once busy in
    HasHandled busy (take batch_size held) p'
    × (contents queue_capacity (p'.rss.queues 0) ≡ drop batch_size held)
    × ((j : ℕ) → j ≢ 0 → p'.rss.queues j ≡ waiting)
run_once_lem_example = run_once_lem busy (omega arith) (omega arith) (omega arith) waiting-IsValid
