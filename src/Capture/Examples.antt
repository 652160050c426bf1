-- ===== src/Capture/Examples.antt =====
-- A pool of two buffers and two queues, and the theorems of Capture at them.
use fast_break.Base.{
  ℕ, ◌+◌, ◌*◌, ◌≤◌, ◌<◌, ◌≡◌, ◌≢◌, refl, true, false, none, some, [], min, ltb, if◌then◌else◌,
  Bool-cases, Option-cases, inl, inr, arith,
}
use fast_break.Base.PowerOfTwo.{IsPowerOfTwo}
use fast_break.Base.Sums.{is, any}
use fast_break.Parser.{ParsedPacket}
use fast_break.Pool.FreeStack.{Descriptor, FreeStack, empty_index, pack, update}
use fast_break.Pool.FreeStack
use fast_break.Pool.{Pool, add_buffers, add_buffer, acquire, release, set_len}
use fast_break.Pool
use fast_break.PacketRing.{RxFrame, Flags, closed}
use fast_break.Rss.{RssDistributor}
use fast_break.Rss
use fast_break.Rss.Submit.{create-IsDistributor}
use fast_break.Worker.{Worker}
use fast_break.Capture.{Capture, take_frame, capture_loop}
use fast_break.Capture.Steps.{
  MainThread, System, acquire_buffer, write_len, dequeue, find_empty, finish, set_worker, popping,
  start, Reach, here, next,
}
use fast_break.Capture.Places.{places}
use fast_break.Capture.Conserved.{buffers_conserved}
use fast_break.Capture.Frame.{stored, queue_of, HandedOver, take_frame-some}
use fast_break.Capture.Round.{system}
use fast_break.Capture.Loop.{OthersRun, Popped, capture_loop-runs}
use fast_break.Capture.Workers.{HasWorked, round-runs}

abbrev raw : ℕ → Descriptor
raw _ = record { data_at = 0; len = 77; capacity = 0; pool_index = 0; next = 0 }

abbrev pair : Pool
pair = record {
  buffer_size = 64;
  buffer_count = 2;
  backing_bytes = 128;
  stack =
      add_buffers 4096 64 0 2 (record { top = pack 0 empty_index; size = 0; descriptors = raw });
  total_acquires = 0;
  total_releases = 0;
  total_exhausted = 0;
}

made : Pool.create 4096 raw 64 2 ≡ some pair
unfolding Pool.create
made = refl

marked : 2 ≤ empty_index
marked = omega arith

abbrev two_queues : RssDistributor
two_queues = Rss.create (λ _. 0) 2

two : IsPowerOfTwo 2
two = record { nonzero = omega arith; one_bit = refl; fits = omega arith }

abbrev not_ip : ParsedPacket
not_ip = record {
  valid = true;
  eth = record { buf = λ _. 0; len = 60 };
  ip = record { buf = λ _. 0; len = 46 };
  udp = record { buf = λ _. 0; len = 0 };
  has_ip = false;
  has_udp = false;
}

first_out : (acquire pair).0 ≡ some 1
unfolding acquire FreeStack.pop add_buffers add_buffer FreeStack.push pack
first_out = refl

abbrev filling_one : System
filling_one = record {
  pool = set_len 1 60 (acquire pair).1;
  rss = two_queues;
  main = MainThread.filling 1;
  workers = λ _. none;
}

filling_one-Reach : Reach (start pair two_queues) filling_one
filling_one-Reach = next (next here (acquire_buffer refl first_out)) (write_len 60 refl)

buffers_conserved_example :
    ((b : ℕ) → (places (is b) filling_one ≤ 1) × (0 < places (is b) filling_one → b < 2))
    × (filling_one.pool.stack.size + places any filling_one ≡ 2)
buffers_conserved_example =
    buffers_conserved 4096 64 2 2 raw (λ _. 0) marked made two (omega arith) filling_one-Reach

abbrev capture : Capture
capture = record {
  pool = pair;
  ring = closed;
  slots = λ _. record { tp_status = 0; tp_mac = 0; tp_len = 0; tp_snaplen = 0; bytes = λ _. 0 };
  rss = two_queues;
  memory = λ _ _. 0;
  stats = [];
}

-- A frame of which more was captured than a buffer holds.
abbrev long_frame : RxFrame
long_frame = record { bytes = λ i. i; len = 100; captured_len = 100 }

take_frame-some_example :
    let c' = take_frame long_frame capture in
    let pool = (acquire pair).1 in
    let n = min 100 (pool.stack.descriptors 1).capacity in
    let q = queue_of long_frame 1 n capture in
    ((o : ℕ) → c'.memory 1 o ≡ stored long_frame n (λ _. 0) o)
    × ((b' o : ℕ) → b' ≢ 1 → c'.memory b' o ≡ 0)
    × HandedOver 1 q (set_len 1 n pool) capture c'
take_frame-some_example =
    take_frame-some long_frame capture 1 (create-IsDistributor (λ _. 0) 2 two (omega arith))
      first_out

abbrev flags : Flags
flags = record { user = 1; losing = 4 }

-- What the worker of the queue 0 does between two rounds: it gives back the buffer that it has, or
-- tries to pop one.
abbrev worker_turn : ℕ → Capture → Popped → Capture × Popped
worker_turn i c w =
    if ltb 0 c.rss.queue_count
    then elim (w 0) [
      | some b ↦ (record c { pool = release b c.pool }, set_worker 0 none w)
      | none ↦
          (let (out, rss) = popping 0 (system c w) in
            elim out [
              | none ↦ (record c { rss = rss }, w)
              | some b ↦ (record c { rss = rss }, set_worker 0 (some b) w)
            ])
    ]
    else (c, w)

worker_turn-runs : OthersRun worker_turn
worker_turn-runs i c w = elim (Bool-cases (ltb 0 c.rss.queue_count)) [
  | inr no_queue ↦ rw no_queue here
  | inl exists ↦
      let lt : 0 < c.rss.queue_count = ground arith in
      elim (Option-cases (w 0)) [
        | inr (b, busy) ↦ rw (exists, busy) (next here (finish 0 lt busy))
        | inl idle ↦ elim (Option-cases ((popping 0 (system c w)).0)) [
          | inl nothing ↦ rw (exists, idle, nothing) (next here (find_empty 0 lt idle nothing))
          | inr (b, popped) ↦ rw (exists, idle, popped) (next here (dequeue 0 lt idle popped))
        ]
      ]
]

-- One round each second; the duration is three seconds, and the stop flag is never set. At the start
-- the worker has the first buffer.
capture_loop-runs_example :
    (c' : Capture) × (workers' : Popped) × (capture_loop worker_turn
        (λ _. false)
        (λ i. i * 1000000000)
        flags
        0
        3
        0
        4
        capture
        (set_worker 0 (some 1) (λ _. none))
      ≡ some (c', workers'))
    × Reach (system capture (set_worker 0 (some 1) (λ _. none))) (system c' workers')
capture_loop-runs_example =
    capture_loop-runs worker_turn (λ _. false) (λ i. i * 1000000000) flags 0 3 3 4 0 capture
      (set_worker 0 (some 1) (λ _. none)) worker_turn-runs refl (omega arith) (omega arith)

-- The buffer 1 is on the queue 0.
abbrev waiting : System
waiting = record {
  pool = (acquire pair).1;
  rss = record {
    queue_count = 2;
    mask = 1;
    queues = λ _. record { head = 0; tail = 1; slots = λ _. 1 };
  };
  main = MainThread.outside;
  workers = λ _. none;
}

abbrev worker : Worker
worker = record {
  config = record { queue_index = 0; name = [] };
  stats = record { packets_processed = 0; packets_dropped = 0; idle_spins = 0 };
  shared = record { queue = waiting.rss.queues 0; pool = waiting.pool; memory = λ _ _. 0 };
  iters = 0;
  calls = [];
}

round-runs_example : (t : System) × Reach waiting t × HasWorked worker 0 waiting t
round-runs_example =
    round-runs worker 0 waiting
      (record { queue = refl; pool = refl; exists = omega arith; free = refl })
