-- ===== src/Capture/Steps.antt =====
-- The main thread and the workers, interleaved: a step is a call of the pool or of a queue, or the
-- write of a buffer's length. The worker of the queue `q` is the only one that pops it.
use fast_break.Base.{ℕ, ◌<◌, ◌≡◌, Bool, true, false, Option, none, some, ◌==◌, if◌then◌else◌}
use fast_break.Spsc.{push, pop}
use fast_break.Parser.{ParsedPacket}
use fast_break.Pool.{Pool, acquire, release, set_len}
use fast_break.Rss.{RssDistributor, queue_capacity}
use fast_break.Batch.{set_queue}
use fast_break.Capture.{queue_for}

-- Outside of the frame's branch, or with a buffer: before it is on a queue, or refused by one.
pub data MainThread : Type 0 where
  outside : MainThread
  filling : (buf : ℕ) → MainThread
  refused : (buf : ℕ) → MainThread

pub record System : Type 0 where
  pub pool : Pool
  pub rss : RssDistributor
  pub main : MainThread
  pub workers : ℕ → Option ℕ  -- the buffer that the worker of a queue has popped

abbrev pub set_worker : ℕ → Option ℕ → (ℕ → Option ℕ) → ℕ → Option ℕ
set_worker q o workers i = if i == q then o else workers i

-- The push of `b` on the queue of `p`.
abbrev pub pushing : ℕ → ParsedPacket → System → Bool × RssDistributor
pushing b p s =
    let q = queue_for s.rss p in
    let (pushed, queue) = push queue_capacity (s.rss.queues q) b in
    (pushed, set_queue q queue s.rss)

-- The pop from the queue `q`.
abbrev pub popping : ℕ → System → Option ℕ × RssDistributor
popping q s =
    let (out, queue) = pop queue_capacity (s.rss.queues q) in (out, set_queue q queue s.rss)

pub data Step (s : System) : System → Type 0 where
  acquire_buffer :
      {b : ℕ}
      → s.main ≡ MainThread.outside
      → (acquire s.pool).0 ≡ some b
      → Step s (record s { pool = (acquire s.pool).1; main = MainThread.filling b })
  find_no_buffer :
      s.main ≡ MainThread.outside
      → (acquire s.pool).0 ≡ none
      → Step s (record s { pool = (acquire s.pool).1 })
  write_len :
      {b : ℕ} (n : ℕ)
      → s.main ≡ MainThread.filling b
      → Step s (record s { pool = set_len b n s.pool })
  enqueue :
      {b : ℕ} (p : ParsedPacket)
      → s.main ≡ MainThread.filling b
      → (pushing b p s).0 ≡ true
      → Step s (record s { rss = (pushing b p s).1; main = MainThread.outside })
  refuse :
      {b : ℕ} (p : ParsedPacket)
      → s.main ≡ MainThread.filling b
      → (pushing b p s).0 ≡ false
      → Step s (record s { rss = (pushing b p s).1; main = MainThread.refused b })
  give_up :
      {b : ℕ}
      → s.main ≡ MainThread.refused b
      → Step s (record s { pool = release b s.pool; main = MainThread.outside })
  dequeue :
      {b : ℕ} (q : ℕ)
      → q < s.rss.queue_count
      → s.workers q ≡ none
      → (popping q s).0 ≡ some b
      → Step s (record s { rss = (popping q s).1; workers = set_worker q (some b) s.workers })
  find_empty :
      (q : ℕ)
      → q < s.rss.queue_count
      → s.workers q ≡ none
      → (popping q s).0 ≡ none
      → Step s (record s { rss = (popping q s).1 })
  finish :
      {b : ℕ} (q : ℕ)
      → q < s.rss.queue_count
      → s.workers q ≡ some b
      → Step s (record s { pool = release b s.pool; workers = set_worker q none s.workers })

abbrev pub start : Pool → RssDistributor → System
start pool rss = record { pool = pool; rss = rss; main = MainThread.outside; workers = λ _. none }

pub data Reach (first : System) : System → Type 0 where
  here : Reach first first
  next : {s t : System} → Reach first s → Step s t → Reach first t

pub Reach-trans : {a b c : System} → Reach a b → Reach b c → Reach a c
Reach-trans r here = r
Reach-trans r (next r' st) = next (Reach-trans r r') st
