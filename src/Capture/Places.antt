-- ===== src/Capture/Places.antt =====
-- Where the buffers are, and how the places change when a queue or its worker does.
use fast_break.Base.{
  ℕ, ◌+◌, ◌<◌, ◌≡◌, ◌≢◌, refl, ap, Option, none, some, List, [], ◌∷◌, ◌++◌, arith,
}
use fast_break.Base.Sums.{sum_below, sum_below_changed, weigh, weigh-append}
use fast_break.Spsc.Window.{contents}
use fast_break.Rss.{queue_capacity}
use fast_break.Capture.Steps.{MainThread, System}

-- The buffers that a thread has at hand.
abbrev pub of_worker : Option ℕ → List ℕ
of_worker none = []
of_worker (some b) = b ∷ []

abbrev pub of_main : MainThread → List ℕ
of_main MainThread.outside = []
of_main (MainThread.filling b) = b ∷ []
of_main (MainThread.refused b) = b ∷ []

-- The buffers of a queue and of its worker.
abbrev pub at_queue : System → ℕ → List ℕ
at_queue s q = of_worker (s.workers q) ++ contents queue_capacity (s.rss.queues q)

abbrev pub in_queues : (ℕ → ℕ) → System → ℕ
in_queues w s = sum_below (λ q. weigh w (at_queue s q)) s.rss.queue_count

-- The sum of the weights of the buffers in use, once for every place where a buffer is.
abbrev pub places : (ℕ → ℕ) → System → ℕ
places w s = weigh w (of_main s.main) + in_queues w s

-- One queue has changed, or its worker.
pub queue_changed :
    (w : ℕ → ℕ) (q : ℕ) (s t : System)
    → q < s.rss.queue_count
    → t.rss.queue_count ≡ s.rss.queue_count
    → ((i : ℕ) → i ≢ q → at_queue t i ≡ at_queue s i)
    → in_queues w t + weigh w (at_queue s q) ≡ in_queues w s + weigh w (at_queue t q)
queue_changed w q s t lt same_count same = rw same_count (
    sum_below_changed (λ i. weigh w (at_queue s i)) (λ i. weigh w (at_queue t i)) s.rss.queue_count
      q lt (λ i ne. ap (weigh w) (same i ne)))

-- What the queue `q` and its worker have more, all the queues have more.
pub queue_moved :
    (w : ℕ → ℕ) (q : ℕ) (s t : System)
    → q < s.rss.queue_count
    → t.rss.queue_count ≡ s.rss.queue_count
    → ((i : ℕ) → i ≢ q → (t.rss.queues i ≡ s.rss.queues i) × (t.workers i ≡ s.workers i))
    → in_queues w t
        + (weigh w (of_worker (s.workers q)) + weigh w (contents queue_capacity (s.rss.queues q)))
      ≡ in_queues w s
        + (weigh w (of_worker (t.workers q)) + weigh w (contents queue_capacity (t.rss.queues q)))
queue_moved w q s t lt same_count same =
    let changed =
      queue_changed w q s t lt same_count
        (λ i ne. let (queue, worker) = same i ne in rw (queue, worker) refl) in
    omega (
      arith,
      changed,
      weigh-append w (of_worker (s.workers q)) (contents queue_capacity (s.rss.queues q)),
      weigh-append w (of_worker (t.workers q)) (contents queue_capacity (t.rss.queues q)),
    )
