-- ===== src/Batch/Queues.antt =====
-- A queue of a distributor is replaced.
use fast_break.Base.{ℕ, ◌≡◌, ◌≢◌, refl, ==_refl, ne→==}
use fast_break.Spsc.{Ring}
use fast_break.Rss.{RssDistributor}
use fast_break.Batch.{set_queue}

pub set_queue_self :
    (q : ℕ) (queue : Ring ℕ) (d : RssDistributor) → (set_queue q queue d).queues q ≡ queue
unfolding set_queue
set_queue_self q queue d = rw (==_refl q) refl

pub set_queue_count :
    (q : ℕ) (queue : Ring ℕ) (d : RssDistributor)
    → (set_queue q queue d).queue_count ≡ d.queue_count
unfolding set_queue
set_queue_count q queue d = refl

pub set_queue_other :
    (q i : ℕ) (queue : Ring ℕ) (d : RssDistributor)
    → i ≢ q
    → (set_queue q queue d).queues i ≡ d.queues i
unfolding set_queue
set_queue_other q i queue d ne = rw (ne→== i q ne) refl
