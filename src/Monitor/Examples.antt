-- ===== src/Monitor/Examples.antt =====
-- The program on a ring of one slot, for three rounds.
use fast_break.Base.{ℕ, ◌%◌, ◌*◌, ◌≤◌, ◌≡◌, ◌==◌, refl, true, some, [], ◌∷◌, arith}
use fast_break.PacketRing.{FrameSlot, PacketRing, Flags}
use fast_break.Monitor.{Monitor, Readings, new_monitor, monitor_loop}
use fast_break.Monitor.Rates.{leaves, monitor_loop_lem}
use fast_break.Monitor.Tally.{rates, tally, Told}

abbrev slot : FrameSlot
slot = record { tp_status = 1; tp_mac = 0; tp_len = 60; tp_snaplen = 60; bytes = λ i. i % 256 }

abbrev one_ring : PacketRing
one_ring = record {
  fd = some 3;
  ring = some 4096;
  ring_bytes = 2048;
  frames = 4096 ∷ [];
  total_frames = 1;
  current_frame = 0;
  drops = 0;
}

-- The kernel fills the slot before each round.
abbrev fills : ℕ → (ℕ → FrameSlot) → ℕ → FrameSlot
fills i slots a = slot

-- Each round takes half a second; the user asks to stop before the round 3.
abbrev read : ℕ → Readings
read i = record { g_stop = i == 3; now = 500_000_000 * i; wall = 7 }

abbrev flags : Flags
flags = record { user = 1; losing = 4 }

monitor_loop_lem_example :
    let seen = tally fills flags one_ring (λ a. slot) in
    (j : ℕ) × (j ≤ 3)
    × (leaves fills read flags 0 10 j ≡ true)
    × (m : Monitor) × (monitor_loop fills read flags 0 10 0 5 (new_monitor one_ring (λ a. slot) 0)
        ≡ some m)
    × (m.total ≡ (seen j).0)
    × (m.ring.drops ≡ (seen j).1)
    × Told fills flags one_ring (λ a. slot) j 0 m.printed
    × (rates m.printed ≡ m.last_total)
    × (m.last_total ≤ m.total)
    × (m.total ≤ j)
monitor_loop_lem_example =
    monitor_loop_lem fills read flags 0 10 3 5 one_ring (λ a. slot) refl (omega arith) (omega arith)
      (omega arith)
