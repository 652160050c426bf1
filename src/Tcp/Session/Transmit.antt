-- ===== src/Tcp/Session/Transmit.antt =====
-- The loop of `pump_tx`: when it stops, and what it keeps.
use fast_break.Base.{
  ℕ, zero, suc, ◌+◌, ◌^◌, ◌≤◌, ◌<◌, ◌≡◌, ◌⊎◌, inl, inr, refl, ap, true, false, Option, none, some,
  Option-cases, Bool-cases, arith, u32, u64, sub32, ◌==◌,
}
use fast_break.Pool.FreeStack.{FreeStack, pop, empty_index}
use fast_break.Pool.{Pool, acquire}
use fast_break.Tcp.Session.{Clock, Session, may_send, send_chunk, pump_loop}

pop_gone : (s : FreeStack) → (u32 s.top == empty_index) ≡ true → pop s ≡ (empty_index, s)
unfolding pop
pop_gone s h = rw h refl

pop_there : (s : FreeStack) → (u32 s.top == empty_index) ≡ false → (pop s).0 ≡ u32 s.top
unfolding pop
pop_there s h = rw h refl

acquire_gone :
    (p : Pool)
    → (u32 p.stack.top == empty_index) ≡ true
    → acquire p ≡ (none, record p { total_exhausted = u64 (p.total_exhausted + 1) })
unfolding acquire
acquire_gone p h = rw (pop_gone p.stack h)

acquire_there :
    (p : Pool) → (u32 p.stack.top == empty_index) ≡ false → (acquire p).0 ≡ some (u32 p.stack.top)
unfolding acquire
acquire_there p h = rw (pop_there p.stack h, h) refl

-- A failed `acquire` leaves a pool on which it fails again.
acquire-none_again : (p : Pool) → (acquire p).0 ≡ none → (acquire (acquire p).1).0 ≡ none
acquire-none_again p e = elim (Bool-cases (u32 p.stack.top == empty_index)) [
  | inl gone ↦ rw (acquire_gone p gone) (
      ap (λ (r : Option ℕ × Pool). r.0)
        (acquire_gone (record p { total_exhausted = u64 (p.total_exhausted + 1) }) gone))
  | inr there ↦ absurd (cc (acquire_there p there))
]

-- The loop has nothing more to do.
abbrev pub Stopped : Session → Type 0
Stopped s = (may_send s ≡ false) ⊎ ((acquire s.pool).0 ≡ none)

abbrev pub in_flight : Session → ℕ
in_flight s = sub32 s.next_seq s.snd_una

may_send-full : (s : Session) → 256 ≤ in_flight s → may_send s ≡ false
unfolding may_send
may_send-full s h = ground arith

pub may_send-room : (s : Session) → may_send s ≡ true → in_flight s < 256
unfolding may_send
may_send-room s h = ground arith

module _ (clock : Clock) where
  send_chunk-next :
      (b : ℕ) (s : Session)
      → ((send_chunk clock b s).next_seq ≡ u32 (s.next_seq + 1))
        × ((send_chunk clock b s).snd_una ≡ s.snd_una)
  unfolding send_chunk
  send_chunk-next b s = (refl, refl)

  pump_loop-Stopped :
      (fuel : ℕ) (s : Session)
      → s.snd_una < 2 ^ 32
      → s.next_seq < 2 ^ 32
      → in_flight s ≤ 256
      → 256 ≤ in_flight s + fuel
      → let t = pump_loop clock fuel s in Stopped t × (in_flight t ≤ 256)
  unfolding pump_loop
  pump_loop-Stopped zero s hu hn below enough = (inl (may_send-full s (omega arith)), below)
  pump_loop-Stopped (suc fuel) s hu hn below enough = elim (Bool-cases (may_send s)) [
    | inl more ↦ elim (Option-cases ((acquire s.pool).0)) [
      | inl gone ↦ rw (more, gone, pump_loop) (inr (acquire-none_again s.pool gone), below)
      | inr (b, got) ↦
          let s' = record s { pool = (acquire s.pool).1 } in
          let t = send_chunk clock b s' in
          let (next, una) = send_chunk-next b s' in
          let low = may_send-room s more in
          rw (more, got, pump_loop)
            (pump_loop-Stopped fuel t (omega (arith, una)) (omega (arith, next))
              (omega (arith, next, una)) (omega (arith, next, una)))
    ]
    | inr done ↦ rw (done, pump_loop) (inl done, below)
  ]

  -- If both numbers are words and at most 256 packets are in flight, the 256 rounds that the
  -- model allows the loop of `pump_tx` are enough: it stops with nothing that may be sent, or
  -- with an empty pool. Never more than 256 packets are in flight when it ends.
  pub pump_loop_stops :
      (s : Session)
      → s.snd_una < 2 ^ 32
      → s.next_seq < 2 ^ 32
      → sub32 s.next_seq s.snd_una ≤ 256
      → let t = pump_loop clock 256 s in
        ((may_send t ≡ false) ⊎ ((acquire t.pool).0 ≡ none)) × (sub32 t.next_seq t.snd_una ≤ 256)
  pump_loop_stops s hu hn below = pump_loop-Stopped 256 s hu hn below (omega arith)
