-- ===== src/Tcp/Endpoint/Buffers.antt =====
-- The buffers of a session whose pool nobody else uses: `acquire` and `release` of
-- src/buffer_pool.cpp as src/tcp_lite.cpp calls them.
use fast_break.Base.{
  ℕ, ◌+◌, ◌≤◌, ◌≡◌, refl, inl, inr, some, List, [], ◌∷◌, arith, length, Option-cases,
}
use fast_break.Base.Sums.{weigh, weigh-append, weigh-any, is, any}
use fast_break.Pool.FreeStack.{Descriptor, empty_index}
use fast_break.Pool.{Pool, acquire, create}
use fast_break.Pool.Counted.{Reach-once}
use fast_break.Pool.Owned.{
  Owned, Owned-new, Owned-weights, acquire-Owned, acquire-none-Owned, set_len-Owned,
}
use fast_break.Tcp.Session.{Clock, Session, open_session, close_session}
use fast_break.Tcp.Session.Buffers.{
  Account, send-Account, tick-Account, on_packet_received-Account, close_session-Account,
}
use fast_break.Tcp.Unacked.Buffers.{of_slots}
use fast_break.Tcp.Endpoint.{fill, deliver, Call, sends, ticks, delivers, Calls, opened, called}

module _ {p₀ : Pool} where
  pub fill-Account :
      (b : ℕ) (packet : List ℕ) (s : Session)
      → (acquire s.pool).0 ≡ some b
      → Account p₀ [] s
      → Account p₀ (b ∷ []) (fill b packet (record s { pool = (acquire s.pool).1 }))
  unfolding fill
  fill-Account b packet s got a = record {
    owned = set_len-Owned b _ (
        Owned-weights
          (λ w. omega (
            arith,
            weigh-append w (of_slots s.unacked) [],
            weigh-append w (of_slots s.unacked) (b ∷ []),
          ))
          (acquire-Owned got a.owned));
    count = a.count;
  }

module _ {p₀ : Pool} (clock : Clock) where
  pub deliver-Account :
      (packet : List ℕ) (s : Session) → Account p₀ [] s → Account p₀ [] (deliver clock packet s)
  unfolding deliver
  deliver-Account packet s a = elim (Option-cases ((acquire s.pool).0)) [
    | inl gone ↦
        rw (gone, deliver) (record { owned = acquire-none-Owned gone a.owned; count = a.count })
    | inr (b, got) ↦
        rw (got, deliver) (on_packet_received-Account clock b _ (fill-Account b packet s got a))
  ]

  Call-Account : {s t : Session} → Call clock s t → Account p₀ [] s → Account p₀ [] t
  Call-Account {s} (sends bytes) a = send-Account clock bytes s a
  Call-Account {s} ticks a = tick-Account clock s a
  Call-Account {s} (delivers packet) a = deliver-Account packet s a

  Calls-Account : {s t : Session} → Calls clock s t → Account p₀ [] s → Account p₀ [] t
  Calls-Account opened a = a
  Calls-Account (called before call) a = Call-Account call (Calls-Account before a)

pub open_session-Account : (p : Pool) (memory : ℕ → ℕ) → Account p [] (open_session p memory)
unfolding open_session
open_session-Account p memory = record { owned = Owned-new; count = refl }

module _ (backing size n : ℕ) (at : ℕ → Descriptor) {p : Pool} (marked : n ≤ empty_index)
    (made : create backing at size n ≡ some p) where
  -- What is owned, with the free buffers, is the whole pool.
  Owned-all :
      {pool : Pool} {xs : List ℕ}
      → Owned p pool xs
      → ((x : ℕ) → weigh (is x) xs ≤ 1) × (pool.stack.size + length xs ≡ n)
  Owned-all {xs} o =
      let (once, total) = Reach-once backing size n at marked made o.reach in
      (
        λ x. omega (arith, (once x).0, o.same (is x)),
        omega (arith, total, o.same any, weigh-any o.held, weigh-any xs),
      )

  -- A session opens over a new pool of `n` buffers, with `n` at most the empty mark, and alone
  -- uses it. After any calls of `send`, `tick` and `deliver`, with any bytes from the network:
  -- no two slots have one buffer, each buffer is free or in an occupied slot, and after
  -- `close_session` all `n` are free.
  pub calls_keep_buffers :
      (clock : Clock) (memory : ℕ → ℕ) {s : Session}
      → Calls clock (open_session p memory) s
      → ((x : ℕ) → weigh (is x) (of_slots s.unacked) ≤ 1)
        × (s.pool.stack.size + length (of_slots s.unacked) ≡ n)
        × ((close_session s).pool.stack.size ≡ n)
  calls_keep_buffers clock memory {s} calls =
      let a = Calls-Account clock calls (open_session-Account p memory) in
      let (once, total) = Owned-all (
        Owned-weights {ys = of_slots s.unacked}
          (λ w. omega (arith, weigh-append w (of_slots s.unacked) [])) a.owned) in
      let (_, closed) = Owned-all (close_session-Account s a) in
      (once, total, omega (arith, closed))
