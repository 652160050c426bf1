-- ===== src/Tcp/Endpoint.antt =====
-- A session and the program around it: what the tests of TCP-lite do with one (tests/test_tcp_lite.cpp).
-- A packet that comes from the network is copied into a buffer of the session's own pool.
pub mod Buffers
pub mod Peer
use fast_break.Base.{ℕ, Option, none, some, List, length, u32}
use fast_break.Pool.{acquire, set_len}
use fast_break.Tcp.Memory.{write}
use fast_break.Tcp.Session.{Clock, Session, put, data_of, send, tick, on_packet_received}

-- The part of `deliver` behind `acquire`.
unfoldable pub fill : ℕ → List ℕ → Session → Session
fill b packet s = record s {
  pool = set_len b (u32 (length packet)) s.pool;
  memory = put s.memory (s.pool.stack.descriptors b).data_at (write (data_of b s) 0 packet);
}

-- With no buffer left the packet is lost.
unfoldable pub deliver : Clock → List ℕ → Session → Session
deliver clock packet s = elim ((acquire s.pool).0) [
  | none ↦ record s { pool = (acquire s.pool).1 }
  | some b ↦ on_packet_received clock b (fill b packet (record s { pool = (acquire s.pool).1 }))
]

-- The calls of the program, in any order. Any bytes may come from the network.
pub data Call (clock : Clock) (s : Session) : Session → Type 0 where
  sends : (bytes : List ℕ) → Call clock s (send clock bytes s)
  ticks : Call clock s (tick clock s)
  delivers : (packet : List ℕ) → Call clock s (deliver clock packet s)

pub data Calls (clock : Clock) (s : Session) : Session → Type 0 where
  opened : Calls clock s s
  called : {t u : Session} → Calls clock s t → Call clock t u → Calls clock s u
