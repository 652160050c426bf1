-- ===== src/Tcp/Session.antt =====
-- `TcpLiteSession` of include/tcp_lite.h and src/tcp_lite.cpp. A call takes the session and returns
-- it; the two callbacks append to logs: `wire` holds the packets given to `transmit_`, `delivered`
-- the runs of bytes given to `data_cb_`. Memory holds a byte at each address; the bytes of a buffer
-- are those from its `data_at` on.
pub mod Packet
pub mod Transmit
pub mod Receive
pub mod Arrivals
pub mod Buffers
pub mod Slots
pub mod Kept
pub mod Chunk
pub mod Region
pub mod Sender
pub mod Retained
use fast_break.Base.{
  ℕ, zero, suc, ◌+◌, ◌-◌, ◌*◌, ◌/◌, ◌%◌, ◌^◌, Bool, true, false, ◌&&◌, Option, none, some, List, [],
  ◌∷◌, ◌++◌, bit_and, ◌==◌, leb, ltb, if◌then◌else◌, u16, u32, u64, sub32, sub64, is_pos32, length,
  take, drop, min,
}
use fast_break.Pool.FreeStack.{Descriptor, update}
use fast_break.Pool.{Pool, acquire, release, set_len}
use fast_break.Tcp.Header.{
  Header, tcp_ack, bytes_of, header_at, compute_checksum, verify_checksum, make_ack, make_data,
}
use fast_break.Tcp.Bitmap.{
  window_size, RecvBitmap, fresh, mark_received, cumulative_ack, advance, has,
}
use fast_break.Tcp.Memory.{read, write}
use fast_break.Tcp.Unacked.{
  Slot, slots_init, mark_sent, mark_acked, check_timeouts, buffer_for, touch, release_all,
}

-- The clock and its conversions, which the code takes from the processor: the value of the n-th
-- `rdtsc()`, `static_cast<uint64_t>(cycles_to_ns(c))`, and
-- `static_cast<uint64_t>(rto_ns_ * tsc_frequency_ghz())`.
pub record Clock : Type 0 where
  pub rdtsc : ℕ → ℕ
  pub cycles_to_ns : ℕ → ℕ
  pub timeout_cycles : ℕ → ℕ

pub record Session : Type 0 where
  pub pool : Pool
  pub memory : ℕ → ℕ
  pub has_data_cb : Bool
  pub rto_ns : ℕ
  pub unacked : List Slot
  pub pending_tx : List ℕ
  pub tx_off : ℕ
  pub next_seq : ℕ
  pub snd_una : ℕ
  pub recv_bitmap : RecvBitmap
  pub reasm : ℕ → List ℕ
  pub pending_ack : Bool
  pub bytes_sent : ℕ
  pub bytes_received : ℕ
  pub retransmits : ℕ
  pub rtt_ns : ℕ
  pub ticks : ℕ  -- how often the clock has been read
  pub wire : List (List ℕ)
  pub delivered : List (List ℕ)

abbrev pub max_payload : ℕ
max_payload = 1024

abbrev pub header_size : ℕ
header_size = 16

-- A session over a pool, with a data callback and the default timeout. Opening the socket is left
-- to the parts that are not modelled.
unfoldable pub open_session : Pool → (ℕ → ℕ) → Session
open_session pool memory = record {
  pool = pool;
  memory = memory;
  has_data_cb = true;
  rto_ns = 1_000_000;
  unacked = slots_init;
  pending_tx = [];
  tx_off = 0;
  next_seq = 0;
  snd_una = 0;
  recv_bitmap = fresh;
  reasm = λ _. [];
  pending_ack = false;
  bytes_sent = 0;
  bytes_received = 0;
  retransmits = 0;
  rtt_ns = 0;
  ticks = 0;
  wire = [];
  delivered = [];
}

abbrev pub store {ℓ} : {A : Type ℓ} → (ℕ → A) → ℕ → A → ℕ → A
store f i a j = if i == j then a else f j

-- Memory from the address `at` on.
abbrev pub view : (ℕ → ℕ) → ℕ → ℕ → ℕ
view m at i = m (at + i)

-- Memory that is `f` from the address `at` on.
abbrev pub put : (ℕ → ℕ) → ℕ → (ℕ → ℕ) → ℕ → ℕ
put m at f a = if leb at a then f (a - at) else m a

-- `b->data`
abbrev pub data_of : ℕ → Session → ℕ → ℕ
data_of b s = view s.memory (s.pool.stack.descriptors b).data_at

-- What `transmit_(b->data, b->len)` hands over.
unfoldable pub packet_in : ℕ → Session → List ℕ
packet_in b s = read (data_of b s) 0 (s.pool.stack.descriptors b).len

-- The two `memcpy` of `pump_tx`, and the checksum computed in place, in memory from `b->data` on: as
-- in the code, nothing looks at the size of the buffer.
unfoldable pub fill_packet : Header → List ℕ → (ℕ → ℕ) → ℕ → ℕ
fill_packet h payload m =
    let m₁ = write (write m 0 (bytes_of h)) header_size payload in
    let sealed = compute_checksum (header_at m₁) (read m₁ header_size h.payload_len) in
    write m₁ 0 (bytes_of sealed)

-- The test of the loop.
unfoldable pub may_send : Session → Bool
may_send s = ltb s.tx_off (length s.pending_tx) && ltb (sub32 s.next_seq s.snd_una) window_size

-- The body of the loop of `deliver_in_order`.
unfoldable pub deliver_one : Session → Session
deliver_one s =
    let seq = s.recv_bitmap.base_seq in
    let v = s.reasm (bit_and seq 255) in
    record s {
      delivered = if s.has_data_cb then s.delivered ++ (v ∷ []) else s.delivered;
      bytes_received = u64 (s.bytes_received + length v);
      reasm = store s.reasm (bit_and seq 255) [];
      recv_bitmap = advance (u32 (seq + 1)) s.recv_bitmap;
    }

-- The loop runs at most once for each bit of the window.
unfoldable pub deliver_loop : ℕ → Session → Session
deliver_loop zero s = s
deliver_loop (suc fuel) s = elim (has s.recv_bitmap.base_seq s.recv_bitmap) [
  | false ↦ s
  | true ↦ deliver_loop fuel (deliver_one s)
]

unfoldable pub deliver_in_order : Session → Session
deliver_in_order s = deliver_loop window_size s

-- The part for the payload.
unfoldable pub on_data : ℕ → List ℕ → Session → Session
on_data seq payload s =
    let (marked, m) = mark_received seq s.recv_bitmap in
    let t = deliver_in_order (record s {
      recv_bitmap = m;
      reasm = if marked then store s.reasm (bit_and seq 255) payload else s.reasm;
    }) in
    record t { pending_ack = true }

-- One round of the loop of `tick` over the sequence numbers that have timed out.
unfoldable pub retransmit : ℕ → ℕ → Session → Session
retransmit now seq s = elim (buffer_for seq s.unacked) [
  | none ↦ s
  | some b ↦ record s {
    wire = s.wire ++ (packet_in b s ∷ []);
    unacked = touch seq now s.unacked;
    retransmits = u64 (s.retransmits + 1);
  }
]

unfoldable pub retransmit_all : ℕ → List ℕ → Session → Session
retransmit_all now [] s = s
retransmit_all now (seq ∷ seqs) s = retransmit_all now seqs (retransmit now seq s)

unfoldable pub send_ack : Session → Session
send_ack s =
    if s.pending_ack
    then record s {
      wire = s.wire ++ (bytes_of (make_ack s.next_seq (cumulative_ack s.recv_bitmap)) ∷ []);
      pending_ack = false;
    }
    else s

module _ (clock : Clock) where
  -- The body of the loop of `pump_tx`, with the buffer `b` acquired.
  unfoldable pub send_chunk : ℕ → Session → Session
  send_chunk b s =
      let remaining = length s.pending_tx - s.tx_off in
      let plen = u16 (min remaining max_payload) in
      let h = make_data s.next_seq (cumulative_ack s.recv_bitmap) plen in
      let at = (s.pool.stack.descriptors b).data_at in
      let chunk = take plen (drop s.tx_off s.pending_tx) in
      let memory = put s.memory at (fill_packet h chunk (view s.memory at)) in
      let len = u32 (header_size + plen) in
      let (slots, pool) =
        mark_sent s.next_seq b (clock.rdtsc s.ticks) s.unacked (set_len b len s.pool) in
      record s {
        pool = pool;
        memory = memory;
        unacked = slots;
        tx_off = s.tx_off + plen;
        next_seq = u32 (s.next_seq + 1);
        bytes_sent = u64 (s.bytes_sent + plen);
        ticks = s.ticks + 1;
        wire = s.wire ++ (read (view memory at) 0 len ∷ []);
      }

  -- The loop runs at most once for each free place of the window.
  unfoldable pub pump_loop : ℕ → Session → Session
  pump_loop zero s = s
  pump_loop (suc fuel) s = elim (may_send s) [
    | false ↦ s
    | true ↦ elim ((acquire s.pool).0) [
      | none ↦ record s { pool = (acquire s.pool).1 }
      | some b ↦ pump_loop fuel (send_chunk b (record s { pool = (acquire s.pool).1 }))
    ]
  ]

  unfoldable pub pump_tx : Session → Session
  pump_tx s =
      let t = pump_loop window_size s in
      if ltb 0 t.tx_off && (t.tx_off == length t.pending_tx)
      then record t { pending_tx = []; tx_off = 0 }
      else t

  unfoldable pub send : List ℕ → Session → Session
  send bytes s = pump_tx (record s { pending_tx = s.pending_tx ++ bytes })

  -- The part of `on_packet_received` for the acknowledgement number, once it is found newer.
  unfoldable pub take_ack : ℕ → Session → Session
  take_ack ack s =
      let r = mark_acked ack s.unacked s.pool in
      let acked = record s { unacked = r.slots; pool = r.pool; snd_una = ack } in
      let sample = clock.cycles_to_ns (sub64 (clock.rdtsc s.ticks) r.sent) in
      pump_tx (
        if r.sent == 0 then acked else record acked {
          rtt_ns = if s.rtt_ns == 0 then sample else u64 (u64 (7 * s.rtt_ns) + sample) / 8;
          ticks = s.ticks + 1;
        })

  unfoldable pub on_ack : Header → Session → Session
  on_ack h s =
      if bit_and h.flags tcp_ack == 0
      then s
      else if is_pos32 (sub32 h.ack_num s.snd_una)
      then take_ack h.ack_num s
      else s

  -- `plen` is read once; the header and the payload are read again after the acknowledgement.
  unfoldable pub on_packet_received : ℕ → Session → Session
  on_packet_received b s =
      let h = header_at (data_of b s) in
      let plen = h.payload_len in
      if verify_checksum h (read (data_of b s) header_size plen)
      then (let t = on_ack h s in
          let u =
            if plen == 0
            then t
            else on_data (header_at (data_of b t)).seq_num (read (data_of b t) header_size plen)
                t in
          record u { pool = release b u.pool })
      else record s { pool = release b s.pool }

  unfoldable pub tick : Session → Session
  tick s =
      let now = clock.rdtsc s.ticks in
      let timed_out = check_timeouts now (clock.timeout_cycles s.rto_ns) s.unacked in
      send_ack (pump_tx (retransmit_all now timed_out (record s { ticks = s.ticks + 1 })))

-- The destructor gives back the buffers that are still waiting for an acknowledgement.
unfoldable pub close_session : Session → Session
close_session s =
    let (slots, pool) = release_all s.unacked s.pool in record s { unacked = slots; pool = pool }
