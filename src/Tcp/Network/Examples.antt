-- ===== src/Tcp/Network/Examples.antt =====
-- Two sessions that exchange a segment and its acknowledgement, and the theorems at this run.
use fast_break.Base.{
  sym, ◌∙◌, ℕ, ◌+◌, ◌≤◌, ◌≡◌, refl, some, List, [], ◌∷◌, ◌++◌, length, get_or, arith, drop,
}
use fast_break.Base.Sums.{weigh, is}
use fast_break.Pool.FreeStack.{Descriptor, empty_index, pack, push, pop}
use fast_break.Pool.{Pool, add_buffers, add_buffer, create, acquire, release, set_len, clear_len}
use fast_break.Tcp.Crc.{crc32_seg, crc_bytes, crc_byte, crc_table, crc_bits, crc_bit}
use fast_break.Tcp.Endpoint.{deliver, fill, Calls, opened, called, sends, ticks, delivers}
use fast_break.Tcp.Endpoint.Buffers.{calls_keep_buffers}
use fast_break.Tcp.Network
use fast_break.Tcp.Network.{Network, joined, Moves, started, moved, lefts, rights}
use fast_break.Tcp.Network.Stream.{Prefix, network_in_order, acknowledged_delivered}
use fast_break.Tcp.Session.{
  Clock, Session, open_session, send, tick, close_session, pump_tx, pump_loop, may_send, send_chunk,
  retransmit_all, send_ack, on_packet_received, on_ack, take_ack, on_data, deliver_in_order,
  deliver_loop, deliver_one, fill_packet,
}
use fast_break.Tcp.Unacked.{
  mark_sent, mark_acked, mark_acked_loop, newer, release_ptr, check_timeouts, touch,
}
use fast_break.Tcp.Bitmap.{cumulative_ack, count_run, mark_received, advance, has}
use fast_break.Tcp.Header.{
  make_data, make_ack, compute_checksum, verify_checksum, header_at, bytes_of,
}
use fast_break.Tcp.Memory.{read, write}
use fast_break.Tcp.Session.Chunk.{concat}
use fast_break.Tcp.Unacked.Buffers.{of_slots}

abbrev raw : ℕ → Descriptor
raw _ = record { data_at = 0; len = 77; capacity = 0; pool_index = 0; next = 0 }

-- Two buffers of 2048 bytes at the address 4096.
abbrev pair : Pool
pair = record {
  buffer_size = 2048;
  buffer_count = 2;
  backing_bytes = 4096;
  stack =
      add_buffers 4096 2048 0 2 (record { top = pack 0 empty_index; size = 0; descriptors = raw });
  total_acquires = 0;
  total_releases = 0;
  total_exhausted = 0;
}

pair-made : create 4096 raw 2048 2 ≡ some pair
unfolding create
pair-made = refl

-- A clock that counts its readings.
abbrev ticking : Clock
ticking = record { rdtsc = λ n. n; cycles_to_ns = λ c. c; timeout_cycles = λ ns. ns }

abbrev fresh_session : Session
fresh_session = open_session pair (λ _. 0)

abbrev hello : List ℕ
hello = 104 ∷ 101 ∷ 108 ∷ 108 ∷ 111 ∷ []

-- Some bytes arrive that no session has sent, then the clock ticks.
abbrev disturbed : Session
disturbed = tick ticking (deliver ticking hello (send ticking hello fresh_session))

disturbed-calls : Calls ticking fresh_session disturbed
disturbed-calls = called (called (called opened (sends hello)) (delivers hello)) ticks

calls_keep_buffers_example :
    ((x : ℕ) → weigh (is x) (of_slots disturbed.unacked) ≤ 1)
    × (disturbed.pool.stack.size + length (of_slots disturbed.unacked) ≡ 2)
    × ((close_session disturbed).pool.stack.size ≡ 2)
calls_keep_buffers_example =
    calls_keep_buffers 4096 2048 2 raw (omega arith) pair-made ticking (λ _. 0) disturbed-calls

abbrev greeting : Session
greeting = send ticking hello fresh_session

abbrev greeted : Session
greeted = deliver ticking (get_or greeting.wire 0 []) fresh_session

abbrev answered : Session
answered = tick ticking greeted

abbrev settled : Session
settled = deliver ticking (get_or answered.wire 0 []) greeting

-- The run in numbers: packets on the network, and the numbers of the left session.
run_counts :
    (length greeting.wire ≡ 1)
    × (length answered.wire ≡ 1)
    × (settled.next_seq ≡ 1)
    × (settled.snd_una ≡ 1)
unfolding open_session send tick deliver fill pump_tx pump_loop may_send send_chunk retransmit_all
    send_ack on_packet_received on_ack take_ack on_data deliver_in_order deliver_loop deliver_one
    fill_packet acquire release set_len pop push pack clear_len mark_sent mark_acked mark_acked_loop
    newer release_ptr check_timeouts touch make_data make_ack compute_checksum verify_checksum
    header_at bytes_of cumulative_ack count_run mark_received advance has read write add_buffers
    add_buffer crc32_seg crc_bytes crc_byte crc_table crc_bits crc_bit
run_counts = (refl, refl, refl, refl)

-- The packet arrives, then its acknowledgement.
settled-Moves :
    Moves ticking ticking
      (joined fresh_session fresh_session)
      (record { left = settled; right = answered; left_given = hello; right_given = [] })
settled-Moves =
    moved
      (moved
        (moved (moved started (lefts (Network.sends hello (omega arith))))
          (rights (Network.arrives 0 (omega (arith, run_counts.0)))))
        (rights Network.ticks))
      (lefts (Network.arrives 0 (omega (arith, run_counts.1))))

network_in_order_example :
    Prefix (concat answered.delivered) hello × Prefix (concat settled.delivered) []
network_in_order_example =
    network_in_order ticking ticking 4096 4096 2048 2048 2 2 raw raw (λ _. 0) (λ _. 0) (omega arith)
      (omega arith) (omega arith) (omega arith) (omega arith) (omega arith) pair-made pair-made
      settled-Moves (omega arith) (omega arith)

acknowledged_delivered_example :
    concat answered.delivered ++ drop settled.tx_off settled.pending_tx ≡ hello
acknowledged_delivered_example =
    acknowledged_delivered ticking ticking 4096 4096 2048 2048 2 2 raw raw (λ _. 0) (λ _. 0)
      (omega arith) (omega arith) (omega arith) (omega arith) (omega arith) (omega arith) pair-made
      pair-made settled-Moves (omega arith) (omega arith) (run_counts.2 ∙ sym run_counts.3)
