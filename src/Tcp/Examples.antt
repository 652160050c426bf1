-- ===== src/Tcp/Examples.antt =====
-- The theorems of Tcp at concrete packets, windows and runs.
use fast_break.Base.{
  none, ℕ, ◌+◌, ◌-◌, ◌^◌, ◌≤◌, ◌<◌, ◌≡◌, ◌⊎◌, refl, true, false, List, [], ◌∷◌, arith, u32, sub32,
  bit_xor, ◌==◌, if◌then◌else◌,
}
use fast_break.Pool.{Pool, acquire}
use fast_break.Tcp.Crc.{crc_bits, crc_byte}
use fast_break.Tcp.Crc.Bitwise.{crc_byte-eq-crc_bits}
use fast_break.Tcp.Header.{Header, header_at, compute_checksum, verify_checksum, make_data}
use fast_break.Tcp.Header.Laws.{IsHeader, verify-compute}
use fast_break.Tcp.Bitmap.{mark_received, advance, has}
use fast_break.Tcp.Memory.{read, write}
use fast_break.Tcp.Session.{
  send, tick, take_ack, Clock, may_send, pump_loop, Session, open_session, on_data, deliver_one,
  deliver_loop, deliver_in_order, fill_packet,
}
use fast_break.Tcp.Session.Transmit.{pump_loop_stops}
use fast_break.Tcp.Session.Packet.{fill_packet-received}
use fast_break.Tcp.Session.Retained.{Retained, open_session-Retained}
use fast_break.Tcp.Session.Retained.Calls.{session_retains}
use fast_break.Tcp.Session.Receive.{first, Receiving, on_data-Receiving}
use fast_break.Tcp.Session.Arrivals.{arrive}

crc_byte-eq-crc_bits_example : crc_byte 0xFFFFFFFF 0x61 ≡ crc_bits 8 (bit_xor 0xFFFFFFFF 0x61)
crc_byte-eq-crc_bits_example = crc_byte-eq-crc_bits 0xFFFFFFFF 0x61 (omega arith)

abbrev sample : Header
sample = record { seq_num = 2 ^ 32 - 1; ack_num = 7; flags = 2; payload_len = 3; checksum = 0 }

sample-IsHeader : IsHeader sample
sample-IsHeader = omega arith

verify-compute_example :
    let sealed = compute_checksum sample (10 ∷ 20 ∷ 30 ∷ []) in
    (verify_checksum sealed (10 ∷ 20 ∷ 30 ∷ []) ≡ true)
    × (verify_checksum sealed (10 ∷ 21 ∷ 30 ∷ []) ≡ false)
verify-compute_example =
    verify-compute sample (10 ∷ []) (30 ∷ []) 20 21 (omega arith) (omega arith) (omega arith)
      (omega arith) (omega arith)

abbrev load : List ℕ
load = 1 ∷ 2 ∷ 3 ∷ []

fill_packet-received_example :
    let p = load in
    let sent = read (fill_packet (make_data 5 9 3) p (λ _. 0)) 0 (16 + 3) in
    let got = write (λ _. 255) 0 sent in
    ((header_at got).seq_num ≡ 5)
    × ((header_at got).ack_num ≡ 9)
    × ((header_at got).payload_len ≡ 3)
    × (read got 16 3 ≡ p)
    × (verify_checksum (header_at got) (read got 16 3) ≡ true)
fill_packet-received_example =
    fill_packet-received 5 9 load (λ _. 0) (λ _. 255) (omega arith) (omega arith) (omega arith)
      (omega arith)

-- Three segments of the other side, the third before the second and repeated.
abbrev segments : ℕ → List ℕ
segments n = if n == 0 then 104 ∷ 101 ∷ [] else if n == 1 then 108 ∷ [] else 108 ∷ 111 ∷ []

abbrev order : List ℕ
order = 0 ∷ 2 ∷ 2 ∷ 1 ∷ 0 ∷ []

abbrev no_pool : Pool
no_pool = record {
  buffer_size = 2048;
  buffer_count = 0;
  backing_bytes = 0;
  stack = record {
    top = 2 ^ 32 - 1;
    size = 0;
    descriptors = λ _. record { data_at = 0; len = 0; capacity = 0; pool_index = 0; next = 0 };
  };
  total_acquires = 0;
  total_releases = 0;
  total_exhausted = 0;
}

abbrev opened : Session
opened = open_session no_pool (λ _. 0)

opened-Receiving : Receiving segments 3 0 opened
unfolding open_session first
opened-Receiving = record {
  callback = refl;
  most = omega arith;
  base = refl;
  log = refl;
  held = λ i lt h. absurd (cc h);
}

abbrev due : ℕ
due = 0

on_data-Receiving_example :
    (k' : ℕ) × (0 ≤ k')
    × (due ≡ 0 → 0 < k')
    × Receiving segments 3 k' (on_data (u32 due) (segments due) opened)
on_data-Receiving_example =
    on_data-Receiving segments 3 0 due opened opened-Receiving (omega arith) (omega arith)

delivered_all : (arrive segments order opened).delivered ≡ first segments 3
unfolding arrive first open_session on_data mark_received deliver_in_order deliver_loop has
    deliver_one advance
delivered_all = refl

-- A clock that counts its readings.
abbrev ticking : Clock
ticking = record { rdtsc = λ n. n; cycles_to_ns = λ c. c; timeout_cycles = λ ns. ns }

abbrev sending : Session
sending = record opened { pending_tx = 104 ∷ 105 ∷ [] }

sending-words :
    (sending.snd_una < 2 ^ 32)
    × (sending.next_seq < 2 ^ 32)
    × (sub32 sending.next_seq sending.snd_una ≤ 256)
unfolding open_session
sending-words = (omega arith, omega arith, omega arith)

pump_loop_stops_example :
    let t = pump_loop ticking 256 sending in
    ((may_send t ≡ false) ⊎ ((acquire t.pool).0 ≡ none)) × (sub32 t.next_seq t.snd_una ≤ 256)
pump_loop_stops_example =
    pump_loop_stops ticking sending sending-words.0 sending-words.1 sending-words.2

session_retains_example :
    ((top' : ℕ) × (0 ≤ top') × Retained 0 top' (send ticking (104 ∷ 105 ∷ []) opened))
    × ((top' : ℕ) × (0 ≤ top') × Retained 0 top' (tick ticking opened))
    × ((top' : ℕ) × (0 ≤ top') × Retained 0 top' (take_ack ticking (u32 0) opened))
session_retains_example =
    session_retains ticking opened (104 ∷ 105 ∷ []) 0 (omega arith) (omega arith)
      (open_session-Retained no_pool (λ _. 0))
