-- ===== src/Tcp/Session/Buffers.antt =====
-- The account of a session's buffers: what the session has acquired and not released is in its
-- slots. `out` is what the caller of an operation holds beside the session.
use fast_break.Base.{
  ℕ, zero, suc, ◌+◌, ◌≡◌, refl, inl, inr, true, false, ◌&&◌, List, [], ◌∷◌, ◌++◌, arith, length,
  if◌then◌else◌, Bool-cases, Option-cases, bit_and, ◌==◌, ltb, is_pos32, sub32,
}
use fast_break.Base.Sums.{weigh-append}
use fast_break.Pool.{Pool, acquire, release}
use fast_break.Pool.Owned.{
  Owned, Owned-weights, acquire-Owned, acquire-none-Owned, set_len-Owned, release-Owned,
}
use fast_break.Tcp.Bitmap.{has, cumulative_ack}
use fast_break.Tcp.Header.{bytes_of, make_ack, Header, header_at, tcp_ack, verify_checksum}
use fast_break.Tcp.Memory.{read}
use fast_break.Tcp.Unacked.Buffers.{of_slots}
use fast_break.Tcp.Unacked.{buffer_for, mark_acked}
use fast_break.Tcp.Unacked.Owned.{mark_sent-Owned, mark_acked-Owned, touch-Owned, release_all-Owned}
use fast_break.Tcp.Session.{
  data_of, Clock, Session, may_send, send_chunk, pump_loop, pump_tx, send, retransmit,
  retransmit_all, send_ack, tick, take_ack, on_ack, on_data, deliver_one, deliver_loop,
  deliver_in_order, on_packet_received, close_session,
}

pub record Account (p₀ : Pool) (out : List ℕ) (s : Session) : Type 0 where
  pub owned : Owned p₀ s.pool (of_slots s.unacked ++ out)
  pub count : length s.unacked ≡ 256

-- The receiving half uses no buffer.
pub deliver_loop-buffers :
    (fuel : ℕ) (s : Session)
    → ((deliver_loop fuel s).pool ≡ s.pool) × ((deliver_loop fuel s).unacked ≡ s.unacked)
unfolding deliver_loop deliver_one
deliver_loop-buffers zero s = (refl, refl)
deliver_loop-buffers (suc fuel) s = elim (Bool-cases (has s.recv_bitmap.base_seq s.recv_bitmap)) [
  | inl there ↦ rw (there, deliver_loop) (deliver_loop-buffers fuel (deliver_one s))
  | inr gap ↦ rw (gap, deliver_loop) (refl, refl)
]

pub on_data-buffers :
    (seq : ℕ) (payload : List ℕ) (s : Session)
    → ((on_data seq payload s).pool ≡ s.pool) × ((on_data seq payload s).unacked ≡ s.unacked)
unfolding on_data deliver_in_order
on_data-buffers seq payload s = deliver_loop-buffers 256 _

module _ {p₀ : Pool} {out : List ℕ} where
  pub on_data-Account :
      (seq : ℕ) (payload : List ℕ) (s : Session)
      → Account p₀ out s
      → Account p₀ out (on_data seq payload s)
  on_data-Account seq payload s a =
      let (pool, slots) = on_data-buffers seq payload s in
      record { owned = rw (pool, slots) a.owned; count = rw slots a.count }

  pub retransmit-Account :
      (now seq : ℕ) (s : Session) → Account p₀ out s → Account p₀ out (retransmit now seq s)
  unfolding retransmit
  retransmit-Account now seq s a = elim (Option-cases (buffer_for seq s.unacked)) [
    | inl gone ↦ rw (gone, retransmit) a
    | inr (b, there) ↦
        let (owned, count) = touch-Owned seq now s.unacked s.pool out a.count a.owned in
        rw (there, retransmit) (record { owned = owned; count = count })
  ]

  pub retransmit_all-Account :
      (now : ℕ) (seqs : List ℕ) (s : Session)
      → Account p₀ out s
      → Account p₀ out (retransmit_all now seqs s)
  unfolding retransmit_all
  retransmit_all-Account now [] s a = a
  retransmit_all-Account now (seq ∷ seqs) s a =
      retransmit_all-Account now seqs (retransmit now seq s) (retransmit-Account now seq s a)

  pub send_ack-Account : (s : Session) → Account p₀ out s → Account p₀ out (send_ack s)
  unfolding send_ack
  send_ack-Account s a =
      let wire = s.wire ++ (bytes_of (make_ack s.next_seq (cumulative_ack s.recv_bitmap)) ∷ []) in
      elim s.pending_ack
        as (λ due.
          Account p₀ out (if due then record s { wire = wire; pending_ack = false } else s)) [
            | true ↦ record { owned = a.owned; count = a.count }
            | false ↦ a
          ]

  pub close_session-Account : (s : Session) → Account p₀ out s → Owned p₀ (close_session s).pool out
  unfolding close_session
  close_session-Account s a = (release_all-Owned s.unacked s.pool out a.owned).0

  module _ (clock : Clock) where
    pub send_chunk-Account :
        (b : ℕ) (s : Session)
        → Owned p₀ s.pool (b ∷ (of_slots s.unacked ++ out))
        → length s.unacked ≡ 256
        → Account p₀ out (send_chunk clock b s)
    unfolding send_chunk
    send_chunk-Account b s owned count =
        let (owned', count') =
          mark_sent-Owned s.next_seq b (clock.rdtsc s.ticks) s.unacked _ out count
            (set_len-Owned b _ owned) in
        record { owned = owned'; count = count' }

    pub pump_loop-Account :
        (fuel : ℕ) (s : Session) → Account p₀ out s → Account p₀ out (pump_loop clock fuel s)
    unfolding pump_loop
    pump_loop-Account zero s a = a
    pump_loop-Account (suc fuel) s a = elim (Bool-cases (may_send s)) [
      | inl more ↦ elim (Option-cases ((acquire s.pool).0)) [
        | inl gone ↦
            rw (more, gone, pump_loop)
              (record { owned = acquire-none-Owned gone a.owned; count = a.count })
        | inr (b, got) ↦
            let s' = record s { pool = (acquire s.pool).1 } in
            rw (more, got, pump_loop)
              (pump_loop-Account fuel (send_chunk clock b s')
                (send_chunk-Account b s' (acquire-Owned got a.owned) a.count))
      ]
      | inr done ↦ rw (done, pump_loop) a
    ]

    pub pump_tx-Account : (s : Session) → Account p₀ out s → Account p₀ out (pump_tx clock s)
    unfolding pump_tx
    pump_tx-Account s a =
        let t = pump_loop clock 256 s in
        let after = pump_loop-Account 256 s a in
        elim (Bool-cases (ltb 0 t.tx_off && (t.tx_off == length t.pending_tx))) [
          | inl all ↦ rw all (record { owned = after.owned; count = after.count })
          | inr some_left ↦ rw some_left after
        ]

    pub send-Account :
        (bytes : List ℕ) (s : Session) → Account p₀ out s → Account p₀ out (send clock bytes s)
    unfolding send
    send-Account bytes s a =
        pump_tx-Account (record s { pending_tx = s.pending_tx ++ bytes })
          (record { owned = a.owned; count = a.count })

    pub tick-Account : (s : Session) → Account p₀ out s → Account p₀ out (tick clock s)
    unfolding tick
    tick-Account s a = send_ack-Account _ (
        pump_tx-Account _ (
          retransmit_all-Account _ _ (record s { ticks = s.ticks + 1 })
            (record { owned = a.owned; count = a.count })))

    pub take_ack-Account :
        (ack : ℕ) (s : Session) → Account p₀ out s → Account p₀ out (take_ack clock ack s)
    unfolding take_ack
    take_ack-Account ack s a =
        let (owned, count) = mark_acked-Owned ack s.unacked s.pool out a.count a.owned in
        elim (Bool-cases ((mark_acked ack s.unacked s.pool).sent == 0)) [
          | inl none_acked ↦
              rw none_acked (pump_tx-Account _ (record { owned = owned; count = count }))
          | inr sampled ↦ rw sampled (pump_tx-Account _ (record { owned = owned; count = count }))
        ]

    pub on_ack-Account :
        (h : Header) (s : Session) → Account p₀ out s → Account p₀ out (on_ack clock h s)
    unfolding on_ack
    on_ack-Account h s a = elim (Bool-cases (bit_and h.flags tcp_ack == 0)) [
      | inl plain ↦ rw plain a
      | inr flagged ↦ elim (Bool-cases (is_pos32 (sub32 h.ack_num s.snd_una))) [
        | inl newer ↦ rw (flagged, newer) (take_ack-Account h.ack_num s a)
        | inr older ↦ rw (flagged, older) a
      ]
    ]

module _ {p₀ : Pool} {out : List ℕ} where
  -- A session that has handled a packet no longer holds its buffer.
  pub release-Account :
      (b : ℕ) (s : Session)
      → Account p₀ (b ∷ out) s
      → Account p₀ out (record s { pool = release b s.pool })
  release-Account b s a = record {
    owned = release-Owned b (
        Owned-weights
          (λ w. omega (
            arith,
            weigh-append w (of_slots s.unacked) (b ∷ out),
            weigh-append w (of_slots s.unacked) out,
          ))
          a.owned);
    count = a.count;
  }

module _ {p₀ : Pool} {out : List ℕ} (clock : Clock) where
  pub on_packet_received-Account :
      (b : ℕ) (s : Session) → Account p₀ (b ∷ out) s → Account p₀ out (on_packet_received clock b s)
  unfolding on_packet_received
  on_packet_received-Account b s a =
      let h = header_at (data_of b s) in
      let t = on_ack clock h s in
      let after = on_ack-Account clock h s a in
      elim (Bool-cases (verify_checksum h (read (data_of b s) 16 h.payload_len))) [
        | inl intact ↦ elim (Bool-cases (h.payload_len == 0)) [
          | inl bare ↦ rw (intact, bare) (release-Account b t after)
          | inr loaded ↦ rw (intact, loaded) (release-Account b _ (on_data-Account _ _ t after))
        ]
        | inr broken ↦ rw broken (release-Account b s a)
      ]
