-- ===== src/Tcp/Session/Sender/Calls.antt =====
-- The calls of a session keep its sending half.
use fast_break.Base.{
  ℕ, ◌+◌, ◌≤◌, ◌≡◌, refl, sym, subst, ap, ◌∙◌, inl, inr, true, false, some, some_inj, List, [], ◌∷◌,
  ◌++◌, append_assoc, arith, length, length-append, if◌then◌else◌, Bool-cases, Option-cases, u32,
  ◌==◌, drop, is_pos32, sub32, bit_and,
}
use fast_break.Pool.{Pool}
use fast_break.Pool.Owned.{Spaced, Owned-address}
use fast_break.Tcp.Memory.{read}
use fast_break.Tcp.Bitmap.{cumulative_ack}
use fast_break.Tcp.Crc.Detect.{AllBytes}
use fast_break.Tcp.Header.{Header, make_ack, bytes_of, tcp_ack}
use fast_break.Tcp.Unacked.{Slot, slot_at, slot_of, buffer_for, mark_acked}
use fast_break.Tcp.Unacked.Owned.{touch-Owned, mark_acked-Owned}
use fast_break.Tcp.Session.{
  view, Clock, Session, packet_in, send, retransmit, retransmit_all, send_ack, tick, take_ack,
  on_ack,
}
use fast_break.Tcp.Session.Chunk.{concat, append-AllBytes, drop-append}
use fast_break.Tcp.Session.Kept.{mark_acked-Holds, touch-Holds}
use fast_break.Tcp.Session.Packet.{packet, make_ack-packet}
use fast_break.Tcp.Session.Region.{seen}
use fast_break.Tcp.Session.Sender.{Sender-rest, Receiver, Sender, Later}
use fast_break.Tcp.Session.Sender.Pump.{pump_tx-Later, Later-refl}
use fast_break.Tcp.Session.Slots.{IsPacket, AllPackets-snoc, content_of}

buffer_for-some :
    (seq : ℕ) (slots : List Slot) (b : ℕ)
    → buffer_for seq slots ≡ some b
    → ((slot_at seq slots).occupied ≡ true) × ((slot_at seq slots).buf ≡ some b)
unfolding buffer_for
buffer_for-some seq slots b e = ground arith

ack-IsPacket :
    (segs : List (List ℕ)) (k : ℕ) (s : Session)
    → s.next_seq ≡ u32 (length segs)
    → cumulative_ack s.recv_bitmap ≡ u32 k
    → IsPacket segs k (bytes_of (make_ack s.next_seq (cumulative_ack s.recv_bitmap)))
ack-IsPacket segs k s num telling = record {
  seq = s.next_seq;
  told = k;
  payload = [];
  form =
      make_ack-packet s.next_seq (cumulative_ack s.recv_bitmap)
      ∙ ap (λ a. packet s.next_seq a []) telling;
  seq_word = omega (arith, num);
  delivered = omega arith;
  size = omega arith;
  content = tt;
  segment = inl refl;
}

module _ {p₀ : Pool} (spaced : Spaced 1040 p₀) {out : List ℕ} {kept : ℕ → ℕ → ℕ} {r : Receiver}
    {stream : List ℕ} {k j : ℕ} where
  retransmit-Sender :
      (now seq : ℕ) {segs : List (List ℕ)} (s : Session)
      → Sender p₀ out kept r stream k j segs s
      → Sender p₀ out kept r stream k j segs (retransmit now seq s)
  unfolding retransmit packet_in
  retransmit-Sender now seq {segs} s a = elim (Option-cases (buffer_for seq s.unacked)) [
    | inl gone ↦ rw (gone, retransmit) a
    | inr (b, there) ↦
        let (on, e) = buffer_for-some seq s.unacked b there in
        let (b', e', p) = a.slots.full (slot_of seq) on in
        let same : b' ≡ b = some_inj (sym e' ∙ e) in
        let (owned, count) =
          touch-Owned seq now s.unacked s.pool out a.account.count a.account.owned in
        rw (there, retransmit)
          (Sender-rest s _ refl a (record { owned = owned; count = count }) a.intact
            (touch-Holds spaced.once seq now s.unacked s.pool a.account.count a.slots)
            (AllPackets-snoc segs k s.wire a.sent (
              subst
                (λ q. IsPacket segs k (read (view s.memory q) 0 (s.pool.stack.descriptors b).len))
                (sym (Owned-address b a.account.owned))
                (subst (λ q. IsPacket segs k (content_of (seen p₀ s.memory) s.pool q)) same p))))
  ]

  retransmit_all-Sender :
      (now : ℕ) (seqs : List ℕ) {segs : List (List ℕ)} (s : Session)
      → Sender p₀ out kept r stream k j segs s
      → Sender p₀ out kept r stream k j segs (retransmit_all now seqs s)
  unfolding retransmit_all
  retransmit_all-Sender now [] s a = a
  retransmit_all-Sender now (seq ∷ seqs) s a =
      retransmit_all-Sender now seqs (retransmit now seq s) (retransmit-Sender now seq s a)

  send_ack-Sender :
      {segs : List (List ℕ)} (s : Session)
      → Sender p₀ out kept r stream k j segs s
      → Sender p₀ out kept r stream k j segs (send_ack s)
  unfolding send_ack
  send_ack-Sender {segs} s a =
      let packet = bytes_of (make_ack s.next_seq (cumulative_ack s.recv_bitmap)) in
      elim s.pending_ack
        as (λ due.
          Sender p₀ out kept r stream k j segs
            (if due then record s { wire = s.wire ++ (packet ∷ []); pending_ack = false } else s)) [
              | true ↦
                  Sender-rest s _ refl a
                    (record { owned = a.account.owned; count = a.account.count }) a.intact a.slots
                    (AllPackets-snoc segs k s.wire a.sent
                      (ack-IsPacket segs k s a.numbered a.telling))
              | false ↦ a
            ]

  module _ (clock : Clock) {segs : List (List ℕ)} where
    pub send-Later :
        (more : List ℕ) (s : Session)
        → AllBytes more
        → Sender p₀ out kept r stream k j segs s
        → Later p₀ out kept r (stream ++ more) k j segs (send clock more s)
    unfolding send
    send-Later more s good a =
        pump_tx-Later spaced clock (record s { pending_tx = s.pending_tx ++ more })
          (record {
            account = record { owned = a.account.owned; count = a.account.count };
            intact = a.intact;
            receiver = a.receiver;
            telling = a.telling;
            una = a.una;
            oldest = a.oldest;
            acknowledged = a.acknowledged;
            numbered = a.numbered;
            whole =
                ap (λ l. concat segs ++ l) (drop-append s.tx_off s.pending_tx more a.offset)
                ∙ sym (append_assoc (concat segs) (drop s.tx_off s.pending_tx) more)
                ∙ ap (λ l. l ++ more) a.whole;
            offset = omega (arith, a.offset, length-append s.pending_tx more);
            many = a.many;
            bytes = append-AllBytes s.pending_tx more a.bytes good;
            slots = a.slots;
            sent = a.sent;
          })

    pub tick-Later :
        (s : Session)
        → Sender p₀ out kept r stream k j segs s
        → Later p₀ out kept r stream k j segs (tick clock s)
    unfolding tick
    tick-Later s a =
        let l = pump_tx-Later spaced clock _ (
          retransmit_all-Sender _ _ (record s { ticks = s.ticks + 1 })
            (Sender-rest s _ refl a (record { owned = a.account.owned; count = a.account.count })
              a.intact a.slots (a.sent))) in
        record { more = l.more; sender = send_ack-Sender _ l.sender }

    take_ack-Later :
        (ack told : ℕ) (s : Session)
        → told ≤ j
        → ack ≡ u32 told
        → Sender p₀ out kept r stream k j segs s
        → Later p₀ out kept r stream k j segs (take_ack clock ack s)
    unfolding take_ack
    take_ack-Later ack told s le name a =
        let m = mark_acked ack s.unacked s.pool in
        let (owned, count) =
          mark_acked-Owned ack s.unacked s.pool out a.account.count a.account.owned in
        let slots = mark_acked-Holds spaced.once ack s.unacked s.pool out a.account.owned a.slots in
        let acked = λ (rtt ticks : ℕ). record s {
          unacked = m.slots;
          pool = m.pool;
          snd_una = ack;
          rtt_ns = rtt;
          ticks = ticks;
        } in
        let go : (rtt ticks : ℕ) → Sender p₀ out kept r stream k j segs (acked rtt ticks) =
          λ rtt ticks. record {
            account = record { owned = owned; count = count };
            intact = a.intact;
            receiver = a.receiver;
            telling = a.telling;
            una = told;
            oldest = name;
            acknowledged = le;
            numbered = a.numbered;
            whole = a.whole;
            offset = a.offset;
            many = a.many;
            bytes = a.bytes;
            slots = slots;
            sent = a.sent;
          } in
        elim (Bool-cases (m.sent == 0)) [
          | inl none_acked ↦ rw none_acked (pump_tx-Later spaced clock _ (go _ _))
          | inr sampled ↦ rw sampled (pump_tx-Later spaced clock _ (go _ _))
        ]

    pub on_ack-Later :
        (h : Header) (told : ℕ) (s : Session)
        → told ≤ j
        → h.ack_num ≡ u32 told
        → Sender p₀ out kept r stream k j segs s
        → Later p₀ out kept r stream k j segs (on_ack clock h s)
    unfolding on_ack
    on_ack-Later h told s le name a = elim (Bool-cases (bit_and h.flags tcp_ack == 0)) [
      | inl plain ↦ rw plain (Later-refl a)
      | inr flagged ↦ elim (Bool-cases (is_pos32 (sub32 h.ack_num s.snd_una))) [
        | inl newer ↦ rw (flagged, newer) (take_ack-Later h.ack_num told s le name a)
        | inr older ↦ rw (flagged, older) (Later-refl a)
      ]
    ]
