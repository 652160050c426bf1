-- ===== src/Tcp/Session/Sender.antt =====
-- The sending half of a session against the stream of bytes that it has been given: the segments
-- that it has cut from the stream, the packets on the network and in the slots.
pub mod Pump
pub mod Calls
pub mod Arrival
use fast_break.Base.{
  ℕ, zero, suc, ◌+◌, ◌-◌, ◌^◌, ◌≤◌, ◌<◌, ◌≡◌, ◌⊎◌, refl, leb, sym, subst, ap, ◌∙◌, inl, inr, Bool,
  true, false, ◌&&◌, Option, none, some, List, [], ◌∷◌, ◌++◌, append_assoc, append-nil, arith,
  length, length-append, get_or, get_or-append_right, if◌then◌else◌, Bool-cases, Option-cases, u32,
  u16, ==_refl, ne→==, ltb, ◌==◌, take, drop, min,
}
use mathlib.Core.Path.{fun_ext}
use fast_break.Base.Sums.{weigh, weigh-append, is}
use fast_break.Pool.{Pool, acquire, set_len}
use fast_break.Pool.Owned.{
  Owned, Owned-Once, Owned-address, Owned-apart, Spaced, address, acquire-Owned, acquire-none-Owned,
  acquire-len, set_len-len, set_len-Owned, is_out,
}
use fast_break.Tcp.Bitmap.{RecvBitmap, cumulative_ack}
use fast_break.Tcp.Crc.Detect.{AllBytes}
use fast_break.Tcp.Header.{make_data}
use fast_break.Tcp.Memory.{read}
use fast_break.Tcp.Unacked.Buffers.{of_slots}
use fast_break.Tcp.Session.{
  Clock, Session, put, view, fill_packet, may_send, send_chunk, pump_loop, pump_tx, max_payload,
}
use fast_break.Tcp.Session.Buffers.{Account, send_chunk-Account}
use fast_break.Tcp.Session.Chunk.{
  concat, concat-snoc, plen_of, chunk_of, chunk_len, chunk_rest, take-AllBytes, drop-AllBytes,
  drop_all,
}
use fast_break.Tcp.Session.Kept.{mark_sent-Holds, acquire-Holds}
use fast_break.Tcp.Session.Packet.{packet, fill_packet-packet, fill_packet-outside}
use fast_break.Tcp.Session.Region.{seen, put_self, put_apart}
use fast_break.Tcp.Session.Slots.{
  IsPacket, AllPackets, AllPackets-more, AllPackets-snoc, content_of, Holds, Holds-more, Holds-kept,
}

-- What the receiving half keeps.
abbrev pub Receiver : Type 0
Receiver = Bool × RecvBitmap × (ℕ → List ℕ) × List (List ℕ)

abbrev pub receiver_of : Session → Receiver
receiver_of s = (s.has_data_cb, s.recv_bitmap, s.reasm, s.delivered)

-- The session holds buffers of `p₀`, and its caller those in `out`, with bytes `kept` in them. The
-- session has been given `stream`, and has cut `segs` from it. `r` is its receiving half.
pub record Sender (p₀ : Pool) (out : List ℕ) (kept : ℕ → ℕ → ℕ) (r : Receiver) (stream : List ℕ)
    (k j : ℕ) (segs : List (List ℕ)) (s : Session) : Type 0 where
  pub account : Account p₀ out s
  pub intact : (x : ℕ) → 0 < weigh (is x) out → (o : ℕ) → o < 1040 → seen p₀ s.memory x o ≡ kept x o
  pub receiver : receiver_of s ≡ r
  pub telling : cumulative_ack s.recv_bitmap ≡ u32 k
  pub una : ℕ
  pub oldest : s.snd_una ≡ u32 una
  pub acknowledged : una ≤ j
  pub numbered : s.next_seq ≡ u32 (length segs)
  pub whole : concat segs ++ drop s.tx_off s.pending_tx ≡ stream
  pub offset : s.tx_off ≤ length s.pending_tx
  pub many : length segs ≤ length (concat segs)
  pub bytes : AllBytes s.pending_tx
  pub slots : Holds segs k (seen p₀ s.memory) s.pool s.unacked
  pub sent : AllPackets segs k s.wire

-- What a call that cuts no segment and takes no acknowledgement leaves as it was.
abbrev pub rest_of : Session → Receiver × ℕ × ℕ × List ℕ × ℕ
rest_of s = (receiver_of s, s.next_seq, s.snd_una, s.pending_tx, s.tx_off)

pub Sender-rest :
    {p₀ p₁ : Pool} {out out' : List ℕ} {kept kept' : ℕ → ℕ → ℕ} {r : Receiver} {stream : List ℕ}
    {k j : ℕ} {segs : List (List ℕ)} (s t : Session)
    → rest_of t ≡ rest_of s
    → Sender p₀ out kept r stream k j segs s
    → Account p₁ out' t
    → ((x : ℕ) → 0 < weigh (is x) out' → (o : ℕ) → o < 1040 → seen p₁ t.memory x o ≡ kept' x o)
    → Holds segs k (seen p₁ t.memory) t.pool t.unacked
    → AllPackets segs k t.wire
    → Sender p₁ out' kept' r stream k j segs t
Sender-rest s t e a account intact slots sent =
    let half = ap (λ (h : Receiver × ℕ × ℕ × List ℕ × ℕ). h.0) e in
    let next = ap (λ (h : Receiver × ℕ × ℕ × List ℕ × ℕ). h.1) e in
    let una = ap (λ (h : Receiver × ℕ × ℕ × List ℕ × ℕ). h.2) e in
    let pending = ap (λ (h : Receiver × ℕ × ℕ × List ℕ × ℕ). h.3) e in
    let off = ap (λ (h : Receiver × ℕ × ℕ × List ℕ × ℕ). h.4) e in
    record {
      account = account;
      intact = intact;
      receiver = half ∙ a.receiver;
      telling = ap (λ (h : Receiver). cumulative_ack h.1) half ∙ a.telling;
      una = a.una;
      oldest = una ∙ a.oldest;
      acknowledged = a.acknowledged;
      numbered = next ∙ a.numbered;
      whole = rw (off, pending) a.whole;
      offset = rw (off, pending) a.offset;
      many = a.many;
      bytes = rw pending a.bytes;
      slots = slots;
      sent = sent;
    }

-- What is known when more segments may have been cut.
pub record Later (p₀ : Pool) (out : List ℕ) (kept : ℕ → ℕ → ℕ) (r : Receiver) (stream : List ℕ)
    (k j : ℕ) (segs : List (List ℕ)) (s : Session) : Type 0 where
  pub more : List (List ℕ)
  pub sender : Sender p₀ out kept r stream k j (segs ++ more) s

cumulative_ack-word : (m : RecvBitmap) → cumulative_ack m < 2 ^ 32
unfolding cumulative_ack
cumulative_ack-word m = omega arith

-- The packet that `send_chunk` builds.
chunk-IsPacket :
    (segs : List (List ℕ)) (k : ℕ) (s : Session)
    → may_send s ≡ true
    → s.next_seq ≡ u32 (length segs)
    → cumulative_ack s.recv_bitmap ≡ u32 k
    → AllBytes s.pending_tx
    → IsPacket
        (segs ++ (chunk_of s ∷ []))
        k
        (packet s.next_seq (cumulative_ack s.recv_bitmap) (chunk_of s))
chunk-IsPacket segs k s more num telling bytes =
    let (pos, small, _, len) = chunk_len s more in
    record {
      seq = s.next_seq;
      told = k;
      payload = chunk_of s;
      form = ap (λ a. packet s.next_seq a (chunk_of s)) telling;
      seq_word = omega (arith, num);
      delivered = omega arith;
      size = omega (arith, len);
      content = take-AllBytes _ _ (drop-AllBytes s.tx_off s.pending_tx bytes);
      segment = inr (
        length segs,
        omega (arith, length-append segs (chunk_of s ∷ [])),
        num,
        sym (
            ap (λ k. get_or (segs ++ (chunk_of s ∷ [])) k []) {x = length segs}
              {y = length segs + 0} (omega arith)
            ∙ get_or-append_right segs (chunk_of s ∷ []) 0 []),
      );
    }

-- The bytes that `send_chunk` leaves in the buffer.
chunk_bytes :
    (s : Session) (m : ℕ → ℕ)
    → may_send s ≡ true
    → s.next_seq < 2 ^ 32
    → read
        (fill_packet
          (make_data s.next_seq (cumulative_ack s.recv_bitmap) (plen_of s))
          (chunk_of s)
          m)
        0
        (u32 (16 + plen_of s))
      ≡ packet s.next_seq (cumulative_ack s.recv_bitmap) (chunk_of s)
chunk_bytes s m more word =
    let (_, small, _, len) = chunk_len s more in
    let ack = cumulative_ack s.recv_bitmap in
    ap (read (fill_packet (make_data s.next_seq ack (plen_of s)) (chunk_of s) m) 0)
      {x = u32 (16 + plen_of s)} {y = 16 + length (chunk_of s)} (omega (arith, len))
    ∙ ap
        (λ k.
          read (fill_packet (make_data s.next_seq ack k) (chunk_of s) m) 0
            (16 + length (chunk_of s)))
        (sym len)
    ∙ fill_packet-packet s.next_seq ack (chunk_of s) m word (cumulative_ack-word s.recv_bitmap)
        (omega (arith, len))

module _ {p₀ : Pool} (spaced : Spaced 1040 p₀) {out : List ℕ} {kept : ℕ → ℕ → ℕ} {r : Receiver}
    {stream : List ℕ} {k j : ℕ} (clock : Clock) where
  -- The chunk goes to the end of the segments.
  pub send_chunk-Sender :
      {segs : List (List ℕ)} (b : ℕ) (s : Session)
      → may_send s ≡ true
      → (acquire s.pool).0 ≡ some b
      → Sender p₀ out kept r stream k j segs s
      → Sender p₀ out kept r stream k j
          (segs ++ (chunk_of s ∷ []))
          (send_chunk clock b (record s { pool = (acquire s.pool).1 }))
  unfolding send_chunk
  send_chunk-Sender {segs} b s more got a =
      let s' = record s { pool = (acquire s.pool).1 } in
      let segs' = segs ++ (chunk_of s ∷ []) in
      let ack = cumulative_ack s.recv_bitmap in
      let (pos, small, inside, len) = chunk_len s more in
      let h = make_data s.next_seq ack (plen_of s) in
      let at = address s'.pool b in
      let filled : ℕ → ℕ = fill_packet h (chunk_of s) (view s.memory at) in
      let memory : ℕ → ℕ = put s.memory at filled in
      let pool = set_len b (u32 (16 + plen_of s)) s'.pool in
      let owned = acquire-Owned got a.account.owned in
      let sealed : read (view memory at) 0 (u32 (16 + plen_of s))
          ≡ packet s.next_seq ack (chunk_of s) =
        ap (λ m. read m 0 (u32 (16 + plen_of s))) (put_self s.memory at filled)
        ∙ chunk_bytes s (view s.memory at) more (omega (arith, a.numbered)) in
      let p = chunk-IsPacket segs k s more a.numbered a.telling a.bytes in
      let content : content_of (seen p₀ memory) pool b ≡ packet s.next_seq ack (chunk_of s) =
        ap (λ q. read (view memory q) 0 (pool.stack.descriptors b).len)
          (sym (Owned-address b owned))
        ∙ ap (read (view memory at) 0)
            (set_len-len b (u32 (16 + plen_of s)) b s'.pool ∙ rw (==_refl b) refl)
        ∙ sealed in
      let apart : (x : ℕ)
          → weigh (is x) (b ∷ []) + weigh (is x) (of_slots s.unacked) + weigh (is x) out ≤ 1 =
        λ x.
          omega
            (arith, Owned-Once spaced.once owned x, weigh-append (is x) (of_slots s.unacked) out) in
      let other : (x : ℕ)
          → 0 < weigh (is x) (of_slots s.unacked ++ out)
          → (o : ℕ) → o < 1040
          → seen p₀ memory x o ≡ seen p₀ s.memory x o =
        λ x mine.
          put_apart b x s.memory filled spaced owned mine (λ i le.
            fill_packet-outside h (chunk_of s) (view s.memory at) i (omega (arith, len))) in
      let before : Holds segs' k (seen p₀ memory) pool s.unacked =
        Holds-kept {pool = s.pool} s.unacked
          (λ x mine. (
            other x (omega (arith, weigh-append (is x) (of_slots s.unacked) out)),
            set_len-len b (u32 (16 + plen_of s)) x s'.pool
                ∙ rw (ne→== b x (is_out x b (omega (arith, apart x)))) (acquire-len s.pool x),
          ))
          (Holds-more (chunk_of s ∷ []) (omega arith) a.slots) in
      record {
        account = send_chunk-Account clock b s' owned a.account.count;
        intact = λ x mine o lt.
            other x (omega (arith, weigh-append (is x) (of_slots s.unacked) out)) o lt
            ∙ a.intact x mine o lt;
        receiver = a.receiver;
        telling = a.telling;
        una = a.una;
        oldest = a.oldest;
        acknowledged = a.acknowledged;
        numbered = omega (arith, a.numbered, length-append segs (chunk_of s ∷ []));
        whole =
            ap (λ l. l ++ drop (s.tx_off + plen_of s) s.pending_tx) (concat-snoc segs (chunk_of s))
            ∙ append_assoc (concat segs) (chunk_of s) (drop (s.tx_off + plen_of s) s.pending_tx)
            ∙ ap (λ l. concat segs ++ l) (chunk_rest s)
            ∙ a.whole;
        offset = inside;
        many = omega (
          arith,
          a.many,
          ap (length {A = ℕ}) (concat-snoc segs (chunk_of s)),
          length-append (concat segs) (chunk_of s),
          length-append segs (chunk_of s ∷ []),
        );
        bytes = a.bytes;
        slots =
            mark_sent-Holds spaced.once s.next_seq b (clock.rdtsc s.ticks) s.unacked pool out
              a.account.count (set_len-Owned b _ owned) (subst (IsPacket segs' k) (sym content) p)
              before;
        sent =
            AllPackets-snoc segs' k s.wire
              (AllPackets-more segs k (chunk_of s ∷ []) s.wire (omega arith) a.sent)
              (subst (IsPacket segs' k) (sym sealed) p);
      }
