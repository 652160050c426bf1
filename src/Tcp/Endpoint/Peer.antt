-- ===== src/Tcp/Endpoint/Peer.antt =====
-- A session whose network brings it the packets of another session.
pub mod Arrive
use fast_break.Base.{
  ℕ, zero, suc, ◌+◌, ◌^◌, ◌≤◌, ◌<◌, ◌≡◌, refl, sym, subst, ap, ap₂, ◌∙◌, inl, inr, Bool, true,
  false, none, some, List, [], ◌∷◌, ◌++◌, arith, length, length-append, get_or, get_or-append,
  if◌then◌else◌, Bool-cases, Option-cases, ◌==◌, ==_refl, u32,
}
use fast_break.Base.Sums.{weigh, is}
use fast_break.Pool.{Pool, acquire, release}
use fast_break.Pool.Owned.{Once, acquire-none-Owned}
use fast_break.Tcp.Bitmap.{RecvBitmap}
use fast_break.Tcp.Crc.Detect.{AllBytes}
use fast_break.Tcp.Header.{Header, header_at, verify_checksum}
use fast_break.Tcp.Memory.{read, write}
use fast_break.Tcp.Session.{Clock, Session, send, tick, on_ack, on_data, on_packet_received}
use fast_break.Tcp.Session.Arrivals.{on_data-acknowledges}
use fast_break.Tcp.Session.Kept.{acquire-Holds}
use fast_break.Tcp.Session.Packet.{packet, packet_read, write_start, length-packet}
use fast_break.Tcp.Session.Receive.{first, Receiving, on_data-Receiving}
use fast_break.Tcp.Session.Sender.{Receiver, receiver_of, Sender, Later}
use fast_break.Tcp.Session.Sender.Arrival.{on_data-Sender, release-Sender, fill-Sender}
use fast_break.Tcp.Session.Sender.Calls.{send-Later, tick-Later, on_ack-Later}
use fast_break.Tcp.Session.Sender.Pump.{Later-refl, acquire-none-Sender}
use fast_break.Tcp.Session.Slots.{IsPacket}
use fast_break.Tcp.Endpoint.{fill, deliver}

-- Bytes that fail the checksum in every buffer.
abbrev pub Garbled : List ℕ → Type 0
Garbled bytes =
    (m : ℕ → ℕ)
    → let got = write m 0 bytes in
      verify_checksum (header_at got) (read got 16 (header_at got).payload_len) ≡ false

-- Segment `n` of the other side.
abbrev pub nth : List (List ℕ) → ℕ → List ℕ
nth segs n = get_or segs n []

-- The session has cut `segs` from `stream`, and has delivered the first `k` of the other side's
-- segments. The other side has delivered `j` of `segs`.
pub record End (p₀ : Pool) (stream : List ℕ) (segs peer : List (List ℕ)) (k j : ℕ) (s : Session)
    : Type 0 where
  pub sending : Sender p₀ [] (λ x y. 0) (receiver_of s) stream k j segs s
  pub receiving : Receiving (nth peer) (length peer) k s

first_ext : (f g : ℕ → List ℕ) (k : ℕ) → ((i : ℕ) → i < k → g i ≡ f i) → first g k ≡ first f k
unfolding first
first_ext f g zero h = refl
first_ext f g (suc k) h =
    ap₂ (λ l v. l ++ (v ∷ [])) (first_ext f g k (λ i lt. h i (omega arith))) (h k (omega arith))

Receiving-more :
    (peer more : List (List ℕ)) {k : ℕ} {s : Session}
    → Receiving (nth peer) (length peer) k s
    → Receiving (nth (peer ++ more)) (length (peer ++ more)) k s
Receiving-more peer more {k} r = record {
  callback = r.callback;
  most = omega (arith, r.most, length-append peer more);
  base = r.base;
  log =
      r.log
      ∙ sym (
          first_ext (nth peer) (nth (peer ++ more)) k
            (λ i lt. get_or-append peer more i [] (omega (arith, r.most))));
  held = λ i lt on.
      let (below, same) = r.held i lt on in
      (omega (arith, length-append peer more), same ∙ sym (get_or-append peer more _ [] below));
}

Receiving-same :
    {f : ℕ → List ℕ} {top k : ℕ} (s t : Session)
    → receiver_of t ≡ receiver_of s
    → Receiving f top k s
    → Receiving f top k t
Receiving-same s t e r =
    let has_cb = ap (λ (h : Receiver). h.0) e in
    let bitmap = ap (λ (h : Receiver). h.1) e in
    let reasm = ap (λ (h : Receiver). h.2) e in
    let delivered = ap (λ (h : Receiver). h.3) e in
    record {
      callback = rw has_cb r.callback;
      most = r.most;
      base = rw bitmap r.base;
      log = rw delivered r.log;
      held = λ i lt on. rw reasm (r.held i lt (rw bitmap at on));
    }

-- The other side has delivered more.
acknowledged_more :
    {p₀ : Pool} {out : List ℕ} {kept : ℕ → ℕ → ℕ} {r : Receiver} {stream : List ℕ}
    {segs : List (List ℕ)} {k j j' : ℕ} {s : Session}
    → j ≤ j'
    → Sender p₀ out kept r stream k j segs s
    → Sender p₀ out kept r stream k j' segs s
acknowledged_more le a = record {
  account = a.account;
  intact = a.intact;
  receiver = a.receiver;
  telling = a.telling;
  una = a.una;
  oldest = a.oldest;
  acknowledged = omega (arith, a.acknowledged);
  numbered = a.numbered;
  whole = a.whole;
  offset = a.offset;
  many = a.many;
  bytes = a.bytes;
  slots = a.slots;
  sent = a.sent;
}

pub End-more :
    {p₀ : Pool} {stream : List ℕ} {segs peer : List (List ℕ)} {k j j' : ℕ} {s : Session}
    (more : List (List ℕ))
    → j ≤ j'
    → End p₀ stream segs peer k j s
    → End p₀ stream segs (peer ++ more) k j' s
End-more {peer} more le e = record {
  sending = acknowledged_more le e.sending;
  receiving = Receiving-more peer more e.receiving;
}

-- A packet of the other side's, in a buffer.
packet_at :
    {peer : List (List ℕ)} {j : ℕ} {bytes : List ℕ} (m m' : ℕ → ℕ)
    → ((o : ℕ) → o < 1040 → m o ≡ write m' 0 bytes o)
    → (k : IsPacket peer j bytes)
    → ((header_at m).seq_num ≡ k.seq)
      × ((header_at m).ack_num ≡ u32 k.told)
      × ((header_at m).payload_len ≡ length k.payload)
      × (read m 16 (length k.payload) ≡ k.payload)
      × (verify_checksum (header_at m) (read m 16 (header_at m).payload_len) ≡ true)
packet_at m m' e k =
    let p = packet k.seq (u32 k.told) k.payload in
    let same : (i : ℕ) → i < 16 + length k.payload → m i ≡ get_or p i 0 = λ i lt.
      e i (omega (arith, k.size))
      ∙ ap (λ l. write m' 0 l i) k.form
      ∙ write_start m' p i (omega (arith, length-packet k.seq (u32 k.told) k.payload)) in
    let (seq, ack, len, payload, ok) =
      packet_read k.seq (u32 k.told) k.payload m same k.seq_word (omega arith) k.size k.content in
    (seq, ack, len, payload, ap (λ n. verify_checksum (header_at m) (read m 16 n)) len ∙ ok)
