-- ===== src/Tcp/Network/Joined.antt =====
-- Both sides of a network after any moves: each has cut segments from its stream, and delivered the
-- first of the other side's.
use fast_break.Base.{
  ℕ, ◌+◌, ◌^◌, ◌≤◌, ◌<◌, ◌≡◌, refl, inl, inr, ltb, Bool-cases, ap, some, List, [], ◌++◌, arith,
  length, length-append, get_or-replicate, u32, drop,
}
use fast_break.Pool.FreeStack.{Descriptor, empty_index}
use fast_break.Pool.{Pool, create}
use fast_break.Pool.Counted.{Reach-once}
use fast_break.Pool.Owned.{Spaced, address}
use fast_break.Pool.Create.{create-apart}
use fast_break.Tcp.Session.{Clock, Session, open_session}
use fast_break.Tcp.Session.Arrivals.{open_session-Receiving}
use fast_break.Tcp.Session.Chunk.{concat}
use fast_break.Tcp.Session.Sender.{Sender, Receiver}
use fast_break.Tcp.Session.Slots.{AllPackets, AllPackets-at}
use fast_break.Tcp.Bitmap.{cumulative_ack, count_run, fresh}
use fast_break.Tcp.Unacked.{empty_slot}
use fast_break.Tcp.Endpoint.Buffers.{open_session-Account}
use fast_break.Tcp.Endpoint.Peer.{nth, End, End-more}
use fast_break.Tcp.Endpoint.Peer.Arrive.{
  EndLater, send-End, tick-End, deliver-End, deliver-Garbled-End,
}
use fast_break.Tcp.Network.{
  Network, joined, Act, sends, ticks, arrives, garbles, Move, lefts, rights, Moves, started, moved,
}

module _ {p₀ : Pool} {out : List ℕ} {kept : ℕ → ℕ → ℕ} {r : Receiver} {stream : List ℕ} {j told : ℕ}
    {segs : List (List ℕ)} {s : Session} where
  pub segments_few : Sender p₀ out kept r stream told j segs s → length segs ≤ length stream
  segments_few a = omega (
    arith,
    a.many,
    ap (length {A = ℕ}) a.whole,
    length-append (concat segs) (drop s.tx_off s.pending_tx),
  )

fresh-acknowledges : cumulative_ack fresh ≡ u32 0
unfolding cumulative_ack count_run
fresh-acknowledges = refl

open_session-End : (p : Pool) (memory : ℕ → ℕ) → End p [] [] [] 0 0 (open_session p memory)
unfolding open_session
open_session-End p memory = record {
  sending = record {
    account = unfold open_session in open_session-Account p memory;
    intact = λ x mine. absurd (omega arith);
    receiver = refl;
    telling = fresh-acknowledges;
    una = 0;
    oldest = refl;
    acknowledged = omega arith;
    numbered = refl;
    whole = unfold concat in refl;
    offset = omega arith;
    many = omega arith;
    bytes = tt;
    slots = record { full = λ i on. absurd (cc (get_or-replicate 256 i empty_slot)) };
    sent = tt;
  };
  receiving = unfold open_session in open_session-Receiving (nth []) 0 (omega arith) p memory;
}

module _ {p₀ : Pool} (spaced : Spaced 1040 p₀) (clock : Clock) {segs peer wire : List (List ℕ)}
    {k j : ℕ} where
  Act-End :
      {s t : Session} {given given' : List ℕ}
      → length peer ≤ 2 ^ 31
      → AllPackets peer j wire
      → Act clock wire s given t given'
      → End p₀ given segs peer k j s
      → EndLater p₀ given' segs peer k j t
  Act-End {s} small all (sends bytes good) e = send-End spaced clock bytes s good e
  Act-End {s} small all ticks e = tick-End spaced clock s e
  Act-End {s} small all (arrives i lt) e =
      deliver-End spaced clock _ s small (AllPackets-at peer _ wire i all lt) e
  Act-End {s} small all (garbles bytes bad short) e =
      deliver-Garbled-End spaced clock bytes s bad short e

given_grows :
    {clock : Clock} {wire : List (List ℕ)} {s t : Session} {given given' : List ℕ}
    → Act clock wire s given t given'
    → length given ≤ length given'
given_grows {given} (sends bytes good) = omega (arith, length-append given bytes)
given_grows ticks = omega arith
given_grows (arrives i lt) = omega arith
given_grows (garbles bytes bad short) = omega arith

-- Both sides of a network.
pub record Joined (p q : Pool) (n : Network) : Type 0 where
  pub left_segs : List (List ℕ)
  pub right_segs : List (List ℕ)
  pub left_at : ℕ
  pub right_at : ℕ
  pub left : End p n.left_given left_segs right_segs left_at right_at n.left
  pub right : End q n.right_given right_segs left_segs right_at left_at n.right

abbrev Short : Network → Type 0
Short n = (length n.left_given ≤ 2 ^ 31) × (length n.right_given ≤ 2 ^ 31)

module _ {p q : Pool} (p_spaced : Spaced 1040 p) (q_spaced : Spaced 1040 q) (c d : Clock) where
  Move-Joined : {n m : Network} → Move c d n m → Short n → Joined p q n → Joined p q m
  Move-Joined (lefts act) (_, few) j =
      let l =
        Act-End p_spaced c (omega (arith, segments_few j.right.sending)) j.right.sending.sent act
          j.left in
      record {
        left_segs = j.left_segs ++ l.more;
        right_segs = j.right_segs;
        left_at = l.reached;
        right_at = j.right_at;
        left = l.end;
        right = End-more l.more l.further j.right;
      }
  Move-Joined (rights act) (few, _) j =
      let l =
        Act-End q_spaced d (omega (arith, segments_few j.left.sending)) j.left.sending.sent act
          j.right in
      record {
        left_segs = j.left_segs;
        right_segs = j.right_segs ++ l.more;
        left_at = j.left_at;
        right_at = l.reached;
        left = End-more l.more l.further j.left;
        right = l.end;
      }

  Move-Short : {n m : Network} → Move c d n m → Short m → Short n
  Move-Short (lefts act) (a, b) = (omega (arith, given_grows act), b)
  Move-Short (rights act) (a, b) = (a, omega (arith, given_grows act))

  Moves-Joined : {n m : Network} → Moves c d n m → Short m → Joined p q n → Joined p q m
  Moves-Joined started short j = j
  Moves-Joined (moved before move) short j =
      let was = Move-Short move short in Move-Joined move was (Moves-Joined before was j)

module _ (backing size n : ℕ) (at : ℕ → Descriptor) {p : Pool} (marked : n ≤ empty_index)
    (room : 1040 ≤ size) (small : size < 2 ^ 32) (made : create backing at size n ≡ some p) where
  apart_in : (x y : ℕ) → x < y → y < n → address p x + 1040 ≤ address p y
  apart_in x y below lt =
      let gap = create-apart backing at size n marked x y small made below lt in omega (arith, gap)

  -- A new pool whose buffers have room for a packet.
  create-Spaced : Spaced 1040 p
  create-Spaced = record {
    once = λ s reach x. ((Reach-once backing size n at marked made reach).0 x).0;
    apart = λ s reach x y hx hy ne.
        let counts = (Reach-once backing size n at marked made reach).0 in
        elim (Bool-cases (ltb x y)) [
          | inl below ↦ inl (apart_in x y (ground arith) ((counts y).1 hy))
          | inr above ↦ inr (apart_in y x (ground arith) ((counts x).1 hx))
        ];
  }

-- A network of two sessions over new pools.
pub network-Joined :
    (c d : Clock) (backing backing' size size' n n' : ℕ) (at at' : ℕ → Descriptor) {p q : Pool}
    (memory memory' : ℕ → ℕ) {m : Network}
    → n ≤ empty_index
    → n' ≤ empty_index
    → 1040 ≤ size
    → 1040 ≤ size'
    → size < 2 ^ 32
    → size' < 2 ^ 32
    → create backing at size n ≡ some p
    → create backing' at' size' n' ≡ some q
    → Moves c d (joined (open_session p memory) (open_session q memory')) m
    → length m.left_given ≤ 2 ^ 31
    → length m.right_given ≤ 2 ^ 31
    → Joined p q m
network-Joined c d backing backing' size size' n n' at at' {p} {q} memory memory' few few' room
      room' small small' made made' moves short short' =
    let p_spaced = create-Spaced backing size n at few room small made in
    let q_spaced = create-Spaced backing' size' n' at' few' room' small' made' in
    Moves-Joined p_spaced q_spaced c d moves (short, short')
      (record {
        left_segs = [];
        right_segs = [];
        left_at = 0;
        right_at = 0;
        left = open_session-End p memory;
        right = open_session-End q memory';
      })
