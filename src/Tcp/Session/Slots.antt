-- ===== src/Tcp/Session/Slots.antt =====
-- The packets of a session: those on the network, and those that wait in the slots for an
-- acknowledgement, in memory that the session shares with nobody.
use fast_break.Base.{
  ℕ, zero, suc, ◌+◌, ◌^◌, ◌≤◌, ◌<◌, ◌≡◌, ◌⊎◌, refl, sym, subst, ap, ◌∙◌, inl, inr, true, false,
  none, some, List, [], ◌∷◌, ◌++◌, append-nil, arith, length, length-append, get_or, get_or-append,
  get_or-set_self, get_or-set_ne, set, if◌then◌else◌, Bool-cases, u32, ==_refl, ◌==◌, ==→eq,
  ne_of_false,
}
use fast_break.Base.Sums.{weigh, weigh-append, is}
use fast_break.Pool.{Pool}
use fast_break.Tcp.Crc.Detect.{AllBytes}
use fast_break.Tcp.Memory.{read, read_same, length-read}
use fast_break.Tcp.Unacked.{acked_by, Slot, empty_slot}
use fast_break.Tcp.Unacked.Buffers.{of_ptr, of_slot, of_slots, left_of}
use fast_break.Tcp.Session.Packet.{packet, length-packet}

-- A packet of a session that has cut `segs` from its stream and has delivered `k` of the other
-- side's segments: it carries one of `segs`, under its number, or nothing, and acknowledges no more
-- than has been delivered.
pub record IsPacket (segs : List (List ℕ)) (k : ℕ) (bytes : List ℕ) : Type 0 where
  pub seq : ℕ
  pub told : ℕ
  pub payload : List ℕ
  pub form : bytes ≡ packet seq (u32 told) payload
  pub seq_word : seq < 2 ^ 32
  pub delivered : told ≤ k
  pub size : length payload ≤ 1024
  pub content : AllBytes payload
  pub segment :
      (payload ≡ []) ⊎ ((n : ℕ) × (n < length segs) × (seq ≡ u32 n) × (payload ≡ get_or segs n []))

pub IsPacket-more :
    {segs : List (List ℕ)} {j j' : ℕ} {bytes : List ℕ} (more : List (List ℕ))
    → j ≤ j'
    → IsPacket segs j bytes
    → IsPacket (segs ++ more) j' bytes
IsPacket-more {segs} more le k = record {
  seq = k.seq;
  told = k.told;
  payload = k.payload;
  form = k.form;
  seq_word = k.seq_word;
  delivered = omega (arith, k.delivered);
  size = k.size;
  content = k.content;
  segment = elim k.segment [
    | inl bare ↦ inl bare
    | inr (n, lt, num, there) ↦ inr (
      n,
      omega (arith, length-append segs more),
      num,
      there ∙ sym (get_or-append segs more n [] lt),
    )
  ];
}

pub packet_short :
    {segs : List (List ℕ)} {k : ℕ} {bytes : List ℕ} → IsPacket segs k bytes → length bytes ≤ 1040
packet_short k =
    omega (arith, ap (length {A = ℕ}) k.form, length-packet k.seq (u32 k.told) k.payload, k.size)

abbrev pub AllPackets : List (List ℕ) → ℕ → List (List ℕ) → Type 0
AllPackets segs k [] = Unit
AllPackets segs k (p ∷ ps) = IsPacket segs k p × AllPackets segs k ps

pub AllPackets-more :
    (segs : List (List ℕ)) (j : ℕ) {j' : ℕ} (more wire : List (List ℕ))
    → j ≤ j'
    → AllPackets segs j wire
    → AllPackets (segs ++ more) j' wire
AllPackets-more segs j more [] le a = tt
AllPackets-more segs j more (p ∷ ps) le (k, a) =
    (IsPacket-more more le k, AllPackets-more segs j more ps le a)

pub AllPackets-snoc :
    (segs : List (List ℕ)) (j : ℕ) {p : List ℕ} (wire : List (List ℕ))
    → AllPackets segs j wire
    → IsPacket segs j p
    → AllPackets segs j (wire ++ (p ∷ []))
AllPackets-snoc segs j [] a k = (k, tt)
AllPackets-snoc segs j (q ∷ qs) (h, a) k = (h, AllPackets-snoc segs j qs a k)

pub AllPackets-at :
    (segs : List (List ℕ)) (j : ℕ) (wire : List (List ℕ)) (i : ℕ)
    → AllPackets segs j wire
    → i < length wire
    → IsPacket segs j (get_or wire i [])
AllPackets-at segs j [] i a lt = absurd (omega arith)
AllPackets-at segs j (p ∷ ps) zero (k, a) lt = k
AllPackets-at segs j (p ∷ ps) (suc i) (k, a) lt = AllPackets-at segs j ps i a (omega arith)

-- The buffers' bytes and the lengths that their descriptors give.
abbrev pub content_of : (ℕ → ℕ → ℕ) → Pool → ℕ → List ℕ
content_of memory pool b = read (memory b) 0 (pool.stack.descriptors b).len

-- An occupied slot has a buffer, with a packet in it.
abbrev pub Full : List (List ℕ) → ℕ → (ℕ → ℕ → ℕ) → Pool → Slot → Type 0
Full segs k memory pool s =
    s.occupied ≡ true → (b : ℕ) × (s.buf ≡ some b) × IsPacket segs k (content_of memory pool b)

pub record Holds (segs : List (List ℕ)) (k : ℕ) (memory : ℕ → ℕ → ℕ) (pool : Pool)
    (slots : List Slot) : Type 0 where
  pub full : (i : ℕ) → Full segs k memory pool (get_or slots i empty_slot)

pub Holds-more :
    {segs : List (List ℕ)} {j j' : ℕ} {memory : ℕ → ℕ → ℕ} {pool : Pool} {slots : List Slot}
    (more : List (List ℕ))
    → j ≤ j'
    → Holds segs j memory pool slots
    → Holds (segs ++ more) j' memory pool slots
Holds-more more le h = record {
  full = λ i on. let (b, e, k) = h.full i on in (b, e, IsPacket-more more le k);
}

-- More has been delivered.
pub Holds-later :
    {segs : List (List ℕ)} {j j' : ℕ} {memory : ℕ → ℕ → ℕ} {pool : Pool} {slots : List Slot}
    → j ≤ j'
    → Holds segs j memory pool slots
    → Holds segs j' memory pool slots
Holds-later {segs} {j'} {memory} {pool} {slots} le h =
    subst (λ l. Holds l j' memory pool slots) (append-nil segs) (Holds-more [] le h)

pub AllPackets-later :
    (segs : List (List ℕ)) (j : ℕ) {j' : ℕ} (wire : List (List ℕ))
    → j ≤ j'
    → AllPackets segs j wire
    → AllPackets segs j' wire
AllPackets-later segs j {j'} wire le a =
    subst (λ l. AllPackets l j' wire) (append-nil segs) (AllPackets-more segs j [] wire le a)

slot_weight :
    (w : ℕ → ℕ) (slots : List Slot) (i : ℕ)
    → weigh w (of_slot (get_or slots i empty_slot)) ≤ weigh w (of_slots slots)
slot_weight w [] i = omega arith
slot_weight w (s ∷ slots) zero = omega (arith, weigh-append w (of_slot s) (of_slots slots))
slot_weight w (s ∷ slots) (suc i) =
    omega (arith, slot_weight w slots i, weigh-append w (of_slot s) (of_slots slots))

slot_buffer : (s : Slot) (b : ℕ) → s.occupied ≡ true → s.buf ≡ some b → of_slot s ≡ b ∷ []
slot_buffer s b on e = ap (λ o. if o then of_ptr s.buf else []) on ∙ ap of_ptr e

-- The slots keep their packets, if memory keeps the bytes of their buffers and the pool the
-- lengths.
pub Holds-kept :
    {segs : List (List ℕ)} {k : ℕ} {memory memory' : ℕ → ℕ → ℕ} {pool pool' : Pool}
    (slots : List Slot)
    → ((x : ℕ)
        → 0 < weigh (is x) (of_slots slots)
        → ((o : ℕ) → o < 1040 → memory' x o ≡ memory x o)
          × ((pool'.stack.descriptors x).len ≡ (pool.stack.descriptors x).len))
    → Holds segs k memory pool slots
    → Holds segs k memory' pool' slots
Holds-kept {segs} {k} {memory} {memory'} {pool} slots same h = record {
  full = λ i on.
      let (b, e, q) = h.full i on in
      let own = ap (weigh (is b)) (slot_buffer (get_or slots i empty_slot) b on e) in
      let one : is b b ≡ 1 = rw (==_refl b) refl in
      let (bytes, len) = same b (omega (arith, own, slot_weight (is b) slots i)) in
      (
        b,
        e,
        subst (IsPacket segs k)
            (sym (
              ap (read (memory' b) 0) len
              ∙ read_same (memory' b) (memory b) 0 (pool.stack.descriptors b).len (λ o lt.
                bytes (0 + o) (
                  omega (
                    arith,
                    lt,
                    packet_short q,
                    length-read (memory b) 0 (pool.stack.descriptors b).len,
                  )))))
            q,
      );
}

pub Holds-set :
    {segs : List (List ℕ)} {k : ℕ} {memory : ℕ → ℕ → ℕ} {pool : Pool} (slots : List Slot) (j : ℕ)
    (s : Slot)
    → j < length slots
    → Full segs k memory pool s
    → Holds segs k memory pool slots
    → Holds segs k memory pool (set slots j s)
Holds-set {segs} {k} {memory} {pool} slots j s lt new h = record {
  full = λ i. elim (Bool-cases (j == i)) [
    | inl same ↦
        subst (Full segs k memory pool)
          (sym (get_or-set_self slots j s empty_slot lt)
            ∙ ap (λ k. get_or (set slots j s) k empty_slot) (==→eq j i same))
          new
    | inr other ↦
        subst (Full segs k memory pool)
          (sym (get_or-set_ne slots j i s empty_slot (ne_of_false j i other))) (h.full i)
  ];
}

Full-left :
    (segs : List (List ℕ)) (k : ℕ) (memory : ℕ → ℕ → ℕ) (pool : Pool) (up_to : ℕ) (s : Slot)
    → Full segs k memory pool s
    → Full segs k memory pool (left_of up_to s)
Full-left segs k memory pool up_to s f =
    elim (acked_by up_to s)
      as (λ a.
        Full segs k memory pool (if a then record s { buf = none; occupied = false } else s)) [
          | true ↦ λ on. absurd (cc on)
          | false ↦ f
        ]

pub Holds-left :
    {segs : List (List ℕ)} {k : ℕ} {memory : ℕ → ℕ → ℕ} {pool : Pool} (up_to : ℕ)
    (slots slots' : List Slot)
    → ((i : ℕ) → get_or slots' i empty_slot ≡ left_of up_to (get_or slots i empty_slot))
    → Holds segs k memory pool slots
    → Holds segs k memory pool slots'
Holds-left {segs} {k} {memory} {pool} up_to slots slots' same h = record {
  full = λ i.
      subst (Full segs k memory pool) (sym (same i))
        (Full-left segs k memory pool up_to (get_or slots i empty_slot) (h.full i));
}
