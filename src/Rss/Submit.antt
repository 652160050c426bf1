-- ===== src/Rss/Submit.antt =====
-- The queue that `submit` uses, and what is on the queues after a run of packets.
use fast_break.Base.{
  ℕ, ◌-◌, ◌^◌, ◌≤◌, ◌<◌, ◌≡◌, ◌≢◌, inl, inr, refl, sym, ap, ◌∙◌, Bool, true, false, List, ◌∷◌, [],
  ◌++◌, arith, ◌==◌, ==_refl, ne→==, ==→eq, length, Bool-cases, if◌then◌else◌, ◌&&◌, ltb, ap₂,
  sub64, ◌%◌,
}
use fast_break.Base.PowerOfTwo.{IsPowerOfTwo, mask_lem, size_pos}
use fast_break.Spsc.Queue
use fast_break.Spsc.Window.{contents, IsValid, length-window}
use fast_break.Spsc.Refine.{push_refines, push-IsValid, fresh-IsValid}
use fast_break.Parser.{ParsedPacket, src_ip, dst_ip, src_port, dst_port}
use fast_break.Rss.{RssDistributor, create, toeplitz, hash, index_for, submit, queue_capacity}

-- What the constructor gives and `submit` keeps.
pub record IsDistributor (d : RssDistributor) : Type 0 where
  pub power : IsPowerOfTwo d.queue_count
  pub masked : d.mask ≡ d.queue_count - 1
  pub rings : (i : ℕ) → IsValid queue_capacity (d.queues i)

pub capacity_power : IsPowerOfTwo queue_capacity
capacity_power = record { nonzero = omega arith; one_bit = refl; fits = omega arith }

pub create-IsDistributor :
    (memory : ℕ → ℕ) (n : ℕ) → IsPowerOfTwo n → n ≤ 2 ^ 32 → IsDistributor (create memory n)
unfolding create
create-IsDistributor memory n power small = record {
  power = power;
  masked = omega arith;
  rings = λ _. fresh-IsValid capacity_power memory;
}

hash-lt : (a b c e : ℕ) (d : RssDistributor) → IsDistributor d → hash a b c e d < d.queue_count
unfolding hash
hash-lt a b c e d v =
    rw (v.masked, mask_lem v.power (toeplitz a b c e)) (omega (arith, size_pos v.power))

pub index_for-lt :
    (pkt : ParsedPacket) (d : RssDistributor) → IsDistributor d → index_for pkt d < d.queue_count
unfolding index_for
index_for-lt pkt d v = elim (Bool-cases pkt.has_udp) [
  | inl udp ↦ rw udp (hash-lt _ _ _ _ d v)
  | inr other ↦ elim (Bool-cases pkt.has_ip) [
    | inl ip ↦ rw (other, ip) (hash-lt _ _ _ _ d v)
    | inr none ↦ rw (other, none) (size_pos v.power)
  ]
]

-- From a valid distributor, `submit` uses a queue that exists. On that queue it does what a
-- queue bounded by 8192 does; the other queues stay as they are, every packet keeps its queue,
-- and the distributor stays valid.
pub submit_lem :
    (buf : ℕ) (pkt : ParsedPacket) (d : RssDistributor)
    → IsDistributor d
    → let (pushed, d') = submit buf pkt d in
      let i = index_for pkt d in
      (i < d.queue_count)
      × ((pushed, contents queue_capacity (d'.queues i))
          ≡ Queue.push queue_capacity (contents queue_capacity (d.queues i)) buf)
      × ((j : ℕ) → j ≢ i → d'.queues j ≡ d.queues j)
      × ((other : ParsedPacket) → index_for other d' ≡ index_for other d)
      × IsDistributor d'
unfolding submit
submit_lem buf pkt d v =
    let i = index_for pkt d in
    (
      index_for-lt pkt d v,
      rw (==_refl i) (push_refines capacity_power (d.queues i) (v.rings i) buf),
      λ j ne. rw (ne→== j i ne) refl,
      λ other. unfold index_for hash in refl,
      record {
        power = v.power;
        masked = v.masked;
        rings = λ j. elim (Bool-cases (j == i)) [
          | inl same ↦ rw same (push-IsValid capacity_power (d.queues i) (v.rings i) buf)
          | inr apart ↦ rw apart (v.rings j)
        ];
      },
    )

-- A run of submits.
unfoldable pub submit_all : List (ℕ × ParsedPacket) → RssDistributor → RssDistributor
submit_all [] d = d
submit_all ((buf, pkt) ∷ items) d = submit_all items (submit buf pkt d).1

-- The queue of a packet's flow among `n` queues: the hash of the addresses and, for UDP, the ports,
-- modulo `n`; the first queue for what is not IP.
abbrev pub flow_queue : ℕ → ParsedPacket → ℕ
flow_queue n pkt =
    if pkt.has_udp
    then toeplitz (src_ip pkt.ip) (dst_ip pkt.ip) (src_port pkt.udp) (dst_port pkt.udp) % n
    else if pkt.has_ip
    then toeplitz (src_ip pkt.ip) (dst_ip pkt.ip) 0 0 % n
    else 0

-- A queue that holds `held` takes the buffer, if it is for it and it has room.
abbrev pub taken_by : ℕ → ℕ → List ℕ → ℕ × ParsedPacket → List ℕ
taken_by j n held (buf, pkt) =
    if (flow_queue n pkt == j) && ltb (length held) queue_capacity then held ++ (buf ∷ []) else held

-- What the queue `j` of `n` holds after the run.
abbrev pub queue_after : ℕ → ℕ → List (ℕ × ParsedPacket) → List ℕ → List ℕ
queue_after j n [] held = held
queue_after j n (item ∷ items) held = queue_after j n items (taken_by j n held item)

index_for-flow_queue :
    (pkt : ParsedPacket) (d : RssDistributor)
    → IsDistributor d
    → index_for pkt d ≡ flow_queue d.queue_count pkt
unfolding index_for hash
index_for-flow_queue pkt d v = elim (Bool-cases pkt.has_udp) [
  | inl udp ↦ rw (udp, v.masked) (mask_lem v.power _)
  | inr other ↦ elim (Bool-cases pkt.has_ip) [
    | inl ip ↦ rw (other, ip, v.masked) (mask_lem v.power _)
    | inr none ↦ rw (other, none) refl
  ]
]

pushed_here :
    (b : Bool) (before after : List ℕ) (x : ℕ)
    → (b, after) ≡ Queue.push queue_capacity before x
    → length before ≤ queue_capacity
    → after ≡ (if ltb (length before) queue_capacity then before ++ (x ∷ []) else before)
unfolding Queue.push
pushed_here b before after x e small = elim (Bool-cases (length before == queue_capacity)) [
  | inl full ↦
      let h : (b, after) ≡ (false, before) = rw full at e in
      let no_room : ltb (length before) queue_capacity ≡ false = ground arith in
      rw no_room (ap (λ (p : Bool × List ℕ). p.1) h)
  | inr room ↦
      let h : (b, after) ≡ (true, before ++ (x ∷ [])) = rw room at e in
      let has_room : ltb (length before) queue_capacity ≡ true = ground arith in
      rw has_room (ap (λ (p : Bool × List ℕ). p.1) h)
]

submit_one :
    (j buf : ℕ) (pkt : ParsedPacket) (d : RssDistributor)
    → IsDistributor d
    → contents queue_capacity ((submit buf pkt d).1.queues j)
      ≡ taken_by j d.queue_count (contents queue_capacity (d.queues j)) (buf, pkt)
submit_one j buf pkt d v =
    let i = index_for pkt d in
    let (_, here, elsewhere, _, _) = submit_lem buf pkt d v in
    let chosen = index_for-flow_queue pkt d v in
    elim (Bool-cases (i == j)) [
      | inl same ↦
          let e : i ≡ j = ==→eq i j same in
          let f : (flow_queue d.queue_count pkt == j) ≡ true =
            ap (λ q. q == j) (sym chosen) ∙ same in
          rw (f, ← e)
            (pushed_here (submit buf pkt d).0 (contents queue_capacity (d.queues i)) _ buf here (
              omega (
                arith,
                length-window queue_capacity (d.queues i).slots (d.queues i).head
                    (sub64 (d.queues i).tail (d.queues i).head),
                (v.rings i).within,
              )))
      | inr apart ↦
          let f : (flow_queue d.queue_count pkt == j) ≡ false =
            ap (λ q. q == j) (sym chosen) ∙ apart in
          rw f (ap (contents queue_capacity) (elsewhere j (ground arith)))
    ]

submit-queue_count :
    (buf : ℕ) (pkt : ParsedPacket) (d : RssDistributor)
    → (submit buf pkt d).1.queue_count ≡ d.queue_count
unfolding submit
submit-queue_count buf pkt d = refl

-- From a valid distributor, after any run of `submit`, each queue holds what it held and then,
-- in order, the buffers whose flow is its own and that came when it held fewer than 8192. A
-- flow's queue is the Toeplitz hash of its addresses and, for UDP, its ports, modulo the number
-- of queues; what is not IP goes to the queue 0.
pub submit_all_lem :
    (j : ℕ) (items : List (ℕ × ParsedPacket)) (d : RssDistributor)
    → IsDistributor d
    → contents queue_capacity ((submit_all items d).queues j)
      ≡ queue_after j d.queue_count items (contents queue_capacity (d.queues j))
unfolding submit_all
submit_all_lem j [] d v = refl
submit_all_lem j ((buf, pkt) ∷ items) d v =
    let d' = (submit buf pkt d).1 in
    let (_, _, _, _, v') = submit_lem buf pkt d v in
    submit_all_lem j items d' v'
    ∙ ap₂ (λ n held. queue_after j n items held) (submit-queue_count buf pkt d)
        (submit_one j buf pkt d v)
