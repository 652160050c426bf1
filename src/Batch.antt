-- ===== src/Batch.antt =====
-- `BatchProcessor` of include/batch_processor.h and src/batch_processor.cpp. A handler is named by a
-- number, its null pointer is `none`, and what is called on it goes to a log. The bytes of a buffer
-- are a function of the offset.
pub mod Dispatch
pub mod Drain
pub mod Queues
pub mod Run
mod Examples
use fast_break.Base.{
  ℕ, zero, suc, ◌+◌, ◌-◌, ◌%◌, ◌^◌, Bool, true, false, ◌||◌, Option, none, some, List, [], ◌∷◌,
  ◌++◌, map, ◌==◌, if◌then◌else◌, u64, length,
}
use fast_break.Spsc.{Ring, pop}
use fast_break.Pool.{Pool, release}
use fast_break.Parser.{ParsedPacket, parse, dst_port}
use fast_break.Rss.{RssDistributor, queue_capacity}

abbrev pub batch_size : ℕ
batch_size = 32

-- A call of a handler: the second is its `flush`.
pub data Call : Type 0 where
  handle : (handler : ℕ) (pkt : ParsedPacket) (buf : ℕ) → Call
  flush : (handler : ℕ) → Call

pub record BatchProcessor : Type 0 where
  pub pool : Pool
  pub rss : RssDistributor
  pub memory : ℕ → ℕ → ℕ
  pub queue_index : ℕ
  pub udp_handlers : ℕ → Option ℕ
  pub default_handler : Option ℕ
  pub batches_processed : ℕ
  pub packets_processed : ℕ
  pub packets_dispatched : ℕ
  pub calls : List Call

-- The packets of a batch with their buffers.
abbrev pub Batch : Type 0
Batch = List (ℕ × ParsedPacket)

-- The lambda `mark`: `touched` in the order in which it was filled.
unfoldable pub mark : ℕ → List ℕ → List ℕ
mark h [] = h ∷ []
mark h (t ∷ touched) = let rest = mark h touched in if t == h then t ∷ touched else t ∷ rest

-- The handler of a packet.
unfoldable pub handler_for : ParsedPacket → BatchProcessor → Option ℕ
handler_for pkt p =
    let found = if pkt.has_udp then p.udp_handlers (dst_port pkt.udp) else none in
    elim found [ none ↦ p.default_handler | some h ↦ some h ]

-- One round of the loop over the packets.
unfoldable pub dispatch_one : ℕ → ParsedPacket → BatchProcessor × List ℕ → BatchProcessor × List ℕ
dispatch_one buf pkt (p, touched) = elim (handler_for pkt p) [
  | none ↦ (p, touched)
  | some h ↦ (
    record p {
      packets_dispatched = u64 (p.packets_dispatched + 1);
      calls = p.calls ++ (handle h pkt buf ∷ []);
    },
    mark h touched,
  )
]

unfoldable pub dispatch_loop : Batch → BatchProcessor × List ℕ → BatchProcessor × List ℕ
dispatch_loop [] s = s
dispatch_loop ((buf, pkt) ∷ batch) s = dispatch_loop batch (dispatch_one buf pkt s)

unfoldable pub dispatch_batch : Batch → BatchProcessor → BatchProcessor
dispatch_batch batch p =
    let (q, touched) = dispatch_loop batch (p, []) in
    record q { calls = q.calls ++ map flush touched }

-- The loop that fills the batch, with room for `left` more.
unfoldable pub drain : ℕ → Ring ℕ → List ℕ × Ring ℕ
drain zero r = ([], r)
drain (suc left) r = elim ((pop queue_capacity r).0) [
  | none ↦ ([], (pop queue_capacity r).1)
  | some buf ↦ (let (bufs, r') = drain left (pop queue_capacity r).1 in (buf ∷ bufs, r'))
]

-- `PacketParser::parse(buf->data, buf->len)` of each buffer.
unfoldable pub parse_all : List ℕ → BatchProcessor → Batch
parse_all bufs p = map (λ buf. (buf, parse (p.memory buf) (p.pool.stack.descriptors buf).len)) bufs

unfoldable pub release_batch : List ℕ → Pool → Pool
release_batch [] pool = pool
release_batch (buf ∷ bufs) pool = release_batch bufs (release buf pool)

unfoldable pub set_queue : ℕ → Ring ℕ → RssDistributor → RssDistributor
set_queue k queue rss = record rss { queues = λ i. if i == k then queue else rss.queues i }

unfoldable pub run_once : BatchProcessor → BatchProcessor
run_once p =
    let (bufs, queue) = drain batch_size (p.rss.queues p.queue_index) in
    let q = record p { rss = set_queue p.queue_index queue p.rss } in
    if length bufs == 0
    then q
    else (let t = dispatch_batch (parse_all bufs q) q in
        record t {
          pool = release_batch bufs t.pool;
          batches_processed = u64 (t.batches_processed + 1);
          packets_processed = u64 (t.packets_processed + length bufs);
        })

unfoldable pub register_udp_handler : ℕ → Option ℕ → BatchProcessor → BatchProcessor
register_udp_handler port handler p = record p {
  udp_handlers = λ i. if i == port then handler else p.udp_handlers i;
}

unfoldable pub set_default_handler : Option ℕ → BatchProcessor → BatchProcessor
set_default_handler handler p = record p { default_handler = handler }

-- The constructor.
unfoldable pub new_processor : Pool → RssDistributor → (ℕ → ℕ → ℕ) → ℕ → BatchProcessor
new_processor pool rss memory queue_index = record {
  pool = pool;
  rss = rss;
  memory = memory;
  queue_index = queue_index;
  udp_handlers = λ _. none;
  default_handler = none;
  batches_processed = 0;
  packets_processed = 0;
  packets_dispatched = 0;
  calls = [];
}
