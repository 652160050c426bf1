-- ===== src/Capture.antt =====
-- src/multiqueue_capture.cpp: the program that receives frames from a packet ring into buffers of a
-- pool and puts these on the queues of a distributor, which worker threads drain. `Capture` is what
-- the main thread works on. Its printing of the counts each second is left out.
pub mod Steps
pub mod Places
pub mod Moves
pub mod Conserved
pub mod Round
pub mod Loop
pub mod Frame
pub mod Workers
mod Examples
use fast_break.Base.{
  ℕ, zero, suc, ◌+◌, ◌*◌, ◌^◌, Bool, true, false, ◌||◌, ◌&&◌, ◌==◌, Option, none, some, ltb, leb,
  if◌then◌else◌, u64, sub64,
}
use fast_break.Spsc.{push}
use fast_break.Parser.{ParsedPacket, parse, src_ip, dst_ip, src_port, dst_port}
use fast_break.Pool.{Pool, acquire, release, set_len}
use fast_break.PacketRing.{PacketRing, FrameSlot, RxFrame, Flags, receive}
use fast_break.PacketRing
use fast_break.Rss.{RssDistributor, hash, queue_capacity}
use fast_break.Batch.{set_queue}
use fast_break.Worker.{Stats, record_drop}

pub record Capture : Type 0 where
  pub pool : Pool
  pub ring : PacketRing
  pub slots : ℕ → FrameSlot
  pub rss : RssDistributor
  pub memory : ℕ → ℕ → ℕ
  pub stats : Stats

unfoldable pub queue_for : RssDistributor → ParsedPacket → ℕ
queue_for rss p =
    if p.has_udp
    then hash (src_ip p.ip) (dst_ip p.ip) (src_port p.udp) (dst_port p.udp) rss
    else if p.has_ip
    then hash (src_ip p.ip) (dst_ip p.ip) 0 0 rss
    else 0

-- The bytes of the frame that fit into the buffer.
unfoldable pub fitting : RxFrame → ℕ → ℕ
fitting frame capacity = if ltb frame.captured_len capacity then frame.captured_len else capacity

-- `memcpy` of `n` bytes of the frame to the buffer, and its length.
unfoldable pub copy_frame : RxFrame → ℕ → ℕ → Capture → Capture
copy_frame frame buf n c = record c {
  memory = λ b o. if (b == buf) && ltb o n then frame.bytes o else c.memory b o;
  pool = set_len buf n c.pool;
}

-- The push onto the queue of the packet; a buffer that is refused is counted and released.
unfoldable pub hand_over : ℕ → ℕ → Capture → Capture
hand_over buf q c =
    let (pushed, queue) = push queue_capacity (c.rss.queues q) buf in
    let pushing = record c { rss = set_queue q queue c.rss } in
    if pushed
    then pushing
    else record pushing { stats = record_drop q c.stats; pool = release buf c.pool }

-- What is done with the frame when there is a buffer for it.
unfoldable pub fill_buffer : RxFrame → ℕ → Capture → Capture
fill_buffer frame buf c =
    let n = fitting frame (c.pool.stack.descriptors buf).capacity in
    let c' = copy_frame frame buf n c in
    let parsed = parse (c'.memory buf) (c'.pool.stack.descriptors buf).len in
    hand_over buf (queue_for c'.rss parsed) c'

unfoldable pub take_frame : RxFrame → Capture → Capture
take_frame frame c =
    let (got, pool) = acquire c.pool in
    let c' = record c { pool = pool } in
    elim got [ none ↦ c' | some buf ↦ fill_buffer frame buf c' ]

-- The round of the main loop.
unfoldable pub poll_ring : Flags → Capture → Capture
poll_ring flags c =
    let (got, ring) = receive flags c.slots c.ring in
    let received = record c { ring = ring } in
    elim got [
      | none ↦ received
      | some frame ↦
          (let c' = take_frame frame received in
            let (slots, ring') = PacketRing.release c'.slots c'.ring in
            record c' { slots = slots; ring = ring' })
    ]

-- The main loop, with what the other threads have in `W`. `others i` is what these threads and the
-- kernel do before the round `i`, `g_stop i` and `now i` what is read in it.
unfoldable pub capture_loop :
    {W : Type 0}
    → (ℕ → Capture → W → Capture × W)
    → (ℕ → Bool)
    → (ℕ → ℕ)
    → Flags
    → (start duration : ℕ) → ℕ
    → ℕ
    → Capture
    → W
    → Option (Capture × W)
capture_loop others g_stop now flags start duration i zero c w = none
capture_loop others g_stop now flags start duration i (suc rounds) c w =
    let (c', w') = others i c w in
    let rest =
      capture_loop others g_stop now flags start duration (i + 1) rounds (poll_ring flags c') w' in
    if g_stop i || leb (u64 (duration * 1000000000)) (sub64 (now i) start)
    then some (c', w')
    else rest
