-- ===== src/Lib.antt =====
-- FastBreak: packet capture and a reliable datagram protocol in user space.
--
-- A frame is received into a buffer of a pool, parsed, put on the queue that the hash of its flow
-- selects, and drained by the thread of that queue, which gives the buffer back. On top stands a
-- protocol that sends numbered segments with a checksum, retransmits on a timeout, and delivers in
-- order. The files model these parts:
--
-- Base: tests, lists, words of C++ widths, bit operations, powers of two.
-- Spsc: `SPSCRing` of include/spsc_ring.h. `push`, `pop`, `empty`, `size` as whole calls in
--   Spsc.antt; their accesses to memory, interleaved, in Spsc/Steps.antt. Spsc/Queue.antt is the
--   bounded queue that the ring is compared with.
-- Pool: `BufferPool` of include/buffer_pool.h and src/buffer_pool.cpp in Pool.antt, and the
--   `FreeStack` below it in Pool/FreeStack.antt. Pool/Users.antt has the pool's users,
--   Pool/Owned.antt what one of them holds, and Pool/Threads.antt the free stack's accesses to memory by several threads, interleaved.
-- Parser: the views and `PacketParser::parse` of include/packet_parser.h.
-- Rss: `RSSDistributor` of include/rss_distributor.h and src/rss_distributor.cpp. It keeps one
--   ring of Spsc for each queue, and reads the views of Parser.
-- Tcp: include/tcp_lite.h and src/tcp_lite.cpp. Tcp/Crc.antt and Tcp/Header.antt are the checksum
--   and `TcpLiteHeader`, Tcp/Bitmap.antt is `RecvBitmap`, Tcp/Unacked.antt is `UnackedQueue`,
--   Tcp/Session.antt is `TcpLiteSession` over a pool of Pool and a memory by address:
--   a buffer is the bytes from its `data_at` on, and a write runs on behind a buffer that is too small.
--   Tcp/Endpoint.antt is a session with the program around it, as tests/test_tcp_lite.cpp drives it,
--   and Tcp/Network.antt two of them with the network between them, step by step. What is known of a
--   session at each step is in Tcp/Session/Buffers.antt (its buffers), Tcp/Session/Region.antt
--   (their bytes in memory), Tcp/Session/Slots.antt (its
--   packets), Tcp/Session/Sender.antt (the stream that it sends),
--   Tcp/Session/Retained.antt (what waits for an acknowledgement) and Tcp/Session/Receive.antt (the one
--   that it delivers); Tcp/Endpoint/Peer.antt and Tcp/Network/Joined.antt put these together.
-- Batch: `BatchProcessor` of include/batch_processor.h and src/batch_processor.cpp, over a pool, a
--   distributor and the parser. What is called on a handler goes to a log.
-- Latency: `LatencyHistogram` of include/perf_counters.h and src/perf_counters.cpp, with the rows
--   that `print` draws in Latency/Rows.antt.
-- Counters: `PerfCounter` and `PerfScope` of the same files. What they ask of the kernel is a log.
-- Huge: `HugePageAllocator` of include/huge_alloc.h and src/huge_alloc.cpp. The registry is an
--   association list, and the kernel's answers to `mmap` and `munmap` are parameters.
-- PacketRing: `PacketRing` of include/packet_ring.h and src/packet_ring.cpp: the constructor over the
--   kernel's answers in PacketRing/Open.antt, and the slots between the kernel and one reader, step
--   by step, in PacketRing/Share.antt and PacketRing/Order.antt.
-- Worker: `WorkerPool` of include/worker_pool.h and src/worker_pool.cpp: the loop of one thread over
--   a ring of Spsc, a pool and the parser, `record_drop`, and the sums of `print_stats`.
-- Capture: the main loop of src/multiqueue_capture.cpp over all of these. Capture/Steps.antt has the
--   main thread and the workers interleaved, a call of the pool or of a queue at a time;
--   Capture/Round.antt, Capture/Loop.antt and Capture/Workers.antt say how the two loops are runs of
--   these steps.
-- Monitor: the main loop of src/capture.cpp, over the packet ring and the parser. Monitor/Tally.antt
--   counts what the kernel's slots hold from round to round, for comparison.
--
-- Numbers are the native naturals, with the wrap-around of each C++ width written out. A pointer to
-- a buffer is the index of its descriptor. Callbacks append to logs.
--
-- Loops run on fuel where the source gives no structure to recur on: the loops of `pump_tx` and
-- `deliver_in_order` on 256 rounds, the size of the window (each round of the first takes up one
-- place of it, each round of the second clears one bit of it); the sum of the IPv4 checksum on 30
-- rounds, since a header has at most 60 bytes; the folding of its carries on 2, since a sum of 32
-- bits is below 2 ^ 16 after two rounds. The loops of a worker and of the capture run until a flag
-- is set or the time is over; their fuel is an argument, and 1000 rounds after the flag is set, or
-- the round in which the time is over, are enough.
--
-- Not modelled: threads' creation and affinity, NUMA policy, printing, the
-- tools and the benchmarks, which are calls of the system. What the kernel answers, the clock of the
-- processor, its conversions, and what fresh memory holds are parameters. Memory orders weaker than
-- an interleaving are not modelled. The users of a pool make whole calls of it; the free stack's
-- interleaved accesses are followed until its generation of 32 bits wraps.
pub mod Base
pub mod Spsc
pub mod Pool
pub mod Tcp
pub mod Parser
pub mod Rss
pub mod Latency
pub mod Batch
pub mod Huge
pub mod Counters
pub mod Monitor
pub mod PacketRing
pub mod Worker
pub mod Capture
