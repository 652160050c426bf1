-- ===== src/Monitor.antt =====
-- src/capture.cpp: the program that receives frames from a packet ring, prints a line for each UDP
-- packet, and each second one with the counts. Addresses are printed as they are read; the stop flag
-- and the clocks are what is read in a round.
pub mod Tally
pub mod Round
pub mod Rates
mod Examples
use fast_break.Base.{
  ℕ, zero, suc, ◌+◌, ◌*◌, Bool, true, false, ◌||◌, ◌&&◌, Option, none, some, List, [], ◌∷◌, ◌++◌,
  leb, if◌then◌else◌, u64, sub64,
}
use fast_break.PacketRing.{PacketRing, FrameSlot, RxFrame, Flags, receive}
use fast_break.PacketRing
use fast_break.Parser.{ParsedPacket, parse, src_ip, dst_ip, src_port, dst_port, payload_len}

pub data Output : Type 0 where
  packet : (time src src_port dst dst_port len : ℕ) → Output
  rate : (packets total drops : ℕ) → Output

pub record Monitor : Type 0 where
  pub ring : PacketRing
  pub slots : ℕ → FrameSlot
  pub last_tick : ℕ
  pub total : ℕ
  pub last_total : ℕ
  pub printed : List Output

-- What is read in a round: the stop flag and the two clocks.
pub record Readings : Type 0 where
  pub g_stop : Bool
  pub now : ℕ
  pub wall : ℕ

unfoldable pub new_monitor : PacketRing → (ℕ → FrameSlot) → ℕ → Monitor
new_monitor ring slots start = record {
  ring = ring;
  slots = slots;
  last_tick = start;
  total = 0;
  last_total = 0;
  printed = [];
}

-- The line of a packet.
unfoldable pub show_packet : ℕ → ParsedPacket → List Output
show_packet wall p =
    if p.valid && p.has_udp
    then packet wall (src_ip p.ip) (src_port p.udp) (dst_ip p.ip) (dst_port p.udp)
        (payload_len p.udp)
      ∷ []
    else []

unfoldable pub take_frame : ℕ → RxFrame → Monitor → Monitor
take_frame wall frame m =
    let (slots, ring) = PacketRing.release m.slots m.ring in
    record m {
      total = u64 (m.total + 1);
      printed = m.printed ++ show_packet wall (parse frame.bytes frame.captured_len);
      slots = slots;
      ring = ring;
    }

unfoldable pub poll : Flags → ℕ → Monitor → Monitor
poll flags wall m =
    let (got, ring) = receive flags m.slots m.ring in
    let received = record m { ring = ring } in
    elim got [ none ↦ received | some frame ↦ take_frame wall frame received ]

unfoldable pub show_rate : ℕ → Monitor → Monitor
show_rate now m =
    if leb 1_000_000_000 (sub64 now m.last_tick)
    then record m {
      printed = m.printed ++ (rate (sub64 m.total m.last_total) m.total m.ring.drops ∷ []);
      last_tick = now;
      last_total = m.total;
    }
    else m

-- The loop. `kernel i` is what the kernel does to the slots before the round `i`.
unfoldable pub monitor_loop :
    (ℕ → (ℕ → FrameSlot) → ℕ → FrameSlot)
    → (ℕ → Readings)
    → Flags
    → (start duration : ℕ) → ℕ
    → ℕ
    → Monitor
    → Option Monitor
monitor_loop kernel read flags start duration i zero m = none
monitor_loop kernel read flags start duration i (suc rounds) m =
    let r = read i in
    let m' = record m { slots = kernel i m.slots } in
    let rest =
      monitor_loop kernel read flags start duration (i + 1) rounds
        (show_rate r.now (poll flags r.wall m')) in
    if r.g_stop || leb (u64 (duration * 1000000000)) (sub64 r.now start) then some m' else rest
