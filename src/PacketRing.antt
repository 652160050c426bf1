-- ===== src/PacketRing.antt =====
-- include/packet_ring.h and src/packet_ring.cpp: `PacketRing`, the ring of frames that the kernel
-- fills and the program reads. The ring's memory is one slot for each address of a frame header. The
-- kernel's flags of a slot are parameters, and so is what it answers to the calls of the
-- constructor. `Os` is what the process holds on the ring's behalf.
pub mod Frames
pub mod Open
pub mod Share
pub mod Slots
pub mod Order
mod Examples
use fast_break.Base.{
  ℕ, zero, suc, ◌+◌, ◌-◌, ◌*◌, ◌/◌, ◌%◌, ◌^◌, Bool, true, false, not, Option, none, some, List, [],
  ◌∷◌, ◌++◌, bit_and, ◌==◌, leb, if◌then◌else◌, u32, u64, is_pos32, get_or,
}

abbrev pub block_size : ℕ
block_size = 2 ^ 22

abbrev pub frame_size : ℕ
frame_size = 2048

abbrev pub frames_per_block : ℕ
frames_per_block = block_size / frame_size

-- `tpacket2_hdr`, as far as it is read, and the bytes from the header on.
pub record FrameSlot : Type 0 where
  pub tp_status : ℕ
  pub tp_mac : ℕ
  pub tp_len : ℕ
  pub tp_snaplen : ℕ
  pub bytes : ℕ → ℕ

pub record RxFrame : Type 0 where
  pub bytes : ℕ → ℕ  -- from `data` on
  pub len : ℕ
  pub captured_len : ℕ

-- The descriptor and the base are `none` for -1 and the null pointer.
pub record PacketRing : Type 0 where
  pub fd : Option ℕ
  pub ring : Option ℕ
  pub ring_bytes : ℕ
  pub frames : List ℕ
  pub total_frames : ℕ
  pub current_frame : ℕ
  pub drops : ℕ

-- `TP_STATUS_USER` and `TP_STATUS_LOSING`.
pub record Flags : Type 0 where
  pub user : ℕ
  pub losing : ℕ

-- The address of the current slot.
abbrev pub current_slot : PacketRing → ℕ
current_slot r = get_or r.frames r.current_frame 0

unfoldable pub frame_of : FrameSlot → RxFrame
frame_of h = record {
  bytes = λ i. h.bytes (h.tp_mac + i);
  len = h.tp_len;
  captured_len = h.tp_snaplen;
}

unfoldable pub receive : Flags → (ℕ → FrameSlot) → PacketRing → Option RxFrame × PacketRing
receive flags slots r =
    let h = slots (current_slot r) in
    if bit_and h.tp_status flags.user == 0 then (none, r) else (
      some (frame_of h),
      record r {
        drops = if bit_and h.tp_status flags.losing == 0 then r.drops else u64 (r.drops + 1);
      },
    )

-- The slot goes back to the kernel: `TP_STATUS_KERNEL` is 0.
unfoldable pub give_back : ℕ → (ℕ → FrameSlot) → ℕ → FrameSlot
give_back at slots a = if a == at then record (slots at) { tp_status = 0 } else slots a

unfoldable pub release : (ℕ → FrameSlot) → PacketRing → (ℕ → FrameSlot) × PacketRing
release slots r = (
  give_back (current_slot r) slots,
  record r { current_frame = (r.current_frame + 1) % r.total_frames },
)

-- The constructor.
pub data Error : Type 0 where
  blocks_not_positive name_too_long socket_failed no_interface version_refused ring_refused
        map_failed bind_failed :
      Error

pub record Os : Type 0 where
  pub open_fd : Option ℕ
  pub mapping : Option (ℕ × ℕ)  -- a base and a length

-- The answers: a descriptor, the interface's index, whether the options are set, the base of the
-- mapping of a number of bytes, and whether the socket is bound to an index.
pub record Kernel : Type 0 where
  pub socket : Option ℕ
  pub interface_index : Option ℕ
  pub set_version : Bool
  pub set_rx_ring : (block_nr frame_nr : ℕ) → Bool
  pub map_ring : (bytes : ℕ) → Option ℕ
  pub bind_socket : (index : ℕ) → Bool
  pub name_limit : ℕ  -- IFNAMSIZ

-- What the constructor has done so far, or the error with which it was left.
pub data Attempt (A : Type 0) : Type 0 where
  going : A → PacketRing → Os → Attempt A
  failed : Error → PacketRing → Os → Attempt A

infixl 5 ◌>>=◌
abbrev pub ◌>>=◌ : {A B : Type 0} → Attempt A → (A → PacketRing → Os → Attempt B) → Attempt B
going a r os >>= f = f a r os
failed e r os >>= f = failed e r os

abbrev pub demand : Bool → Error → PacketRing → Os → Attempt (Unit {0})
demand b e r os = if b then going tt r os else failed e r os

unfoldable pub open_socket : Kernel → PacketRing → Os → Attempt (Unit {0})
open_socket k r os = elim k.socket [
  | none ↦ failed socket_failed r os
  | some fd ↦ going tt (record r { fd = some fd }) (record os { open_fd = some fd })
]

unfoldable pub find_interface : Kernel → PacketRing → Os → Attempt ℕ
find_interface k r os = elim k.interface_index [
  | none ↦ failed no_interface r os
  | some index ↦ going index r os
]

unfoldable pub install_ring : Kernel → ℕ → PacketRing → Os → Attempt (Unit {0})
install_ring k num_blocks r os =
    let r' = record r { total_frames = num_blocks * frames_per_block } in
    demand (k.set_rx_ring num_blocks (u32 r'.total_frames)) ring_refused r' os

unfoldable pub map_memory : Kernel → ℕ → PacketRing → Os → Attempt ℕ
map_memory k num_blocks r os =
    let bytes = num_blocks * block_size in
    elim (k.map_ring bytes) [
      | none ↦ failed map_failed (record r { ring_bytes = bytes; ring = none }) os
      | some base ↦
          going base (record r { ring_bytes = bytes; ring = some base })
            (record os { mapping = some (base, bytes) })
    ]

-- The frames of a block from the frame `f` on.
unfoldable pub block_frames : ℕ → ℕ → ℕ → List ℕ
block_frames block f zero = []
block_frames block f (suc rounds) = (block + f * frame_size) ∷ block_frames block (f + 1) rounds

-- The blocks from the block `b` on.
unfoldable pub all_frames : ℕ → ℕ → ℕ → List ℕ
all_frames base b zero = []
all_frames base b (suc rounds) =
    block_frames (base + b * block_size) 0 frames_per_block ++ all_frames base (b + 1) rounds

-- The member initialisers.
abbrev pub closed : PacketRing
closed = record {
  fd = none;
  ring = none;
  ring_bytes = 0;
  frames = [];
  total_frames = 0;
  current_frame = 0;
  drops = 0;
}

-- `munmap` and `close`, for what there is.
unfoldable pub cleanup : PacketRing → Os → PacketRing × Os
cleanup r os = (
  record r { ring = none; fd = none },
  record {
    mapping = elim r.ring [ none ↦ os.mapping | some base ↦ none ];
    open_fd = elim r.fd [ none ↦ os.open_fd | some fd ↦ none ];
  },
)

-- The body of the `try` block.
unfoldable pub set_up : Kernel → ℕ → PacketRing → Os → Attempt (Unit {0})
set_up k num_blocks r os = open_socket k r os >>= (λ _ r os.
    find_interface k r os >>= (λ index r os.
      demand k.set_version version_refused r os >>= (λ _ r os.
        install_ring k num_blocks r os >>= (λ _ r os. map_memory k num_blocks r os >>= (λ base r os.
          demand (k.bind_socket index) bind_failed
            (record r { frames = all_frames base 0 num_blocks }) os)))))

-- The `catch` block.
unfoldable pub or_clean_up : Attempt (Unit {0}) → Option PacketRing × Option Error × Os
or_clean_up (going _ r os) = (some r, none, os)
or_clean_up (failed e r os) = (none, some e, (cleanup r os).1)

-- `num_blocks` is the word of an `int`; `name_size` is the length of the interface's name.
unfoldable pub open_ring : Kernel → ℕ → ℕ → Os → Option PacketRing × Option Error × Os
open_ring k name_size num_blocks os =
    if not (is_pos32 num_blocks)
    then (none, some blocks_not_positive, os)
    else if leb k.name_limit name_size
    then (none, some name_too_long, os)
    else or_clean_up (set_up k num_blocks closed os)
