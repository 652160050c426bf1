-- ===== src/PacketRing/Examples.antt =====
-- A ring of one block, opened and used, and the theorems of PacketRing at it.
use fast_break.Base.{
  ℕ, ◌%◌, ◌*◌, ◌≤◌, ◌≡◌, ◌⊎◌, refl, true, none, some, List, [], ◌∷◌, ◌++◌, length, arith, get_or,
}
use fast_break.PacketRing.{
  block_size, frames_per_block, FrameSlot, RxFrame, PacketRing, Flags, frame_of, receive,
  current_slot, block_frames, all_frames, Error, Kernel, map_failed, open_ring, set_up, open_socket,
  find_interface, install_ring, map_memory, cleanup, or_clean_up,
}
use fast_break.PacketRing.Open.{nothing_held, IsOpen, framed-IsOpen, first_error, open_ring_lem}
use fast_break.PacketRing.Share.{Shared, fill_slot, fill, take, Reach, here, next}
use fast_break.PacketRing.Order.{frames_in_order}
use fast_break.PacketRing.Slots.{first_of}

abbrev kernel : Kernel
kernel = record {
  socket = some 3;
  interface_index = some 2;
  set_version = true;
  set_rx_ring = λ _ _. true;
  map_ring = λ _. some 4096;
  bind_socket = λ _. true;
  name_limit = 16;
}

-- It has no room for the ring.
abbrev full_kernel : Kernel
full_kernel = record kernel { map_ring = λ _. none }

gives_back : open_ring full_kernel 4 1 nothing_held ≡ (none, some map_failed, nothing_held)
unfolding open_ring set_up open_socket find_interface install_ring map_memory cleanup or_clean_up
gives_back = refl

open_ring_lem_example :
    let (r, e, os) = open_ring kernel 4 1 nothing_held in
    (e ≡ first_error kernel 4 1)
    × (((ring : PacketRing) × (fd : ℕ) × (base : ℕ) × (r ≡ some ring)
          × (e ≡ none)
          × (kernel.socket ≡ some fd)
          × (kernel.map_ring (1 * block_size) ≡ some base)
          × IsOpen 1 ring os fd base)
        ⊎ ((error : Error) × (r ≡ none) × (e ≡ some error) × (os ≡ nothing_held)))
open_ring_lem_example = open_ring_lem kernel 4 1

abbrev opened : PacketRing
opened = record {
  fd = some 3;
  ring = some 4096;
  ring_bytes = block_size;
  frames = all_frames 4096 0 1;
  total_frames = 1 * frames_per_block;
  current_frame = 0;
  drops = 0;
}

opened-IsOpen :
    IsOpen 1 opened (record { open_fd = some 3; mapping = some (4096, 1 * block_size) }) 3 4096
opened-IsOpen = framed-IsOpen 1 3 4096 block_size refl

abbrev flags : Flags
flags = record { user = 1; losing = 4 }

abbrev kernel_slot : FrameSlot
kernel_slot = record { tp_status = 0; tp_mac = 0; tp_len = 0; tp_snaplen = 0; bytes = λ _. 0 }

abbrev arrived : FrameSlot
arrived = record { tp_status = 5; tp_mac = 80; tp_len = 60; tp_snaplen = 60; bytes = λ i. i }

abbrev after_fill : Shared
after_fill = record {
  slots = fill_slot (get_or opened.frames 0 0) arrived (λ _. kernel_slot);
  ring = opened;
  kernel_at = 1 % opened.total_frames;
  held = none;
  written = frame_of arrived ∷ [];
  read = [];
}

filled : Reach flags (λ _. kernel_slot) opened after_fill
filled = next here (fill arrived refl (omega arith))

received : (receive flags after_fill.slots after_fill.ring).0 ≡ some (frame_of arrived)
unfolding receive all_frames block_frames
received = refl

frames_in_order_example :
    let s = record after_fill {
      ring = (receive flags after_fill.slots after_fill.ring).1;
      held = some (frame_of arrived);
    } in
    (waiting : List RxFrame) × (s.written ≡ s.read ++ waiting)
    × (length waiting ≤ opened.total_frames)
    × ((receive flags s.slots s.ring).0 ≡ first_of waiting)
    × ((f : RxFrame)
        → s.held ≡ some f
        → (first_of waiting ≡ some f) × (frame_of (s.slots (current_slot s.ring)) ≡ f))
frames_in_order_example =
    frames_in_order flags {num_blocks = 1} (omega arith) opened-IsOpen
      (next filled (take (frame_of arrived) refl received)) (λ i lt. refl)
