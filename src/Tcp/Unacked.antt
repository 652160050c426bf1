-- ===== src/Tcp/Unacked.antt =====
-- `UnackedQueue` of include/tcp_lite.h and src/tcp_lite.cpp: the packets sent and not yet
-- acknowledged, each in the slot of the low eight bits of its sequence number. The pool is the one
-- the queue refers to, so the operations that release a buffer take it and return it.
pub mod Buffers
pub mod Owned
use fast_break.Base.{
  ℕ, Bool, true, false, ◌&&◌, ◌||◌, not, Option, none, some, List, [], ◌∷◌, bit_and, ◌==◌, leb,
  if◌then◌else◌, sub32, sub64, is_neg32, is_pos32, get_or, set, replicate,
}
use fast_break.Pool.{Pool, release}

pub record Slot : Type 0 where
  pub buf : Option ℕ  -- the null pointer is `none`
  pub sent_tsc : ℕ
  pub seq : ℕ
  pub occupied : Bool

abbrev pub empty_slot : Slot
empty_slot = record { buf = none; sent_tsc = 0; seq = 0; occupied = false }

abbrev pub slots_init : List Slot
slots_init = replicate 256 empty_slot

abbrev pub slot_of : ℕ → ℕ
slot_of seq = bit_and seq 255

abbrev pub slot_at : ℕ → List Slot → Slot
slot_at seq slots = get_or slots (slot_of seq) empty_slot

-- `if (p) pool_.release(p)`
unfoldable pub release_ptr : Option ℕ → Pool → Pool
release_ptr none p = p
release_ptr (some b) p = release b p

unfoldable pub mark_sent : ℕ → ℕ → ℕ → List Slot → Pool → List Slot × Pool
mark_sent seq buf tsc slots p =
    let s = slot_at seq slots in
    (
      set slots (slot_of seq)
          (record { buf = some buf; sent_tsc = tsc; seq = seq; occupied = true }),
      if s.occupied then release_ptr s.buf p else p,
    )

-- The locals of the loop of `mark_acked`.
pub record Newest : Type 0 where
  pub newest_tsc : ℕ
  pub newest_seq : ℕ
  pub any : Bool

-- `!any || (int32_t)(s.seq - newest_seq) > 0`
unfoldable pub newer : Slot → Newest → Newest
newer s n =
    if not n.any || is_pos32 (sub32 s.seq n.newest_seq)
    then record { newest_tsc = s.sent_tsc; newest_seq = s.seq; any = true }
    else n

abbrev pub acked_by : ℕ → Slot → Bool
acked_by up_to s = s.occupied && is_neg32 (sub32 s.seq up_to)

unfoldable pub mark_acked_loop :
    ℕ → List Slot → Newest → Pool → record { slots : List Slot; newest : Newest; pool : Pool }
mark_acked_loop up_to [] n p = record { slots = []; newest = n; pool = p }
mark_acked_loop up_to (s ∷ rest) n p =
    let hit = acked_by up_to s in
    let r =
      mark_acked_loop up_to rest (if hit then newer s n else n)
        (if hit then release_ptr s.buf p else p) in
    record {
      slots = (if hit then record s { buf = none; occupied = false } else s) ∷ r.slots;
      newest = r.newest;
      pool = r.pool;
    }

-- The value returned is 0 when nothing was acknowledged.
unfoldable pub mark_acked :
    ℕ → List Slot → Pool → record { slots : List Slot; sent : ℕ; pool : Pool }
mark_acked up_to slots p =
    let r =
      mark_acked_loop up_to slots (record { newest_tsc = 0; newest_seq = 0; any = false }) p in
    record {
      slots = r.slots;
      sent = if r.newest.any then r.newest.newest_tsc else 0;
      pool = r.pool;
    }

unfoldable pub check_timeouts : ℕ → ℕ → List Slot → List ℕ
check_timeouts now timeout [] = []
check_timeouts now timeout (s ∷ rest) =
    let later = check_timeouts now timeout rest in
    if s.occupied && leb timeout (sub64 now s.sent_tsc) then s.seq ∷ later else later

unfoldable pub occupied : ℕ → List Slot → Bool
occupied seq slots = let s = slot_at seq slots in s.occupied && (s.seq == seq)

unfoldable pub buffer_for : ℕ → List Slot → Option ℕ
buffer_for seq slots =
    let s = slot_at seq slots in if s.occupied && (s.seq == seq) then s.buf else none

unfoldable pub touch : ℕ → ℕ → List Slot → List Slot
touch seq now slots =
    let s = slot_at seq slots in
    if s.occupied && (s.seq == seq)
    then set slots (slot_of seq) (record s { sent_tsc = now })
    else slots

unfoldable pub release_all : List Slot → Pool → List Slot × Pool
release_all [] p = ([], p)
release_all (s ∷ rest) p =
    let (slots, q) = release_all rest (if s.occupied then release_ptr s.buf p else p) in
    (record s { buf = none; occupied = false } ∷ slots, q)
