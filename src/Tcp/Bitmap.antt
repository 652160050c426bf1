-- ===== src/Tcp/Bitmap.antt =====
-- `RecvBitmap` of include/tcp_lite.h and src/tcp_lite.cpp: which of the 256 sequence numbers from
-- `base_seq` on have arrived. The bits are a function of the index, which is always below 256.
pub mod Laws
use fast_break.Base.{
  ℕ, zero, suc, ◌+◌, ◌-◌, ◌%◌, ◌^◌, Bool, true, false, ◌&&◌, ◌==◌, leb, ltb, if◌then◌else◌, u32,
  sub32, is_neg32,
}

abbrev pub window_size : ℕ
window_size = 256

pub record RecvBitmap : Type 0 where
  pub received : ℕ → Bool
  pub base_seq : ℕ

abbrev pub fresh : RecvBitmap
fresh = record { received = λ _. false; base_seq = 0 }

-- `off` is the difference as an `int32_t`: past the first test it is the word itself.
unfoldable pub mark_received : ℕ → RecvBitmap → Bool × RecvBitmap
mark_received seq m =
    let off = sub32 seq m.base_seq in
    if is_neg32 off
    then (false, m)
    else if leb window_size off
    then (false, m)
    else if m.received off
    then (false, m)
    else (true, record m { received = λ i. if i == off then true else m.received i })

-- The loop that counts the bits set from `n` on, with `left` rounds to the end of the window.
unfoldable pub count_run : (ℕ → Bool) → ℕ → ℕ → ℕ
count_run received n zero = n
count_run received n (suc left) =
    let rest = count_run received (n + 1) left in if received n then rest else n

unfoldable pub cumulative_ack : RecvBitmap → ℕ
unfolding count_run
cumulative_ack m = u32 (m.base_seq + count_run m.received 0 window_size)

unfoldable pub advance : ℕ → RecvBitmap → RecvBitmap
advance new_base m =
    let shift = sub32 new_base m.base_seq in
    if shift == 0 then m else record {
      received =
          if leb window_size shift
          then (λ _. false)
          else (λ i. ltb (i + shift) window_size && m.received (i + shift));
      base_seq = new_base;
    }

unfoldable pub has : ℕ → RecvBitmap → Bool
has seq m =
    let off = sub32 seq m.base_seq in
    if is_neg32 off then false else if leb window_size off then false else m.received off
