-- ===== src/Huge/Rounding.antt =====
-- `round_up` to huge pages.
use fast_break.Base.{ℕ, ◌+◌, ◌-◌, ◌%◌, ◌^◌, ◌≤◌, ◌<◌, ◌≡◌, arith}
use fast_break.Huge.{round_up, huge_page_size}

-- The length is a whole number of huge pages. It holds the bytes and is less than a page more, except
-- that for the last huge page of sizes below 2 ^ 64 the sum wraps and the length is 0.
pub round_up_lem :
    (bytes : ℕ)
    → bytes < 2 ^ 64
    → let len = round_up bytes huge_page_size in
      (bytes ≤ 2 ^ 64 - huge_page_size → (bytes ≤ len) × (0 < len))
      × (0 < bytes → len < bytes + huge_page_size)
      × (len % huge_page_size ≡ 0)
      × (2 ^ 64 - huge_page_size < bytes → len ≡ 0)
unfolding round_up
round_up_lem bytes h = ground arith
