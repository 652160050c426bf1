-- ===== src/Counters/Config.antt =====
-- The configuration of a cache event.
use fast_break.Base.{ℕ, ◌+◌, ◌*◌, ◌/◌, ◌%◌, ◌^◌, ◌<◌, ◌≡◌, ◌∙◌, ap, ap₂, bit_or, arith, u64, ◌<<<◌}
use fast_break.Base.Bits.{or_comm, or_fields}
use fast_break.Counters.{cache_config}

cache_config_sum :
    (id op result : ℕ)
    → id < 2 ^ 8
    → op < 2 ^ 8
    → result < 2 ^ 8
    → cache_config id op result ≡ result * 2 ^ 16 + (op * 2 ^ 8 + id)
unfolding cache_config
cache_config_sum id op result hi ho hr =
    let low : bit_or id (u64 (op <<< 8)) ≡ op * 2 ^ 8 + id =
      ap (bit_or id) {x = u64 (op <<< 8)} {y = op * 2 ^ 8} (omega arith)
      ∙ or_comm id (op * 2 ^ 8)
      ∙ or_fields 8 op id hi in
    let high : u64 (result <<< 16) ≡ result * 2 ^ 16 = omega arith in
    ap₂ bit_or low high
    ∙ or_comm (op * 2 ^ 8 + id) (result * 2 ^ 16)
    ∙ or_fields 16 result (op * 2 ^ 8 + id) (omega arith)

-- If the cache, the operation and the result are each below 256, the configuration has each of
-- them in eight bits of its own, and reads back.
pub cache_config_lem :
    (id op result : ℕ)
    → id < 2 ^ 8
    → op < 2 ^ 8
    → result < 2 ^ 8
    → let c = cache_config id op result in
      (c % 256 ≡ id) × (c / 256 % 256 ≡ op) × (c / 65536 ≡ result)
cache_config_lem id op result hi ho hr =
    let e = cache_config_sum id op result hi ho hr in omega (arith, e)
