-- ===== src/Counters/Examples.antt =====
-- A scope of three events on a kernel that has no cache counters.
use fast_break.Base.{
  ℕ, ◌<◌, ◌↔◌, ◌+◌, ◌*◌, ◌/◌, ◌%◌, ◌≡◌, none, some, List, [], ◌∷◌, ◌++◌, map, arith, length, ◌==◌,
  if◌then◌else◌,
}
use fast_break.Counters.{
  PerfEvent, instructions, cycles, l1_cache_misses, PerfAbi, Request, Kernel, PerfCounter,
  open_scope, disables, reads, cache_config, Line, report, valid,
}
use fast_break.Counters.Config.{cache_config_lem}
use fast_break.Counters.Report.{answers, last_value, report_lem}
use fast_break.Counters.Lifetime.{descriptors}

abbrev abi : PerfAbi
abi = record {
  attr_size = 136;
  type_hardware = 0;
  type_hw_cache = 3;
  hw_cache_misses = 3;
  hw_branch_misses = 5;
  hw_instructions = 1;
  hw_cpu_cycles = 0;
  cache_l1d = 0;
  cache_dtlb = 3;
  op_read = 0;
  op_write = 1;
  result_miss = 1;
}

-- The second opening fails.
abbrev kernel : Kernel
kernel = record {
  opened = λ log. if length log == 2 then none else some (3 + length log);
  value = λ log fd. some (100 * fd);
}

abbrev events : List PerfEvent
events = instructions ∷ l1_cache_misses ∷ cycles ∷ []

abbrev scope : List PerfCounter × List Request
scope = open_scope abi kernel events 0 7 []

cache_config_lem_example :
    let c = cache_config 3 1 1 in (c % 256 ≡ 3) × (c / 256 % 256 ≡ 1) × (c / 65536 ≡ 1)
cache_config_lem_example = cache_config_lem 3 1 1 (omega arith) (omega arith) (omega arith)

report_lem_example :
    let (cs, log) = scope in
    let (lines, ratio, log') = report kernel cs log in
    let stopped = log ++ map disables (descriptors cs) in
    (map (λ (l : Line). l.event) lines ≡ map (λ (c : PerfCounter). c.event) cs)
    × (map (λ (l : Line). l.is_valid) lines ≡ map valid cs)
    × (map (λ (l : Line). l.value) lines ≡ answers kernel stopped cs)
    × ((a b : ℕ)
        → (ratio ≡ some (a, b)) ↔ (
            (last_value instructions lines ≡ some a)
            × (last_value cycles lines ≡ some b)
            × (0 < b)))
    × (log' ≡ stopped ++ map reads (descriptors cs))
report_lem_example = report_lem kernel scope.0 scope.1
