-- ===== src/Counters.antt =====
-- `PerfCounter` and `PerfScope` of include/perf_counters.h and src/perf_counters.cpp. What the code
-- asks of the kernel goes to a log of requests; what the kernel answers is a parameter, and so are
-- the constants of <linux/perf_event.h>. A process number and a core are 32-bit patterns.
pub mod Lifetime
pub mod Config
pub mod Report
mod Examples
use fast_break.Base.{
  ℕ, ◌<◌, Bool, true, false, ◌&&◌, Option, none, some, List, [], ◌∷◌, ◌++◌, map, bit_or, ltb, u64,
  if◌then◌else◌, ◌<<<◌,
}

pub data PerfEvent : Type 0 where
  l1_cache_misses : PerfEvent
  llc_cache_misses : PerfEvent
  branch_misses : PerfEvent
  instructions : PerfEvent
  cycles : PerfEvent
  tlb_load_misses : PerfEvent
  tlb_store_misses : PerfEvent

-- The constants of the system's header, and the size of its structure.
pub record PerfAbi : Type 0 where
  pub attr_size : ℕ
  pub type_hardware : ℕ
  pub type_hw_cache : ℕ
  pub hw_cache_misses : ℕ
  pub hw_branch_misses : ℕ
  pub hw_instructions : ℕ
  pub hw_cpu_cycles : ℕ
  pub cache_l1d : ℕ
  pub cache_dtlb : ℕ
  pub op_read : ℕ
  pub op_write : ℕ
  pub result_miss : ℕ

pub record PerfAttr : Type 0 where
  pub size : ℕ
  pub attr_type : ℕ
  pub config : ℕ
  pub exclude_kernel : Bool
  pub exclude_hv : Bool
  pub disabled : Bool
  pub inherit : Bool

unfoldable pub cache_config : ℕ → ℕ → ℕ → ℕ
cache_config id op result = bit_or (bit_or id (u64 (op <<< 8))) (u64 (result <<< 16))

pub data Request : Type 0 where
  opens : PerfAttr → ℕ → ℕ → Request
  resets : ℕ → Request
  enables : ℕ → Request
  disables : ℕ → Request
  reads : ℕ → Request
  closes : ℕ → Request

-- The answers, after the requests so far: the descriptor of a counter that is opened, none for a
-- negative number; the eight bytes that are read from a descriptor, none if there are not eight.
pub record Kernel : Type 0 where
  pub opened : List Request → Option ℕ
  pub value : List Request → ℕ → Option ℕ

pub record PerfCounter : Type 0 where
  pub event : PerfEvent
  pub fd : Option ℕ

-- `if (fd_ >= 0)`
unfoldable pub on_fd : (ℕ → Request) → Option ℕ → List Request
on_fd request none = []
on_fd request (some fd) = request fd ∷ []

abbrev pub same_event : PerfEvent → PerfEvent → Bool
same_event l1_cache_misses l1_cache_misses = true
same_event llc_cache_misses llc_cache_misses = true
same_event branch_misses branch_misses = true
same_event instructions instructions = true
same_event cycles cycles = true
same_event tlb_load_misses tlb_load_misses = true
same_event tlb_store_misses tlb_store_misses = true
same_event _ _ = false

module _ (abi : PerfAbi) where
  -- The switch of `fill_attr`: the type and the configuration.
  unfoldable pub selector : PerfEvent → ℕ × ℕ
  selector llc_cache_misses = (abi.type_hardware, abi.hw_cache_misses)
  selector branch_misses = (abi.type_hardware, abi.hw_branch_misses)
  selector instructions = (abi.type_hardware, abi.hw_instructions)
  selector cycles = (abi.type_hardware, abi.hw_cpu_cycles)
  selector l1_cache_misses =
      (abi.type_hw_cache, cache_config abi.cache_l1d abi.op_read abi.result_miss)
  selector tlb_load_misses =
      (abi.type_hw_cache, cache_config abi.cache_dtlb abi.op_read abi.result_miss)
  selector tlb_store_misses =
      (abi.type_hw_cache, cache_config abi.cache_dtlb abi.op_write abi.result_miss)

  unfoldable pub fill_attr : PerfEvent → PerfAttr
  fill_attr event =
      let (attr_type, config) = selector event in
      record {
        size = abi.attr_size;
        attr_type = attr_type;
        config = config;
        exclude_kernel = false;
        exclude_hv = true;
        disabled = true;
        inherit = true;
      }

  module _ (kernel : Kernel) where
    -- The constructor.
    unfoldable pub new_counter : PerfEvent → ℕ → ℕ → List Request → PerfCounter × List Request
    new_counter event cpu pid log =
        let fd = kernel.opened log in
        (
          record { event = event; fd = fd },
          (log ++ (opens (fill_attr event) pid cpu ∷ [])) ++ on_fd resets fd,
        )

-- A descriptor that does not give eight bytes reads as 0.
unfoldable pub read : Kernel → PerfCounter → List Request → ℕ × List Request
read kernel c log = elim c.fd [
  | none ↦ (0, log)
  | some fd ↦ elim (kernel.value log fd) [
    | none ↦ (0, log ++ (reads fd ∷ []))
    | some value ↦ (value, log ++ (reads fd ∷ []))
  ]
]

unfoldable pub start : PerfCounter → List Request → List Request
start c log = log ++ on_fd enables c.fd

unfoldable pub stop : PerfCounter → List Request → List Request
stop c log = log ++ on_fd disables c.fd

-- The destructor.
unfoldable pub close : PerfCounter → List Request → List Request
close c log = log ++ on_fd closes c.fd

abbrev pub valid : PerfCounter → Bool
valid c = elim c.fd [ none ↦ false | some fd ↦ true ]

-- A loop over the counters of a scope.
unfoldable pub for_each :
    (PerfCounter → List Request → List Request) → List PerfCounter → List Request → List Request
for_each act [] log = log
for_each act (c ∷ cs) log = for_each act cs (act c log)

module _ (abi : PerfAbi) (kernel : Kernel) where
  -- The first loop of the constructor of `PerfScope`.
  unfoldable pub open_counters :
      List PerfEvent → ℕ → ℕ → List Request → List PerfCounter × List Request
  open_counters [] cpu pid log = ([], log)
  open_counters (e ∷ es) cpu pid log =
      let (c, log₁) = new_counter abi kernel e cpu pid log in
      let (cs, log₂) = open_counters es cpu pid log₁ in (c ∷ cs, log₂)

  unfoldable pub open_scope :
      List PerfEvent → ℕ → ℕ → List Request → List PerfCounter × List Request
  open_scope events cpu pid log =
      let (cs, log₁) = open_counters events cpu pid log in (cs, for_each start cs log₁)

-- The destructor of `PerfScope`, and then those of its counters.
unfoldable pub close_scope : List PerfCounter → List Request → List Request
close_scope cs log = for_each close cs (for_each stop cs log)

pub record Line : Type 0 where
  pub event : PerfEvent
  pub value : ℕ
  pub is_valid : Bool

-- What the loop of `report` has gathered: `have_ins` and `ins` are one value, and so are `have_cyc`
-- and `cyc`.
pub record Gathered : Type 0 where
  pub lines : List Line
  pub ins : Option ℕ
  pub cyc : Option ℕ

-- The last line: instructions and cycles, if there are both and the second is not 0.
unfoldable pub ipc : Option ℕ → Option ℕ → Option (ℕ × ℕ)
ipc none cyc = none
ipc (some ins) none = none
ipc (some ins) (some cyc) = if ltb 0 cyc then some (ins, cyc) else none

module _ (kernel : Kernel) where
  unfoldable pub count : PerfEvent → List PerfCounter → List Request → ℕ × List Request
  count event [] log = (0, log)
  count event (c ∷ cs) log =
      let later = count event cs log in
      if same_event c.event event then read kernel c log else later

  unfoldable pub report_loop : List PerfCounter → Gathered → List Request → Gathered × List Request
  report_loop [] g log = (g, log)
  report_loop (c ∷ cs) g log =
      let (v, log₁) = read kernel c log in
      report_loop cs
        (record {
          lines = g.lines ++ (record { event = c.event; value = v; is_valid = valid c } ∷ []);
          ins = if same_event c.event instructions then some v else g.ins;
          cyc = if same_event c.event cycles then some v else g.cyc;
        })
        log₁

  unfoldable pub report :
      List PerfCounter → List Request → List Line × Option (ℕ × ℕ) × List Request
  report cs log =
      let (g, log₁) =
        report_loop cs (record { lines = []; ins = none; cyc = none }) (for_each stop cs log) in
      (g.lines, ipc g.ins g.cyc, log₁)
