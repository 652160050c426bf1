-- ===== src/Huge.antt =====
-- include/huge_alloc.h and src/huge_alloc.cpp: `HugePageAllocator`. The registry of live allocations
-- is an association list by address. The kernel is what it answers to the calls that are made:
-- `map_region` is `mmap` for a length, with huge pages or without, and `unmap` is whether `munmap`
-- succeeds. `mapped` is the regions that the kernel holds for the allocator, by address.
pub mod Rounding
pub mod Registry
mod Examples
use fast_break.Base.{
  ℕ, zero, suc, ◌+◌, ◌-◌, ◌*◌, ◌/◌, ◌%◌, ◌^◌, Bool, true, false, not, ◌&&◌, Option, none, some,
  List, [], ◌∷◌, ◌==◌, if◌then◌else◌, u64, sub64,
}

abbrev pub huge_page_size : ℕ
huge_page_size = 2 * 1024 * 1024

unfoldable pub round_up : ℕ → ℕ → ℕ
round_up bytes multiple =
    if bytes == 0 then multiple else u64 (sub64 (u64 (bytes + multiple)) 1 / multiple * multiple)

pub record AllocationInfo : Type 0 where
  pub bytes : ℕ
  pub huge : Bool

abbrev pub Entries : Type 0
Entries = List (ℕ × AllocationInfo)

-- `registry().find(p)`
unfoldable pub find : ℕ → Entries → Option AllocationInfo
find p [] = none
find p ((q, info) ∷ rest) = if p == q then some info else find p rest

-- `registry()[p] = info`
unfoldable pub assign : ℕ → AllocationInfo → Entries → Entries
assign p info [] = (p, info) ∷ []
assign p info ((q, old) ∷ rest) = if p == q then (q, info) ∷ rest else (q, old) ∷ assign p info rest

-- `registry().erase(it)`
unfoldable pub erase : ℕ → Entries → Entries
erase p [] = []
erase p ((q, info) ∷ rest) = if p == q then rest else (q, info) ∷ erase p rest

pub record Allocator : Type 0 where
  pub registry : Entries
  pub mapped : ℕ → Option ℕ

-- The `std::runtime_error`s.
pub data Error : Type 0 where
  huge_map_failed fallback_map_failed untracked unmap_failed : Error

pub data Result (A : Type 0) : Type 0 where
  ok : A → Result A
  err : Error → Result A

-- The region `p` of `len` bytes has been mapped: it is recorded.
unfoldable pub record_region : ℕ → ℕ → Bool → Allocator → Allocator
record_region p len huge a = record {
  registry = assign p (record { bytes = len; huge = huge }) a.registry;
  mapped = λ q. if q == p then some len else a.mapped q;
}

-- The second `mmap`, with regular pages.
unfoldable pub allocate_regular : (ℕ → Bool → Option ℕ) → ℕ → Allocator → Result ℕ × Allocator
allocate_regular map_region len a = elim (map_region len false) [
  | none ↦ (err fallback_map_failed, a)
  | some p ↦ (ok p, record_region p len false a)
]

unfoldable pub allocate : (ℕ → Bool → Option ℕ) → ℕ → Bool → Allocator → Result ℕ × Allocator
allocate map_region bytes force_huge a =
    let len = round_up bytes huge_page_size in
    elim (map_region len true) [
      | none ↦ (if force_huge then (err huge_map_failed, a) else allocate_regular map_region len a)
      | some p ↦ (ok p, record_region p len true a)
    ]

-- `munmap(ptr, len)`, after the entry has been erased.
unfoldable pub unmap_region : (ℕ → ℕ → Bool) → ℕ → ℕ → Allocator → Result (Unit {0}) × Allocator
unmap_region unmap p len a =
    if unmap p len
    then (ok tt, record a { mapped = λ q. if q == p then none else a.mapped q })
    else (err unmap_failed, a)

-- The null pointer is the address 0.
unfoldable pub deallocate : (ℕ → ℕ → Bool) → ℕ → Allocator → Result (Unit {0}) × Allocator
deallocate unmap p a = if p == 0 then (ok tt, a) else (elim (find p a.registry) [
  | none ↦ (err untracked, a)
  | some info ↦ unmap_region unmap p info.bytes (record a { registry = erase p a.registry })
])

unfoldable pub is_huge : ℕ → Allocator → Bool
is_huge p a = elim (find p a.registry) [ none ↦ false | some info ↦ info.huge ]

-- The four sums of `print_stats`.
pub record Stats : Type 0 where
  pub huge_count : ℕ
  pub huge_bytes : ℕ
  pub reg_count : ℕ
  pub reg_bytes : ℕ

unfoldable pub count_entry : AllocationInfo → Stats → Stats
count_entry info s =
    if info.huge
    then record s {
      huge_count = u64 (s.huge_count + 1);
      huge_bytes = u64 (s.huge_bytes + info.bytes);
    }
    else record s { reg_count = u64 (s.reg_count + 1); reg_bytes = u64 (s.reg_bytes + info.bytes) }

unfoldable pub print_stats : Entries → Stats → Stats
print_stats [] s = s
print_stats ((p, info) ∷ rest) s = print_stats rest (count_entry info s)
