-- ===== src/Huge/Examples.antt =====
-- An allocator with one region, and the theorems of Huge at it.
use fast_break.Base.{
  ℕ, ◌*◌, ◌≡◌, ◌≢◌, ◌⊎◌, refl, Bool, true, false, Option, none, some, [], ◌∷◌, arith, ◌==◌,
  if◌then◌else◌,
}
use fast_break.Huge.{
  round_up, huge_page_size, AllocationInfo, find, Allocator, allocate, huge_map_failed,
  fallback_map_failed, untracked, unmap_failed, ok, err, deallocate, is_huge, print_stats,
  count_entry, assign, record_region, allocate_regular,
}
use fast_break.Huge.Registry.{IsAllocator, allocate_lem, deallocate_lem}

abbrev region : AllocationInfo
region = record { bytes = 2 * huge_page_size; huge = true }

abbrev one_region : Allocator
one_region = record {
  registry = (4096, region) ∷ [];
  mapped = λ q. if q == 4096 then some (2 * huge_page_size) else none;
}

one_region-IsAllocator : IsAllocator one_region
unfolding find
one_region-IsAllocator = record { unique = (refl, tt); held = λ p info e. ground arith }

-- A kernel without huge pages, whose next free address is 8192.
abbrev map_regular : ℕ → Bool → Option ℕ
map_regular len huge = if huge then none else some 8192

map_regular-nonzero : (len p : ℕ) (huge : Bool) → map_regular len huge ≡ some p → p ≢ 0
map_regular-nonzero len p huge e = ground arith

after_allocate : Allocator
after_allocate = (allocate map_regular 10 false one_region).1

abbrev Found : Allocator → ℕ → AllocationInfo → Type 0
Found a p info =
    (q : ℕ) → find q a.registry ≡ (if q == p then some info else find q one_region.registry)

fallback_recorded :
    ((allocate map_regular 10 false one_region).0 ≡ ok 8192) × (is_huge 8192 after_allocate ≡ false)
unfolding after_allocate allocate allocate_regular record_region is_huge find assign
fallback_recorded = (refl, refl)

allocate_lem_example :
    let r = allocate map_regular 10 false one_region in
    let len = round_up 10 huge_page_size in
    IsAllocator r.1
    × (((p : ℕ) × (map_regular len true ≡ some p)
          × ((r.0 ≡ ok p)
              × (r.1.mapped p ≡ some len)
              × Found r.1 p (record { bytes = len; huge = true })))
        ⊎ ((map_regular len true ≡ none)
            × (((false ≡ true) × ((r.0 ≡ err huge_map_failed) × (r.1 ≡ one_region)))
                ⊎ ((false ≡ false)
                    × (((p : ℕ) × (map_regular len false ≡ some p)
                          × ((r.0 ≡ ok p)
                              × (r.1.mapped p ≡ some len)
                              × Found r.1 p (record { bytes = len; huge = false })))
                        ⊎ ((map_regular len false ≡ none)
                            × ((r.0 ≡ err fallback_map_failed) × (r.1 ≡ one_region))))))))
allocate_lem_example =
    allocate_lem map_regular one_region 10 false map_regular-nonzero one_region-IsAllocator

-- A kernel that unmaps only whole regions of two huge pages.
abbrev unmap_two : ℕ → ℕ → Bool
unmap_two p len = len == 2 * huge_page_size

abbrev address : ℕ
address = 4096

deallocate_lem_example :
    let (result, a') = deallocate unmap_two address one_region in
    IsAllocator a'
    × (((address ≡ 0) × (result ≡ ok tt) × (a' ≡ one_region))
        ⊎ ((address ≢ 0)
            × (find address one_region.registry ≡ none)
            × (result ≡ err untracked)
            × (a' ≡ one_region))
        ⊎ ((info : AllocationInfo) × (find address one_region.registry ≡ some info)
            × (one_region.mapped address ≡ some info.bytes)
            × ((q : ℕ)
                → find q a'.registry ≡ (if q == address then none else find q one_region.registry))
            × (((unmap_two address info.bytes ≡ true)
                  × (result ≡ ok tt)
                  × (a'.mapped address ≡ none))
                ⊎ ((unmap_two address info.bytes ≡ false)
                    × (result ≡ err unmap_failed)
                    × (a'.mapped address ≡ some info.bytes)))))
deallocate_lem_example = deallocate_lem unmap_two one_region address one_region-IsAllocator

summed :
    print_stats one_region.registry
      (record { huge_count = 0; huge_bytes = 0; reg_count = 0; reg_bytes = 0 })
    ≡ record { huge_count = 1; huge_bytes = 4194304; reg_count = 0; reg_bytes = 0 }
unfolding print_stats count_entry
summed = refl
