-- ===== src/Huge/Registry.antt =====
-- The registry of live allocations, and what `allocate` and `deallocate` make of it.
use fast_break.Base.{
  ℕ, ◌≡◌, ◌≢◌, ◌⊎◌, inl, inr, refl, ap, Bool, true, false, Option, none, some, Option-cases,
  Bool-cases, [], ◌∷◌, arith, ◌==◌, ==→eq, ==_refl, ne_of_false, if◌then◌else◌,
}
use fast_break.Huge.{
  round_up, huge_page_size, AllocationInfo, Entries, find, assign, erase, Allocator, Error,
  huge_map_failed, fallback_map_failed, untracked, unmap_failed, Result, ok, err, record_region,
  allocate_regular, allocate, unmap_region, deallocate,
}

pub find-assign :
    (p q : ℕ) (info : AllocationInfo) (r : Entries)
    → find q (assign p info r) ≡ (if q == p then some info else find q r)
unfolding find assign
find-assign p q info [] = refl
find-assign p q info ((x, old) ∷ r) = ground (arith, find-assign p q info r)

-- No address has two entries.
abbrev pub IsUnique : Entries → Type 0
IsUnique [] = Unit
IsUnique ((p, info) ∷ r) = (find p r ≡ none) × IsUnique r

find-erase :
    (p q : ℕ) (r : Entries) → IsUnique r → find q (erase p r) ≡ (if q == p then none else find q r)
unfolding find erase
find-erase p q [] u = ground arith
find-erase p q ((x, info) ∷ r) (new, u) = ground (
  arith,
  find-erase p q r u,
  ap (λ t. find t r) {x = p} {y = x},
  ap (λ t. find t r) {x = q} {y = x},
)

assign-IsUnique :
    (p : ℕ) (info : AllocationInfo) (r : Entries) → IsUnique r → IsUnique (assign p info r)
unfolding find assign
assign-IsUnique p info [] u = (refl, tt)
assign-IsUnique p info ((x, old) ∷ r) (new, u) = elim (Bool-cases (p == x)) [
  | inl same ↦ rw same (new, u)
  | inr apart ↦ rw apart (ground (arith, find-assign p x info r), assign-IsUnique p info r u)
]

erase-IsUnique : (p : ℕ) (r : Entries) → IsUnique r → IsUnique (erase p r)
unfolding find erase
erase-IsUnique p [] u = tt
erase-IsUnique p ((x, info) ∷ r) (new, u) = elim (Bool-cases (p == x)) [
  | inl same ↦ rw same u
  | inr apart ↦ rw apart (ground (arith, find-erase p x r u), erase-IsUnique p r u)
]

-- Every entry is a region that the kernel holds, of the recorded length; none is at address 0.
pub record IsAllocator (a : Allocator) : Type 0 where
  pub unique : IsUnique a.registry
  pub held :
      (p : ℕ) (info : AllocationInfo)
      → find p a.registry ≡ some info
      → (p ≢ 0) × (a.mapped p ≡ some info.bytes)

record_region-IsAllocator :
    (p len : ℕ) (huge : Bool) (a : Allocator)
    → p ≢ 0
    → IsAllocator a
    → IsAllocator (record_region p len huge a)
unfolding record_region
record_region-IsAllocator p len huge a nonzero v = record {
  unique = assign-IsUnique p _ a.registry v.unique;
  held = λ q info e.
      ground
        (arith, find-assign p q (record { bytes = len; huge = huge }) a.registry, v.held q info);
}

module _ (map_region : ℕ → Bool → Option ℕ) (a : Allocator) where
  -- A region of `len` bytes at `p` has been mapped and recorded.
  abbrev Recorded : ℕ → ℕ → Bool → Result ℕ × Allocator → Type 0
  Recorded p len huge (result, a') =
      (result ≡ ok p)
      × (a'.mapped p ≡ some len)
      × ((q : ℕ)
          → find q a'.registry
            ≡ (if q == p then some (record { bytes = len; huge = huge }) else find q a.registry))

  abbrev Failed : Error → Result ℕ × Allocator → Type 0
  Failed e (result, a') = (result ≡ err e) × (a' ≡ a)

  record_region-Recorded :
      (p len : ℕ) (huge : Bool) → Recorded p len huge (ok p, record_region p len huge a)
  unfolding record_region
  record_region-Recorded p len huge = (
    refl,
    rw (==_refl p) refl,
    λ q. find-assign p q (record { bytes = len; huge = huge }) a.registry,
  )

  -- If `mmap` never returns the null pointer and every entry of the registry is a region that
  -- the kernel holds, of the recorded length, then so it is after `allocate`. It asks for huge
  -- pages, and only when that fails and they are not forced for regular ones; the region that
  -- it returns is recorded with its length and its kind; on an error nothing has changed.
  pub allocate_lem :
      (bytes : ℕ) (force_huge : Bool)
      → ((len p : ℕ) (huge : Bool) → map_region len huge ≡ some p → p ≢ 0)
      → IsAllocator a
      → let r = allocate map_region bytes force_huge a in
        let len = round_up bytes huge_page_size in
        IsAllocator r.1
        × (((p : ℕ) × (map_region len true ≡ some p) × Recorded p len true r)
            ⊎ ((map_region len true ≡ none)
                × (((force_huge ≡ true) × Failed huge_map_failed r)
                    ⊎ ((force_huge ≡ false)
                        × (((p : ℕ) × (map_region len false ≡ some p) × Recorded p len false r)
                            ⊎ ((map_region len false ≡ none) × Failed fallback_map_failed r))))))
  unfolding allocate allocate_regular
  allocate_lem bytes force_huge nonzero v =
      let len = round_up bytes huge_page_size in
      elim (Option-cases (map_region len true)) [
        | inr (p, e) ↦
            rw (e, allocate)
              (
                record_region-IsAllocator p len true a (nonzero len p true e) v,
                inl (p, refl, record_region-Recorded p len true),
              )
        | inl e ↦ elim (Bool-cases force_huge) [
          | inl forced ↦ rw (e, forced, allocate) (v, inr (refl, inl (refl, (refl, refl))))
          | inr free ↦ elim (Option-cases (map_region len false)) [
            | inl e' ↦
                rw (e, free, allocate, e', allocate_regular)
                  (v, inr (refl, inr (refl, inr (refl, (refl, refl)))))
            | inr (p, e') ↦
                rw (e, free, allocate, e', allocate_regular)
                  (
                    record_region-IsAllocator p len false a (nonzero len p false e') v,
                    inr (refl, inr (refl, inl (p, refl, record_region-Recorded p len false))),
                  )
          ]
        ]
      ]

module _ (unmap : ℕ → ℕ → Bool) (a : Allocator) where
  -- The region recorded at `p` is gone from the registry, and only it.
  abbrev Dropped : ℕ → Allocator → Type 0
  Dropped p a' = (q : ℕ) → find q a'.registry ≡ (if q == p then none else find q a.registry)

  deallocate-IsAllocator :
      (p : ℕ) (info : AllocationInfo)
      → IsAllocator a
      → IsAllocator (unmap_region unmap p info.bytes (record a { registry = erase p a.registry })).1
  unfolding unmap_region
  deallocate-IsAllocator p info v = elim (Bool-cases (unmap p info.bytes)) [
    | inl done ↦ rw done (record {
      unique = erase-IsUnique p a.registry v.unique;
      held = λ q i e. ground (arith, find-erase p q a.registry v.unique, v.held q i);
    })
    | inr failed ↦ rw failed (record {
      unique = erase-IsUnique p a.registry v.unique;
      held = λ q i e. ground (arith, find-erase p q a.registry v.unique, v.held q i);
    })
  ]

  -- If every entry of the registry is a region that the kernel holds, of the recorded length,
  -- then so it is after `deallocate`. The null pointer does nothing; an address without an
  -- entry is an error and changes nothing; else the entry is dropped, and `munmap` is asked
  -- for the recorded length: when that fails, the error is thrown with the region still mapped
  -- and no longer recorded.
  pub deallocate_lem :
      (p : ℕ)
      → IsAllocator a
      → let (result, a') = deallocate unmap p a in
        IsAllocator a'
        × (((p ≡ 0) × (result ≡ ok tt) × (a' ≡ a))
            ⊎ ((p ≢ 0) × (find p a.registry ≡ none) × (result ≡ err untracked) × (a' ≡ a))
            ⊎ ((info : AllocationInfo) × (find p a.registry ≡ some info)
                × (a.mapped p ≡ some info.bytes)
                × Dropped p a'
                × (((unmap p info.bytes ≡ true) × (result ≡ ok tt) × (a'.mapped p ≡ none))
                    ⊎ ((unmap p info.bytes ≡ false)
                        × (result ≡ err unmap_failed)
                        × (a'.mapped p ≡ some info.bytes)))))
  unfolding deallocate unmap_region
  deallocate_lem p v = elim (Bool-cases (p == 0)) [
    | inl zero ↦ rw zero (v, inl (==→eq p 0 zero, refl, refl))
    | inr nonzero ↦ elim (Option-cases (find p a.registry)) [
      | inl e ↦
          rw (nonzero, deallocate, e) (v, inr (inl (ne_of_false p 0 nonzero, refl, refl, refl)))
      | inr (info, e) ↦
          let v' = deallocate-IsAllocator p info v in
          let drop = λ (q : ℕ). find-erase p q a.registry v.unique in
          elim (Bool-cases (unmap p info.bytes)) [
            | inl done ↦
                rw (nonzero, deallocate, e, done)
                  (
                    rw done at v',
                    inr (
                        inr (
                          info,
                          refl,
                          (v.held p info e).1,
                          drop,
                          inl (done, refl, rw (==_refl p) refl),
                        )),
                  )
            | inr failed ↦
                rw (nonzero, deallocate, e, failed)
                  (
                    rw failed at v',
                    inr (
                        inr (
                          info,
                          refl,
                          (v.held p info e).1,
                          drop,
                          inr (failed, refl, (v.held p info e).1),
                        )),
                  )
          ]
    ]
  ]
