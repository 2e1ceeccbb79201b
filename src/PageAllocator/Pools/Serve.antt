-- ===== src/PageAllocator/Pools/Serve.antt =====
-- `page_allocate` and `page_deallocate` over all pools.
use ga_os.Base.{
  ℕ, ◌+◌, ◌-◌, ◌*◌, ◌/◌, ◌^◌, ◌<◌, ◌≡◌, refl, ◌==◌, if◌then◌else◌, leb, ltb, Bool-cases,
  Option-cases, inl, inr, arith, some, none, List, [], ◌∷◌, ◌↔◌, ◌&&◌, ltb→lt, ltb→le,
}
use ga_os.Libc.Memory.{memset}
use ga_os.Libc.Memory.Moves.{memset_lem}
use ga_os.PageAllocator.{
  Pool, page, wrap, Allocator, done, panic, search_pool, take_range, allocate_from, page_allocate,
  deallocate_from, page_deallocate,
}
use ga_os.PageAllocator.Pools.{
  IsValid, IsGrant, search_pool-total, take_range-IsGrant, unset_range-IsValid,
}

abbrev pub AllValid : List Pool → Type 0
AllValid [] = Unit {0}
AllValid (p ∷ ps) = IsValid p × AllValid ps

-- Every pool has fewer than `bytes` bytes left.
abbrev pub NoRoom : ℕ → List Pool → Type 0
NoRoom bytes [] = Unit {0}
NoRoom bytes (p ∷ ps) = (p.available < bytes) × NoRoom bytes ps

-- `pages` pages at address `a` were granted by the first pool with room, and the other pools are
-- unchanged.
pub data Served (pages : ℕ) : List Pool → ℕ → List Pool → Type 0 where
  here :
      {p q : Pool} {ps : List Pool} {a : ℕ} (index : ℕ)
      → IsGrant p pages index q
      → a ≡ p.allocate_base + index * page
      → Served pages (p ∷ ps) a (q ∷ ps)
  next :
      {p : Pool} {ps qs : List Pool} {a : ℕ}
      → p.available < pages * page
      → Served pages ps a qs
      → Served pages (p ∷ ps) a (p ∷ qs)

module _ (pages : ℕ) (pos : 0 < pages) (few : pages < 2 ^ 52) where
  no_room : (p : Pool) → IsValid p → search_pool pages p ≡ none → p.available < pages * page
  no_room p v full = elim (Bool-cases (ltb p.available (pages * page))) [
    | inl short ↦ ltb→lt _ _ short
    | inr room ↦
        let (index, found, le) = search_pool-total p pages v pos (ltb→le _ _ room) in absurd (cc)
  ]

  search_pool-none : (p : Pool) → p.available < pages * page → search_pool pages p ≡ none
  unfolding search_pool
  search_pool-none p short = ground arith

  allocate_from-Served :
      (ps : List Pool) (a : ℕ) (qs : List Pool)
      → AllValid ps
      → allocate_from pages ps ≡ some (a, qs)
      → Served pages ps a qs × AllValid qs
  unfolding allocate_from
  allocate_from-Served [] a qs v e = absurd (cc)
  allocate_from-Served (p ∷ ps) a qs v e = elim (Option-cases (search_pool pages p)) [
    | inl full ↦ elim (Option-cases (allocate_from pages ps)) [
      | inl stop ↦ absurd (ground arith)
      | inr ((b, rs), more) ↦
          let (served, valid) = allocate_from-Served ps b rs v.1 more in
          let address : b ≡ a = ground arith in
          let pools : p ∷ rs ≡ qs = ground arith in
          rw (← address, ← pools) (next (no_room p v.0 full) served, (v.0, valid))
    ]
    | inr (index, found) ↦
        let (grant, valid) = take_range-IsGrant p pages index v.0 pos few found in
        let pools : take_range p pages index ∷ ps ≡ qs = ground arith in
        let address : a ≡ p.allocate_base + index * page =
          ground (arith, grant.inside, v.0.addresses) in
        rw (← pools) (here index grant address, (valid, v.1))
  ]

  allocate_from-none :
      (ps : List Pool) → AllValid ps → allocate_from pages ps ≡ none → NoRoom (pages * page) ps
  unfolding allocate_from
  allocate_from-none [] v e = tt
  allocate_from-none (p ∷ ps) v e = elim (Option-cases (search_pool pages p)) [
    | inl full ↦ (no_room p v.0 full, allocate_from-none ps v.1 (ground arith))
    | inr (index, found) ↦ absurd (ground arith)
  ]

  NoRoom-allocate_from : (ps : List Pool) → NoRoom (pages * page) ps → allocate_from pages ps ≡ none
  unfolding allocate_from
  NoRoom-allocate_from [] h = refl
  NoRoom-allocate_from (p ∷ ps) h =
      ground (arith, search_pool-none p h.0, NoRoom-allocate_from ps h.1)

-- A request for no page is a request for one.
abbrev pub at_least_one : ℕ → ℕ
at_least_one n = if n == 0 then 1 else n

-- What a request for `n` pages that returned address `a` did to the allocator.
pub record IsAllocation (n : ℕ) (s : Allocator) (a : ℕ) (t : Allocator) : Type 0 where
  pub served : Served (at_least_one n) s.pools a t.pools
  pub valid : AllValid t.pools
  pub cleared :
      (b : ℕ)
      → t.memory b ≡ (if leb a b && ltb b (a + at_least_one n * page) then 0 else s.memory b)

at_least_one_bounds : (n : ℕ) → n < 2 ^ 52 → (0 < at_least_one n) × (at_least_one n < 2 ^ 52)
at_least_one_bounds n h = ground arith

-- From valid pools, a request for fewer than 2 ^ 52 pages that returns an address took pages that
-- were free from the first pool with room, inside the memory of that pool, marked exactly those,
-- charged the pool for them, cleared them and wrote no other memory, and left all pools valid.
pub page_allocate-IsAllocation :
    (n : ℕ) (s : Allocator) (a : ℕ) (t : Allocator)
    → n < 2 ^ 52
    → AllValid s.pools
    → page_allocate n s ≡ done a t
    → IsAllocation n s a t
unfolding page_allocate
page_allocate-IsAllocation n s a t few v e =
    let (pos, bound) = at_least_one_bounds n few in
    elim (Option-cases (allocate_from (at_least_one n) s.pools)) [
      | inl stop ↦ absurd (ground arith)
      | inr ((b, qs), found) ↦
          let (served, valid) =
            allocate_from-Served (at_least_one n) pos bound s.pools b qs v found in
          let address : b ≡ a = ground arith in
          let state : record { pools = qs; memory = memset b 0 (at_least_one n * page) s.memory }
              ≡ t =
            ground arith in
          rw (← address, ← state)
            (record {
              served = served;
              valid = valid;
              cleared = λ c. ground (arith, memset_lem b 0 (at_least_one n * page) s.memory c);
            })
    ]

-- From valid pools, a request for fewer than 2 ^ 52 pages panics exactly when every pool has fewer
-- bytes left than were asked for: neither the bitmap nor the search hint ever makes it fail.
pub page_allocate-panic_iff :
    (n : ℕ) (s : Allocator)
    → n < 2 ^ 52
    → AllValid s.pools
    → (page_allocate n s ≡ panic) ↔ NoRoom (at_least_one n * page) s.pools
unfolding page_allocate
page_allocate-panic_iff n s few v =
    let (pos, bound) = at_least_one_bounds n few in
    (
      λ e. allocate_from-none (at_least_one n) pos bound s.pools v (ground arith),
      λ h. ground (arith, NoRoom-allocate_from (at_least_one n) pos bound s.pools h),
    )

deallocate_from-AllValid :
    (ps : List Pool) (base pages : ℕ) → AllValid ps → AllValid (deallocate_from ps base pages)
unfolding deallocate_from
deallocate_from-AllValid [] base pages v = tt
deallocate_from-AllValid (p ∷ ps) base pages v =
    elim (Bool-cases (leb p.allocate_base base && leb base (wrap (p.allocate_base + p.total)))) [
      | inl mine ↦ rw mine (unset_range-IsValid p pages ((base - p.allocate_base) / page) v.0, v.1)
      | inr other ↦ rw other (v.0, deallocate_from-AllValid ps base pages v.1)
    ]

-- Freeing any address range keeps every pool valid.
pub page_deallocate-AllValid :
    (base pages : ℕ) (s : Allocator)
    → AllValid s.pools
    → AllValid (page_deallocate base pages s).pools
unfolding page_deallocate
page_deallocate-AllValid base pages s v = deallocate_from-AllValid s.pools base pages v
