-- ===== src/PageAllocator/Pools.antt =====
-- The invariant of a pool, and what `page_allocate` and `page_deallocate` do to it.
pub mod Serve
pub mod Return
pub mod Create
use ga_os.Base.{
  ℕ, zero, suc, ◌+◌, ◌-◌, ◌*◌, ◌/◌, ◌%◌, ◌^◌, ◌≤◌, ◌<◌, ◌≡◌, refl, ◌==◌, if◌then◌else◌, leb, ltb,
  ◌&&◌, inl, inr, arith, some, none,
}
use ga_os.PageAllocator.{Bitmap, Pool, page, take_range, search_pool, unset_range, set_range}
use ga_os.PageAllocator.Bitmap.{marked, marked-set_range, marked-unset_range}
use ga_os.PageAllocator.Search.{Found, IsFree, IsSmall, search_pool-Found, search_pool-ends}

-- The pages at or above `high_water` have never been handed out. Their number is bounded by the
-- bytes that were, since `available` only falls.
pub record IsValid (p : Pool) : Type 0 where
  pub high_water : ℕ
  pub paid : high_water * page ≤ p.used
  pub sum : p.used + p.available ≡ p.total
  pub covered : p.total ≤ p.bitmap_entries * page
  pub entries : p.bitmap_entries < 2 ^ 52
  pub addresses : p.allocate_base + p.total < 2 ^ 64
  pub hint : p.last_allocated_page_index ≤ high_water
  pub fresh : (i : ℕ) → high_water ≤ i → (i + 1) * page ≤ p.total → marked p.bitmap i ≡ 0

-- Taking `pages` pages at `index` turned `p` into `q`.
pub record IsGrant (p : Pool) (pages index : ℕ) (q : Pool) : Type 0 where
  pub was_free : IsFree p.bitmap index pages
  pub inside : (index + pages) * page ≤ p.total
  pub marks :
      (i : ℕ)
      → marked q.bitmap i ≡ (if leb index i && ltb i (index + pages) then 1 else marked p.bitmap i)
  pub charged : q.used ≡ p.used + pages * page
  pub left : q.available + pages * page ≡ p.available
  pub place : (q.allocate_base ≡ p.allocate_base) × (q.total ≡ p.total)

-- In a valid pool with the bytes for the request the search succeeds, no later than the high water.
pub search_pool-total :
    (p : Pool) (pages : ℕ)
    → (v : IsValid p) → 0 < pages
    → pages * page ≤ p.available
    → (index : ℕ) × (search_pool pages p ≡ some index) × (index ≤ v.high_water)
search_pool-total p pages v pos room =
    search_pool-ends p pages v.high_water
      (record {
        entries = v.entries;
        request = omega (arith, v.sum, v.covered, v.entries);
        some_page = pos;
      })
      room v.hint (omega (arith, v.paid, v.sum, v.covered))
      (λ j lo hi. v.fresh j lo (omega (arith, v.paid, v.sum)))

-- What the search finds in a valid pool lies below the high water, and the pool has the bytes.
pub search_pool_sound :
    (p : Pool) (pages index : ℕ)
    → (v : IsValid p) → 0 < pages
    → pages < 2 ^ 52
    → search_pool pages p ≡ some index
    → IsFree p.bitmap index pages × (index ≤ v.high_water) × (pages * page ≤ p.available)
search_pool_sound p pages index v pos few e =
    let small : IsSmall p pages = record { entries = v.entries; request = few; some_page = pos } in
    let (f, room) =
      search_pool-Found p pages index small (omega (arith, v.hint, v.paid, v.sum, v.covered)) e in
    let (least, e', le) = search_pool-total p pages v pos room in
    (f.free, ground (arith, e, e', le), room)

-- Taking what the search found keeps the pool valid and hands out exactly those pages.
pub take_range-IsGrant :
    (p : Pool) (pages index : ℕ)
    → IsValid p
    → 0 < pages
    → pages < 2 ^ 52
    → search_pool pages p ≡ some index
    → IsGrant p pages index (take_range p pages index) × IsValid (take_range p pages index)
unfolding take_range
take_range-IsGrant p pages index v pos few e =
    let (free, below, room) = search_pool_sound p pages index v pos few e in
    let bytes : pages * page < 2 ^ 64 = omega arith in
    (
      record {
        was_free = free;
        inside = omega (arith, v.paid, v.sum);
        marks = marked-set_range pages p.bitmap index;
        charged = omega (arith, v.sum, v.addresses);
        left = omega arith;
        place = (refl, refl);
      },
      record {
        high_water = v.high_water + pages;
        paid = omega (arith, v.paid, v.sum, v.addresses);
        sum = omega (arith, v.sum, v.addresses);
        covered = v.covered;
        entries = v.entries;
        addresses = v.addresses;
        hint = omega (arith, below);
        fresh = λ i lo hi.
            ground
              (arith, marked-set_range pages p.bitmap index i, v.fresh i (omega arith) hi, below);
      },
    )

-- Freeing any range of pages keeps the pool valid.
pub unset_range-IsValid :
    (p : Pool) (pages index : ℕ)
    → IsValid p
    → IsValid (record p { bitmap = unset_range pages p.bitmap index })
unset_range-IsValid p pages index v = record {
  high_water = v.high_water;
  paid = v.paid;
  sum = v.sum;
  covered = v.covered;
  entries = v.entries;
  addresses = v.addresses;
  hint = v.hint;
  fresh = λ i lo hi. ground (arith, marked-unset_range pages p.bitmap index i, v.fresh i lo hi);
}
