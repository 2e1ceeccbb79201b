-- ===== src/PageAllocator/Search.antt =====
-- The searches of `page_allocate` and `__page_allocate_single_fast` for free pages.
use ga_os.Base.{
  ℕ, zero, suc, ◌+◌, ◌-◌, ◌*◌, ◌^◌, ◌≤◌, ◌<◌, ◌≡◌, refl, ◌==◌, ltb, Bool-cases, inl, inr, arith,
  true, some, ==→eq, ◌||◌, ap, ◌≢◌,
}
use ga_os.PageAllocator.{
  Bitmap, Pool, page, wrap, truthy, bitmap_get, range_free, search_single, search_range,
  search_pool,
}
use ga_os.PageAllocator.Bitmap.{marked, truthy-bitmap_get, marked-lt_two}

-- The pages from `i` up to `i + k` are free.
abbrev pub IsFree : Bitmap → ℕ → ℕ → Type 0
IsFree b i k = (j : ℕ) → i ≤ j → j < i + k → marked b j ≡ 0

range_free-IsFree : (k : ℕ) (b : Bitmap) (i : ℕ) → range_free k b i ≡ true → IsFree b i k
unfolding range_free
range_free-IsFree zero b i h j lo hi = absurd (omega arith)
range_free-IsFree (suc k) b i h j lo hi = elim (Bool-cases (i == j)) [
  | inl here ↦ rw (← ==→eq i j here) (ground (arith, truthy-bitmap_get b i, marked-lt_two b i))
  | inr past ↦ range_free-IsFree k b (i + 1) (ground arith) j (ground arith) (omega arith)
]

IsFree-range_free : (k : ℕ) (b : Bitmap) (i : ℕ) → IsFree b i k → range_free k b i ≡ true
unfolding range_free
IsFree-range_free zero b i h = refl
IsFree-range_free (suc k) b i h = ground (
  arith,
  truthy-bitmap_get b i,
  h i (omega arith) (omega arith),
  IsFree-range_free k b (i + 1) (λ j lo hi. h j (omega arith) (omega arith)),
)

-- What a search from `i` in a pool finds.
pub record Found (p : Pool) (pages i index : ℕ) : Type 0 where
  pub from : i ≤ index
  pub fits : index + pages ≤ p.bitmap_entries
  pub free : IsFree p.bitmap index pages

-- Addition does not wrap in a search for so few pages in a pool of so few.
pub record IsSmall (p : Pool) (pages : ℕ) : Type 0 where
  pub entries : p.bitmap_entries < 2 ^ 52
  pub request : pages < 2 ^ 52
  pub some_page : 0 < pages

module _ (p : Pool) where
  search_single-Found :
      (k i index : ℕ)
      → i + k ≤ p.bitmap_entries
      → search_single k p.bitmap i ≡ some index
      → Found p 1 i index
  unfolding search_single
  search_single-Found zero i index h e = absurd (cc)
  search_single-Found (suc k) i index h e = elim (Bool-cases (marked p.bitmap i == 1)) [
    | inl full ↦
        let f =
          search_single-Found k (i + 1) index (omega arith)
            (ground (arith, truthy-bitmap_get p.bitmap i)) in
        record { from = omega arith; fits = f.fits; free = f.free }
    | inr clear ↦
        let here : i ≡ index = ground (arith, truthy-bitmap_get p.bitmap i) in
        record {
          from = omega arith;
          fits = omega arith;
          free = λ j lo hi.
              let e' : i ≡ j = omega arith in rw (← e') (ground (arith, marked-lt_two p.bitmap i));
        }
  ]

  later : (pages i index : ℕ) → Found p pages (i + 1) index → Found p pages i index
  later pages i index f = record { from = omega arith; fits = f.fits; free = f.free }

  search_range-Found :
      (k pages i index : ℕ)
      → IsSmall p pages
      → i + k ≤ p.bitmap_entries
      → search_range k p pages i ≡ some index
      → Found p pages i index
  unfolding search_range
  search_range-Found zero pages i index s h e = absurd (cc)
  search_range-Found (suc k) pages i index s h e =
      elim (Bool-cases
        (truthy (bitmap_get p.bitmap i) || ltb p.bitmap_entries (wrap (i + pages)))) [
          | inl skip ↦
              later pages i index
                (search_range-Found k pages (i + 1) index s (omega arith) (ground arith))
          | inr stay ↦ elim (Bool-cases (range_free pages p.bitmap i)) [
            | inl free ↦
                let here : i ≡ index = ground arith in
                rw (← here) (record {
                  from = omega arith;
                  fits = ground arith;
                  free = range_free-IsFree pages p.bitmap i free;
                })
            | inr taken ↦
                later pages i index
                  (search_range-Found k pages (i + 1) index s (omega arith) (ground arith))
          ]
        ]

  -- A search that comes to a free range of the right length ends there or before.
  search_single-ends :
      (k i h : ℕ)
      → i ≤ h
      → h < i + k
      → marked p.bitmap h ≡ 0
      → (index : ℕ) × (search_single k p.bitmap i ≡ some index) × (index ≤ h)
  unfolding search_single
  search_single-ends zero i h lo hi free = absurd (omega arith)
  search_single-ends (suc k) i h lo hi free = elim (Bool-cases (marked p.bitmap i == 1)) [
    | inl full ↦
        let past : i ≢ h = (λ e. omega (arith, ap (marked p.bitmap) e, ==→eq _ 1 full)) in
        let (index, e, le) = search_single-ends k (i + 1) h (omega arith) (omega arith) free in
        (index, ground (arith, truthy-bitmap_get p.bitmap i), le)
    | inr clear ↦ (i, ground (arith, truthy-bitmap_get p.bitmap i), lo)
  ]

  search_range-ends :
      (k pages i h : ℕ)
      → IsSmall p pages
      → i ≤ h
      → h < i + k
      → h + pages ≤ p.bitmap_entries
      → IsFree p.bitmap h pages
      → (index : ℕ) × (search_range k p pages i ≡ some index) × (index ≤ h)
  unfolding search_range
  search_range-ends zero pages i h s lo hi fits free = absurd (omega arith)
  search_range-ends (suc k) pages i h s lo hi fits free =
      elim (Bool-cases
        (truthy (bitmap_get p.bitmap i) || ltb p.bitmap_entries (wrap (i + pages)))) [
          | inl skip ↦ elim (Bool-cases (i == h)) [
            | inl here ↦
                let e = ==→eq i h here in
                let clear : marked p.bitmap i ≡ 0 = rw e (free h (omega arith) (omega arith)) in
                absurd (ground (arith, truthy-bitmap_get p.bitmap i))
            | inr past ↦
                let (index, e, le) =
                  search_range-ends k pages (i + 1) h s (ground arith) (omega arith) fits free in
                (index, ground arith, le)
          ]
          | inr stay ↦ elim (Bool-cases (range_free pages p.bitmap i)) [
            | inl vacant ↦ (i, ground arith, lo)
            | inr taken ↦ elim (Bool-cases (i == h)) [
              | inl here ↦
                  let e = ==→eq i h here in
                  absurd (cc (IsFree-range_free pages p.bitmap i (rw e free)))
              | inr past ↦
                  let (index, e, le) =
                    search_range-ends k pages (i + 1) h s (ground arith) (omega arith) fits free in
                  (index, ground arith, le)
            ]
          ]
        ]

-- What the body of the loop over the pools finds: free pages at or after the hint, inside the
-- bitmap, in a pool that has the bytes.
pub search_pool-Found :
    (p : Pool) (pages index : ℕ)
    → IsSmall p pages
    → p.last_allocated_page_index ≤ p.bitmap_entries
    → search_pool pages p ≡ some index
    → Found p pages p.last_allocated_page_index index × (pages * page ≤ p.available)
unfolding search_pool
search_pool-Found p pages index s hint e =
    elim (Bool-cases (ltb p.available (wrap (pages * page)))) [
      | inl short ↦ absurd (ground arith)
      | inr room ↦ elim (Bool-cases (pages == 1)) [
        | inl one ↦
            let e' = ==→eq pages 1 one in
            (
              rw e' (
                  search_single-Found p (p.bitmap_entries - p.last_allocated_page_index)
                    p.last_allocated_page_index index (omega arith) (ground arith)),
              ground arith,
            )
        | inr many ↦ (
          search_range-Found p (p.bitmap_entries - p.last_allocated_page_index) pages
              p.last_allocated_page_index index s (omega arith) (ground arith),
          ground arith,
        )
      ]
    ]

-- If the pool has the bytes, and enough pages are free at `h`, at or after the hint, then the body
-- of the loop finds pages no later than `h`.
pub search_pool-ends :
    (p : Pool) (pages h : ℕ)
    → IsSmall p pages
    → pages * page ≤ p.available
    → p.last_allocated_page_index ≤ h
    → h + pages ≤ p.bitmap_entries
    → IsFree p.bitmap h pages
    → (index : ℕ) × (search_pool pages p ≡ some index) × (index ≤ h)
unfolding search_pool
search_pool-ends p pages h s room lo fits free = elim (Bool-cases (pages == 1)) [
  | inl one ↦
      let (index, e, le) =
        search_single-ends p (p.bitmap_entries - p.last_allocated_page_index)
          p.last_allocated_page_index h lo (omega arith) (free h (omega arith) (omega arith)) in
      (index, ground arith, le)
  | inr many ↦
      let (index, e, le) =
        search_range-ends p (p.bitmap_entries - p.last_allocated_page_index) pages
          p.last_allocated_page_index h s lo (omega arith) fits free in
      (index, ground arith, le)
]
