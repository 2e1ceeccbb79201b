-- ===== src/PageAllocator.antt =====
-- kernel/src/memory/physical/page_allocator.c: physical pages from pools, each with a bitmap.
-- A pool's bitmap is the function from a word's number, counted from `bitmap_base`, to the 64-bit
-- word there. Every operation but `page_reallocate` holds `page_allocator_lock` from its first read
-- to its last write, so it is one step.
pub mod Bitmap
pub mod Search
pub mod Pools
mod Tests
use ga_os.Base.{
  ℕ, zero, suc, ◌+◌, ◌-◌, ◌*◌, ◌/◌, ◌%◌, ◌^◌, bit_and, bit_or, Bool, true, false, not, ◌&&◌, ◌||◌,
  Option, none, some, List, [], ◌∷◌, ◌==◌, ltb, leb, if◌then◌else◌,
}
use ga_os.Base.Bits.{bit_not}
use ga_os.Libc.Memory.{Memory, memcpy, memset}

abbrev pub page : ℕ
page = 4096

-- `uint64_t` arithmetic
abbrev pub wrap : ℕ → ℕ
wrap n = n % 2 ^ 64

abbrev pub Bitmap : Type 0
Bitmap = ℕ → ℕ

-- `page_allocator_pool_t`
pub record Pool : Type 0 where
  pub allocate_base : ℕ
  pub bitmap_base : ℕ
  pub bitmap : Bitmap
  pub used : ℕ
  pub available : ℕ
  pub total : ℕ
  pub bitmap_entries : ℕ
  pub last_allocated_page_index : ℕ

abbrev pub put_word : Bitmap → ℕ → ℕ → Bitmap
put_word b w v i = if i == w then v else b i

pub bitmap_set : Bitmap → ℕ → Bitmap
bitmap_set b index = put_word b (index / 64) (bit_or (b (index / 64)) (2 ^ (index % 64)))

pub bitmap_unset : Bitmap → ℕ → Bitmap
bitmap_unset b index =
    put_word b (index / 64) (bit_and (b (index / 64)) (bit_not 64 (2 ^ (index % 64))))

pub bitmap_get : Bitmap → ℕ → ℕ
bitmap_get b index = bit_and (b (index / 64)) (2 ^ (index % 64))

-- A word as a C condition.
abbrev pub truthy : ℕ → Bool
truthy w = not (w == 0)

-- The search of `__page_allocate_single_fast` from `index`, with the rounds left.
pub search_single : ℕ → Bitmap → ℕ → Option ℕ
search_single zero b index = none
search_single (suc k) b index =
    let rest = search_single k b (index + 1) in
    if truthy (bitmap_get b index) then rest else some index

-- Whether the pages from `index` on are free: `goto try_next` is the answer `false`.
pub range_free : ℕ → Bitmap → ℕ → Bool
range_free zero b index = true
range_free (suc k) b index =
    let rest = range_free k b (index + 1) in if truthy (bitmap_get b index) then false else rest

-- The search of `page_allocate` for `pages` pages from `index`, with the rounds left.
pub search_range : ℕ → Pool → ℕ → ℕ → Option ℕ
search_range zero p pages index = none
search_range (suc k) p pages index =
    let rest = search_range k p pages (index + 1) in
    if truthy (bitmap_get p.bitmap index) || ltb p.bitmap_entries (wrap (index + pages))
    then rest
    else if range_free pages p.bitmap index
    then some index
    else rest

pub set_range : ℕ → Bitmap → ℕ → Bitmap
set_range zero b index = b
set_range (suc k) b index = set_range k (bitmap_set b index) (index + 1)

-- Mark the pages and update the metadata.
pub take_range : Pool → ℕ → ℕ → Pool
take_range p pages index = record p {
  bitmap = set_range pages p.bitmap index;
  used = wrap (p.used + wrap (pages * page));
  available = p.available - wrap (pages * page);
  last_allocated_page_index = index;
}

-- The body of the loop over the pools: the index found in this pool, or `none` for `continue`.
pub search_pool : ℕ → Pool → Option ℕ
search_pool pages p =
    if ltb p.available (wrap (pages * page))
    then none
    else if pages == 1
    then search_single (p.bitmap_entries - p.last_allocated_page_index) p.bitmap
        p.last_allocated_page_index
    else search_range (p.bitmap_entries - p.last_allocated_page_index) p pages
        p.last_allocated_page_index

pub allocate_from : ℕ → List Pool → Option (ℕ × List Pool)
allocate_from pages [] = none
allocate_from pages (p ∷ ps) = elim (search_pool pages p) [
  | some index ↦ some (wrap (p.allocate_base + index * page), take_range p pages index ∷ ps)
  | none ↦ elim (allocate_from pages ps) [ none ↦ none | some r ↦ some (r.0, p ∷ r.1) ]
]

pub record Allocator : Type 0 where
  pub pools : List Pool
  pub memory : Memory

pub data Outcome (A : Type 0) : Type 0 where
  done : A → Allocator → Outcome A
  panic : Outcome A

-- `arch_zero_pages(pointer, pages)`, written in assembly, clears the pages that are handed out.
pub page_allocate : ℕ → Allocator → Outcome ℕ
page_allocate requested s =
    let pages : ℕ = if requested == 0 then 1 else requested in
    elim (allocate_from pages s.pools) [
      | none ↦ panic
      | some r ↦ done r.0 (record { pools = r.1; memory = memset r.0 0 (pages * page) s.memory })
    ]

-- The loop of `page_deallocate`; a page that is free already is reported and skipped.
pub unset_range : ℕ → Bitmap → ℕ → Bitmap
unset_range zero b index = b
unset_range (suc k) b index =
    unset_range k (if truthy (bitmap_get b index) then bitmap_unset b index else b) (index + 1)

pub deallocate_from : List Pool → ℕ → ℕ → List Pool
deallocate_from [] base pages = []
deallocate_from (p ∷ ps) base pages =
    if leb p.allocate_base base && leb base (wrap (p.allocate_base + p.total))
    then record p { bitmap = unset_range pages p.bitmap ((base - p.allocate_base) / page) } ∷ ps
    else p ∷ deallocate_from ps base pages

pub page_deallocate : ℕ → ℕ → Allocator → Allocator
page_deallocate base pages s = record s { pools = deallocate_from s.pools base pages }

pub page_reallocate : ℕ → ℕ → ℕ → Allocator → Outcome ℕ
page_reallocate base old_pages new_pages s = elim (page_allocate new_pages s) [
  | panic ↦ panic
  | done new_base t ↦ done new_base (
      page_deallocate base old_pages
        (record t { memory = memcpy new_base base (wrap (old_pages * page)) t.memory }))
]

pub page_count_free : List Pool → ℕ
page_count_free [] = 0
page_count_free (p ∷ ps) = wrap (p.available + page_count_free ps)

pub page_count_used : List Pool → ℕ
page_count_used [] = 0
page_count_used (p ∷ ps) = wrap (p.used + page_count_used ps)

pub page_count_total : List Pool → ℕ
page_count_total [] = 0
page_count_total (p ∷ ps) = wrap (p.total + page_count_total ps)

-- The bytes of a bitmap for a region of `length` bytes, rounded up to whole pages.
pub required_bitmap_bytes : ℕ → ℕ
required_bitmap_bytes length =
    let bytes : ℕ = length / page / 8 in
    if bytes % page == 0 then bytes else bytes + (page - bytes % page)

-- An entry of the boot loader's memory map.
pub record MemmapEntry : Type 0 where
  pub base : ℕ
  pub length : ℕ
  pub usable : Bool

-- The pool over one region; `before` is what its memory holds, of which `zero64` clears the bitmap.
pub create_pool : ℕ → Bitmap → MemmapEntry → Pool
create_pool hhdm_offset before e =
    let bytes = required_bitmap_bytes e.length in
    record {
      allocate_base = wrap (e.base + bytes + hhdm_offset);
      bitmap_base = wrap (e.base + hhdm_offset);
      bitmap = λ w. if ltb w (bytes / 8) then 0 else before w;
      used = 0;
      available = e.length - bytes;
      total = e.length - bytes;
      bitmap_entries = e.length / page;
      last_allocated_page_index = 0;
    }

-- Regions that are in use, or not larger than 128 KB, get no pool. `before` gives, for the base of a
-- region, the words that its memory holds.
pub create_pools : ℕ → (ℕ → Bitmap) → List MemmapEntry → List Pool
create_pools hhdm_offset before [] = []
create_pools hhdm_offset before (e ∷ es) =
    let rest = create_pools hhdm_offset before es in
    if not e.usable || leb e.length (128 * 1024)
    then rest
    else create_pool hhdm_offset (before e.base) e ∷ rest
