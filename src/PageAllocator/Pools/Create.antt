-- ===== src/PageAllocator/Pools/Create.antt =====
-- The pools that `page_allocator_init` makes.
use ga_os.Base.{
  ℕ, ◌+◌, ◌-◌, ◌*◌, ◌/◌, ◌%◌, ◌^◌, ◌≤◌, ◌<◌, ◌≡◌, leb, Bool-cases, inl, inr, arith, true, false,
  refl, ◌⊎◌, List, [], ◌∷◌, not, ◌||◌, lt→ltb, le→ltb,
}
use ga_os.Base.Bits.{bit, zero-bit}
use ga_os.PageAllocator.{
  Bitmap, Pool, wrap, page, MemmapEntry, required_bitmap_bytes, create_pool, create_pools,
}
use ga_os.PageAllocator.Bitmap.{marked}
use ga_os.PageAllocator.Pools.{IsValid}
use ga_os.PageAllocator.Pools.Serve.{AllValid}

-- The bitmap is a whole number of pages, at least one bit for each eight pages, and less than a
-- page more.
required_bitmap_bytes_bounds :
    (n : ℕ)
    → (required_bitmap_bytes n % page ≡ 0)
      × (n / page / 8 ≤ required_bitmap_bytes n)
      × (required_bitmap_bytes n < n / page / 8 + page)
unfolding required_bitmap_bytes
required_bitmap_bytes_bounds n = ground arith

-- A region whose bitmap has a bit for each page that can be handed out, in 2 ^ 64 bytes of address
-- space.
pub record Fits (hhdm_offset : ℕ) (e : MemmapEntry) : Type 0 where
  pub big : 128 * 1024 < e.length
  pub ends : e.base + e.length + hhdm_offset < 2 ^ 64
  pub bits : (e.length - required_bitmap_bytes e.length) / page ≤ 8 * required_bitmap_bytes e.length

-- The pool over such a region is valid, with no page handed out, whatever its memory held before.
pub create_pool-IsValid :
    (hhdm_offset : ℕ) (before : Bitmap) (e : MemmapEntry)
    → Fits hhdm_offset e
    → IsValid (create_pool hhdm_offset before e)
unfolding create_pool marked
create_pool-IsValid hhdm_offset before e f =
    let b = required_bitmap_bytes_bounds e.length in
    record {
      high_water = 0;
      paid = omega arith;
      sum = omega arith;
      covered = omega (arith, f.big, b);
      entries = omega (arith, f.ends);
      addresses = omega (arith, f.ends, f.big, b);
      hint = omega arith;
      fresh = λ i lo hi.
          rw (lt→ltb (i / 64) (required_bitmap_bytes e.length / 8) (omega (arith, f.bits, b)))
            (zero-bit (i % 64));
    }

required_bitmap_bytes_short :
    (n k r : ℕ) → r < 8 → n ≡ (32768 * k + r) * page → required_bitmap_bytes n ≡ 4096 * k
unfolding required_bitmap_bytes
required_bitmap_bytes_short n k r hi e = ground arith

-- A region of 32768 k + r pages with 0 < k < r < 8 gets a bitmap that is too short: the bit of page
-- 32768 k, which can be handed out, lies behind it and is whatever the memory there holds.
pub create_pool_short :
    (hhdm_offset : ℕ) (before : Bitmap) (e : MemmapEntry) (k r : ℕ)
    → 0 < k
    → k < r
    → r < 8
    → e.length ≡ (32768 * k + r) * page
    → ((32768 * k + 1) * page ≤ (create_pool hhdm_offset before e).total)
      × (marked (create_pool hhdm_offset before e).bitmap (32768 * k) ≡ bit (before (512 * k)) 0)
unfolding create_pool marked
create_pool_short hhdm_offset before e k r pos lo hi length =
    let bytes : required_bitmap_bytes e.length ≡ 4096 * k =
      required_bitmap_bytes_short e.length k r hi length in
    let word : 32768 * k / 64 ≡ 512 * k = omega arith in
    let place : 32768 * k % 64 ≡ 0 = omega arith in
    (
      omega (arith, bytes),
      rw (place, word)
          (rw (le→ltb (512 * k) (required_bitmap_bytes e.length / 8) (omega (arith, bytes)))),
    )

abbrev pub AllFit : ℕ → List MemmapEntry → Type 0
AllFit hhdm_offset [] = Unit {0}
AllFit hhdm_offset (e ∷ es) =
    ((e.usable ≡ true) → 128 * 1024 < e.length → Fits hhdm_offset e) × AllFit hhdm_offset es

-- The pool of a region begins with its bitmap at the start of the region, in the higher half; behind the bitmap,
-- on a whole number of pages that has a bit for each page, are the pages, up to the end of the region.
pub record IsPlaced (hhdm_offset : ℕ) (e : MemmapEntry) (p : Pool) : Type 0 where
  pub start : p.bitmap_base ≡ e.base + hhdm_offset
  pub behind : p.bitmap_base ≤ p.allocate_base
  pub aligned : (p.allocate_base - p.bitmap_base) % page ≡ 0
  pub bits : p.total / page ≤ 8 * (p.allocate_base - p.bitmap_base)
  pub end : p.allocate_base + p.total ≡ e.base + e.length + hhdm_offset

create_pool-IsPlaced :
    (hhdm_offset : ℕ) (before : Bitmap) (e : MemmapEntry)
    → Fits hhdm_offset e
    → IsPlaced hhdm_offset e (create_pool hhdm_offset before e)
unfolding create_pool
create_pool-IsPlaced hhdm_offset before e f =
    let b = required_bitmap_bytes_bounds e.length in
    let start : wrap (e.base + hhdm_offset) ≡ e.base + hhdm_offset = omega (arith, f.ends) in
    let first : wrap (e.base + required_bitmap_bytes e.length + hhdm_offset)
        ≡ e.base + required_bitmap_bytes e.length + hhdm_offset =
      omega (arith, f.ends, f.big, b) in
    let size : e.base + required_bitmap_bytes e.length + hhdm_offset - (e.base + hhdm_offset)
        ≡ required_bitmap_bytes e.length =
      omega arith in
    rw (start, first)
      (record {
        start = refl;
        behind = omega arith;
        aligned = rw size b.0;
        bits = rw size (omega (arith, f.bits));
        end = omega (arith, f.big, b);
      })

-- Each usable region above 128 KB of a memory map has its pool, in order, and no other region has one.
pub data ArePlaced (hhdm_offset : ℕ) : List MemmapEntry → List Pool → Type 0 where
  no_region : ArePlaced hhdm_offset [] []
  left_out :
      (e : MemmapEntry) {es : List MemmapEntry} {ps : List Pool}
      → (e.usable ≡ false) ⊎ (e.length ≤ 128 * 1024)
      → ArePlaced hhdm_offset es ps
      → ArePlaced hhdm_offset (e ∷ es) ps
  with_pool :
      (e : MemmapEntry) (p : Pool) {es : List MemmapEntry} {ps : List Pool}
      → e.usable ≡ true
      → 128 * 1024 < e.length
      → IsPlaced hhdm_offset e p
      → ArePlaced hhdm_offset es ps
      → ArePlaced hhdm_offset (e ∷ es) (p ∷ ps)

skipped_why :
    (e : MemmapEntry)
    → (not e.usable || leb e.length (128 * 1024)) ≡ true
    → (e.usable ≡ false) ⊎ (e.length ≤ 128 * 1024)
skipped_why e skip = elim (Bool-cases e.usable) [
  | inl used ↦ inr (ground (arith, skip, used))
  | inr unused ↦ inl unused
]

-- If the bitmap of each usable region above 128 KB fits, then just these regions of a memory map get a pool, with
-- the bitmap at the start and the pages from behind it to the end of the region, and all pools are valid.
pub create_pools-AllValid :
    (hhdm_offset : ℕ) (before : ℕ → Bitmap) (es : List MemmapEntry)
    → AllFit hhdm_offset es
    → AllValid (create_pools hhdm_offset before es)
      × ArePlaced hhdm_offset es (create_pools hhdm_offset before es)
unfolding create_pools
create_pools-AllValid hhdm_offset before [] f = (tt, no_region)
create_pools-AllValid hhdm_offset before (e ∷ es) f =
    let (valid, placed) = create_pools-AllValid hhdm_offset before es f.1 in
    elim (Bool-cases (not e.usable || leb e.length (128 * 1024))) [
      | inl skip ↦ rw skip (valid, left_out e (skipped_why e skip) placed)
      | inr keep ↦
          let fits = f.0 (ground arith) (ground arith) in
          rw keep (
            (create_pool-IsValid hhdm_offset (before e.base) e fits, valid),
            with_pool e (create_pool hhdm_offset (before e.base) e) (ground arith) (ground arith)
                (create_pool-IsPlaced hhdm_offset (before e.base) e fits) placed,
          )
    ]
