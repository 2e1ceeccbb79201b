-- ===== src/PageAllocator/Tests.antt =====
-- The page allocator on concrete pools.
use ga_os.Base.{◌*◌, ◌%◌, ◌≡◌, ◌↔◌, refl, arith, true, [], ◌∷◌, some}
use ga_os.Libc.Memory.{memset}
use ga_os.PageAllocator.{
  Pool, page, Allocator, done, panic, search_pool, search_single, bitmap_get, take_range,
  allocate_from, page_allocate, deallocate_from, MemmapEntry, create_pools, required_bitmap_bytes,
}
use ga_os.Base.Bits.{zero-bit}
use ga_os.PageAllocator.Bitmap.{marked}
use ga_os.PageAllocator.Pools.{IsValid, take_range-IsGrant}
use ga_os.PageAllocator.Pools.Serve.{
  AllValid, NoRoom, Served, here, at_least_one, IsAllocation, page_allocate-IsAllocation,
  page_allocate-panic_iff,
}
use ga_os.PageAllocator.Pools.Return.{SameMarks, deallocate_from-Served}
use ga_os.PageAllocator.Pools.Create.{Fits, ArePlaced, create_pools-AllValid}

-- Two free pages at 8192.
abbrev two_pages : Pool
two_pages = record {
  allocate_base = 8192;
  bitmap_base = 4096;
  bitmap = λ w. 0;
  used = 0;
  available = 8192;
  total = 8192;
  bitmap_entries = 2;
  last_allocated_page_index = 0;
}

abbrev start : Allocator
start = record { pools = two_pages ∷ []; memory = λ a. 7 }

abbrev one_taken : Allocator
one_taken = record { pools = take_range two_pages 1 0 ∷ []; memory = memset 8192 0 4096 (λ a. 7) }

two_pages-IsValid : IsValid two_pages
unfolding marked
two_pages-IsValid = record {
  high_water = 0;
  paid = omega arith;
  sum = omega arith;
  covered = omega arith;
  entries = omega arith;
  addresses = omega arith;
  hint = omega arith;
  fresh = λ i lo hi. zero-bit (i % 64);
}

search_pool_two : search_pool 1 two_pages ≡ some 0
unfolding search_pool search_single bitmap_get
search_pool_two = refl

page_allocate-start : page_allocate 1 start ≡ done 8192 one_taken
unfolding page_allocate allocate_from search_pool search_single bitmap_get
page_allocate-start = refl

page_allocate-IsAllocation_example : IsAllocation 1 start 8192 one_taken
page_allocate-IsAllocation_example =
    page_allocate-IsAllocation 1 start 8192 one_taken (omega arith) (two_pages-IsValid, tt)
      page_allocate-start

page_allocate-panic_iff_example :
    (page_allocate 3 start ≡ panic) ↔ NoRoom (at_least_one 3 * page) start.pools
page_allocate-panic_iff_example =
    page_allocate-panic_iff 3 start (omega arith) (two_pages-IsValid, tt)

Served-two : Served 1 (two_pages ∷ []) 8192 (take_range two_pages 1 0 ∷ [])
Served-two =
    here 0
      (take_range-IsGrant two_pages 1 0 two_pages-IsValid (omega arith) (omega arith)
        search_pool_two).0
      refl

deallocate_from-Served_example :
    SameMarks (two_pages ∷ []) (deallocate_from (take_range two_pages 1 0 ∷ []) 8192 1)
deallocate_from-Served_example =
    deallocate_from-Served (omega arith) (two_pages-IsValid, tt) (tt, tt) Served-two

abbrev megabyte : MemmapEntry
megabyte = record { base = 4096; length = 1048576; usable = true }

megabyte-Fits : Fits 0 megabyte
unfolding required_bitmap_bytes
megabyte-Fits = record { big = omega arith; ends = omega arith; bits = omega arith }

create_pools-AllValid_example :
    AllValid (create_pools 0 (λ b w. 5) (megabyte ∷ []))
    × ArePlaced 0 (megabyte ∷ []) (create_pools 0 (λ b w. 5) (megabyte ∷ []))
create_pools-AllValid_example =
    create_pools-AllValid 0 (λ b w. 5) (megabyte ∷ []) (ground (arith, megabyte-Fits))
