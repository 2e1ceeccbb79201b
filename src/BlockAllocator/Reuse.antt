-- ===== src/BlockAllocator/Reuse.antt =====
-- Freeing a block and allocating again.
use ga_os.Base.{ℕ, ◌+◌, ◌-◌, ◌%◌, ◌^◌, ◌≤◌, ◌<◌, ◌≡◌, arith}
use ga_os.BlockAllocator.{rounded_size}

-- 16 bytes at least, a multiple of 16, and less than 16 bytes more than asked for above that.
pub rounded_size_bounds :
    (n : ℕ)
    → n < 2 ^ 64 - 16
    → (n ≤ rounded_size n)
      × (16 ≤ rounded_size n)
      × (rounded_size n % 16 ≡ 0)
      × (rounded_size n < n + 32)
unfolding rounded_size
rounded_size_bounds n lt = ground arith
