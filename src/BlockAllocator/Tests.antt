-- ===== src/BlockAllocator/Tests.antt =====
-- A heap of one page.
use ga_os.BlockAllocator.{Blocks, block_signature}

-- A busy block of 64 bytes at 4096.
abbrev one_busy : Blocks
one_busy = record {
  headers = λ a. record { signature = block_signature; size = 64; next = 0; previous = 0 };
  free_list_start = 0;
  busy_list_start = 4096;
  virtual_base = 4096;
  current_virtual_address = 8192;
  memory = λ a. 5;
}
