-- ===== src/BlockAllocator.antt =====
-- kernel/src/memory/physical/block_allocator.c: blocks of any size in virtual memory behind the mapped
-- physical memory, on a list of free and a list of busy blocks. The headers are known by their
-- addresses, with 0 for `nullptr`; `memory` is the bytes between them. The pages behind a new block
-- come from `page_allocate` and `arch_table_manager_map_range`, which are left out, so what a new block
-- holds is zero. Every operation holds the lock of the lists, so it is one step.
pub mod Reuse
mod Tests
use ga_os.Base.{
  ℕ, zero, suc, ◌+◌, ◌-◌, ◌*◌, ◌/◌, ◌%◌, ◌^◌, bit_and, Option, none, some, ◌==◌, ◌&&◌, not, ltb,
  leb, if◌then◌else◌,
}
use ga_os.Libc.Memory.{Memory, memset}

abbrev pub page : ℕ
page = 4096

abbrev pub wrap : ℕ → ℕ
wrap n = n % 2 ^ 64

abbrev pub block_minimum_allocation : ℕ
block_minimum_allocation = 16

abbrev pub block_signature : ℕ
block_signature = 0x7B3CC1F2D2FACAE0

-- sizeof(block_header_t), with the alignment of `previous`
abbrev pub header_bytes : ℕ
header_bytes = 48

-- `block_header_t`
pub record BlockHeader : Type 0 where
  pub signature : ℕ
  pub size : ℕ
  pub next : ℕ
  pub previous : ℕ

abbrev pub Headers : Type 0
Headers = ℕ → BlockHeader

abbrev pub put_header : Headers → ℕ → BlockHeader → Headers
put_header h b v a = if a == b then v else h a

pub record Blocks : Type 0 where
  pub headers : Headers
  pub free_list_start : ℕ
  pub busy_list_start : ℕ
  pub virtual_base : ℕ
  pub current_virtual_address : ℕ
  pub memory : Memory

-- `block->next = v` and `block->previous = v` behind a test for null.
abbrev pub set_next : Headers → ℕ → ℕ → Headers
set_next h b v = if b == 0 then h else put_header h b (record (h b) { next = v })

abbrev pub set_previous : Headers → ℕ → ℕ → Headers
set_previous h b v = if b == 0 then h else put_header h b (record (h b) { previous = v })

-- `block_allocator_push_block`: the headers after it; the block is the new start of the list.
pub push_block : ℕ → ℕ → Headers → Headers
push_block start block h =
    set_previous (put_header h block (record (h block) { next = start; previous = 0 })) start block

pub remove_block_from_list : ℕ → Blocks → Blocks
remove_block_from_list block s =
    let h1 = set_next s.headers (s.headers block).previous (s.headers block).next in
    let h2 = set_previous h1 (h1 block).next (h1 block).previous in
    record s {
      headers = put_header h2 block (record (h2 block) { next = 0; previous = 0 });
      free_list_start = if block == s.free_list_start then (h2 block).next else s.free_list_start;
      busy_list_start = if block == s.busy_list_start then (h2 block).next else s.busy_list_start;
    }

pub move_to_free_list : ℕ → Blocks → Blocks
move_to_free_list block s =
    let t = remove_block_from_list block s in
    record t { headers = push_block t.free_list_start block t.headers; free_list_start = block }

pub move_to_busy_list : ℕ → Blocks → Blocks
move_to_busy_list block s =
    let t = remove_block_from_list block s in
    record t { headers = push_block t.busy_list_start block t.headers; busy_list_start = block }

-- `(address + PAGE - 1) & ~(PAGE - 1)`
pub align_page : ℕ → ℕ
align_page address = bit_and (wrap (address + page - 1)) (2 ^ 64 - page)

-- `block_allocator_allocate_block`
pub allocate_block : ℕ → Blocks → ℕ × Blocks
allocate_block pages s =
    let base = align_page s.current_virtual_address in
    (
      base,
      record s {
        current_virtual_address = wrap (base + pages * page);
        headers = put_header s.headers base (record {
          signature = block_signature;
          size = wrap (pages * page + (2 ^ 64 - header_bytes));
          next = 0;
          previous = 0;
        });
      },
    )

-- `block_allocator_create_free_block`
pub create_free_block : ℕ → Blocks → ℕ × Blocks
create_free_block pages s =
    let r = allocate_block pages s in
    let b : ℕ = r.0 in
    let t = r.1 in
    if t.free_list_start == 0
    then (b, record t { free_list_start = b })
    else (b, record t { headers = push_block t.free_list_start b t.headers; free_list_start = b })

pub find_lowest_free_virtual_address : (base length hhdm_offset : ℕ) → Blocks → Blocks
find_lowest_free_virtual_address base length hhdm_offset s =
    let lowest = align_page (wrap (base + length + hhdm_offset)) in
    record s { virtual_base = lowest; current_virtual_address = lowest }

pub block_allocator_init : (base length hhdm_offset : ℕ) → Blocks → Blocks
block_allocator_init base length hhdm_offset s =
    let r = create_free_block 1 (find_lowest_free_virtual_address base length hhdm_offset s) in r.1

-- The size that is served: 16 bytes at least, and a multiple of 16.
pub rounded_size : ℕ → ℕ
rounded_size size =
    let clamped : ℕ =
      if ltb size block_minimum_allocation then block_minimum_allocation else size in
    if clamped % 16 == 0 then clamped else wrap (clamped + (16 - clamped % 16))

-- while (current_block && current_block->size < size) current_block = current_block->next; with fuel.
pub find_block : ℕ → ℕ → Headers → ℕ → Option ℕ
find_block zero size h block = none
find_block (suc fuel) size h block =
    let rest = find_block fuel size h (h block).next in
    if not (block == 0) && ltb (h block).size size then rest else some block

-- The block behind the first `size` bytes of a block that is larger.
pub split_block : ℕ → ℕ → Headers → Headers
split_block size block h =
    if not (ltb (wrap (size + header_bytes + block_minimum_allocation)) (h block).size)
    then h
    else (let new_block : ℕ = block + header_bytes + size in
        let clamped = put_header h block (record (h block) { size = size }) in
        let filled = put_header clamped new_block (record {
          size = (h block).size - size - header_bytes;
          next = (clamped block).next;
          previous = block;
          signature = block_signature;
        }) in
        let linked = set_previous filled (filled new_block).next new_block in
        put_header linked block (record (linked block) { next = new_block }))

-- The address of the contents, or `none` when the search ran out of fuel.
pub block_allocate : ℕ → ℕ → Blocks → Option (ℕ × Blocks)
block_allocate fuel requested s =
    let size = rounded_size requested in
    elim (find_block fuel size s.headers s.free_list_start) [
      | none ↦ none
      | some candidate ↦
          let r : ℕ × Blocks =
            if candidate == 0
            then create_free_block (wrap (wrap (size + header_bytes) + page - 1) / page) s
            else (candidate, s) in
          let block : ℕ = r.0 in
          let t = r.1 in
          let busy =
            move_to_busy_list block (record t { headers = split_block size block t.headers }) in
          some (
            block + header_bytes,
            record busy { memory = memset (block + header_bytes) 0 size busy.memory },
          )
    ]

pub block_deallocate : ℕ → Blocks → Blocks
block_deallocate block s =
    let header : ℕ = wrap (block + (2 ^ 64 - header_bytes)) in
    if block == 0
    then s
    else if not ((s.headers header).signature == block_signature)
    then s
    else if ltb s.virtual_base block && ltb block s.current_virtual_address
    then move_to_free_list header s
    else s
