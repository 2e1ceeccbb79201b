-- ===== src/Elf.antt =====
-- kernel/src/executables/elf.c: an executable is checked, its segments are put into new pages that a new page
-- table maps, and a task starts at its entry. `file` gives the byte at an offset of the node, so the calls of
-- `vfs_lseek` and `vfs_read` are reads of it; the source does not look at what they return. The task that
-- `task_scheduler_create` gives is left out: `Start` is what is put into it.
pub mod Header
pub mod Segments
mod Tests
use ga_os.Base.{
  ℕ, zero, suc, ◌+◌, ◌-◌, ◌*◌, ◌/◌, ◌%◌, ◌^◌, ◌&&◌, ◌||◌, not, Bool, true, false, Option, none,
  some, List, [], ◌∷◌, ◌==◌, ltb, leb, if◌then◌else◌, bit_or,
}
use ga_os.Libc.Memory.{Memory, store, memcmp}
use ga_os.Libc.Strings.{CString, skip, is_zero}
use ga_os.Libc.Integers.{number_at}
use ga_os.PageTables.{Tables, put_entry, clear_layer, map, wrap}

abbrev pub page : ℕ
page = 4096

abbrev pub elf_magic : CString
elf_magic i =
    if i == 0
    then 0x7F
    else if i == 1
    then b'E'
    else if i == 2
    then b'L'
    else if i == 3
    then b'F'
    else 0

abbrev pub elf_data_2msb : ℕ
elf_data_2msb = 2

abbrev pub et_exec : ℕ
et_exec = 2

abbrev pub em_x86_64 : ℕ
em_x86_64 = 62

abbrev pub pt_load : ℕ
pt_load = 1

-- The fields of `Elf64_Ehdr` that are read; e_ident[4] is `object_size`.
pub record FileHeader : Type 0 where
  pub e_ident : CString
  pub e_type : ℕ
  pub e_machine : ℕ
  pub e_entry : ℕ
  pub e_phoff : ℕ
  pub e_phnum : ℕ

-- The fields of `Elf64_Phdr` that are read.
pub record ProgramHeader : Type 0 where
  pub p_type : ℕ
  pub p_offset : ℕ
  pub p_vaddr : ℕ
  pub p_filesz : ℕ
  pub p_memsz : ℕ

pub read_header : CString → FileHeader
read_header file = record {
  e_ident = file;
  e_type = number_at 2 (skip file 16);
  e_machine = number_at 2 (skip file 18);
  e_entry = number_at 8 (skip file 24);
  e_phoff = number_at 8 (skip file 32);
  e_phnum = number_at 2 (skip file 56);
}

-- e_phoff + sizeof(Elf64_Phdr) * i
pub read_program_header : CString → FileHeader → ℕ → ProgramHeader
read_program_header file h i =
    let at = wrap (h.e_phoff + 56 * i) in
    record {
      p_type = number_at 4 (skip file at);
      p_offset = number_at 8 (skip file (at + 8));
      p_vaddr = number_at 8 (skip file (at + 16));
      p_filesz = number_at 8 (skip file (at + 32));
      p_memsz = number_at 8 (skip file (at + 40));
    }

-- The four tests of the header.
pub is_executable : FileHeader → Bool
is_executable h =
    if not (is_zero (memcmp h.e_ident elf_magic 4))
    then false
    else if not (h.e_ident 4 == elf_data_2msb)
    then false
    else if not (h.e_type == et_exec)
    then false
    else h.e_machine == em_x86_64

-- A round of the first loop.
pub lower_base : ProgramHeader → ℕ → ℕ
lower_base p base_address =
    if not (p.p_type == pt_load)
    then base_address
    else if ltb p.p_vaddr base_address
    then p.p_vaddr
    else base_address

-- The first loop, for `rounds` headers from number `i` on.
pub base_from : CString → FileHeader → (rounds i base_address : ℕ) → ℕ
base_from file h zero i base_address = base_address
base_from file h (suc rounds) i base_address =
    base_from file h rounds (i + 1) (lower_base (read_program_header file h i) base_address)

-- `abs` of the low half of a word, as an `int`: `none` for -2 ^ 31, which has no absolute value.
abbrev pub abs : ℕ → Option ℕ
abs w =
    if ltb (w % 2 ^ 32) (2 ^ 31)
    then some (w % 2 ^ 32)
    else if w % 2 ^ 32 == 2 ^ 31
    then none
    else some (2 ^ 32 - w % 2 ^ 32)

-- What is to be loaded to the page at `i`: nothing where the difference is below `-PAGE`, or so many bytes. A
-- `long long` is a word here, so the negative numbers are those from 2 ^ 63 on.
pub data LoadSize : Type 0 where
  skipped : LoadSize
  overflow : LoadSize
  bytes : ℕ → LoadSize

pub load_size : (filesz i : ℕ) → LoadSize
load_size filesz i =
    let left = wrap (filesz + (2 ^ 64 - i)) in
    if leb (2 ^ 63) left && ltb left (2 ^ 64 - page)
    then skipped
    else elim (abs left) [ none ↦ overflow | some n ↦ bytes (if ltb page n then page else n) ]

-- `vfs_read` of `n` bytes at `offset` to `dest`.
pub read_file : CString → ℕ → (dest offset : ℕ) → Memory → Memory
read_file file zero dest offset m = m
read_file file (suc n) dest offset m =
    read_file file n (dest + 1) (offset + 1) (store m dest (file offset))

-- What is loaded to the page `new` at offset `i` of the segment; `none` is the overflow of `abs`.
pub fill_page : CString → ProgramHeader → (new i : ℕ) → Memory → Option Memory
fill_page file p new i m = elim (load_size p.p_filesz i) [
  | skipped ↦ some m
  | overflow ↦ none
  | bytes n ↦ some (read_file file n new (wrap (p.p_offset + i)) m)
]

abbrev pub clear_page : ℕ → Memory → Memory
clear_page new m a = if leb new a && ltb a (new + page) then 0 else m a

-- The pages and what is in them.
pub record Image : Type 0 where
  pub tables : Tables
  pub memory : Memory

-- `page_allocate(1)`: `none` is a panic. The page is clear.
unfoldable pub take_page : Image → Option (ℕ × Image)
take_page s = elim (s.tables.frames) [
  | [] ↦ none
  | new ∷ rest ↦ some (
    new,
    record {
      tables = record { entries = clear_layer s.tables.entries new; frames = rest };
      memory = clear_page new s.memory;
    },
  )
]

-- TABLE_ENTRY_USER | TABLE_ENTRY_READ_WRITE
abbrev pub page_flags : ℕ
page_flags = 6

-- ... | TABLE_ENTRY_NO_EXECUTE
abbrev pub stack_flags : ℕ
stack_flags = 2 ^ 63 + 6

-- The registers and the top of the stack of the new task.
pub record Start : Type 0 where
  pub cr3 : ℕ
  pub rip : ℕ
  pub rflags : ℕ
  pub rsp : ℕ
  pub cs : ℕ
  pub ss : ℕ
  pub virtual_stack_top : ℕ

pub data Loading : Type 0 where
  failed : Loading
  panic : Loading
  started : Start → Image → Loading

module _ (hhdm_offset : ℕ) where
  abbrev pub physical : ℕ → ℕ
  physical address = wrap (address + (2 ^ 64 - hhdm_offset))

  -- A round of the loop over the pages of a segment; `none` is a panic or the overflow.
  pub load_page : CString → (table : ℕ) → ProgramHeader → (i : ℕ) → Image → Option Image
  load_page file table p i s = elim (take_page s) [
    | none ↦ none
    | some (new, s') ↦
        elim (map hhdm_offset s'.tables table (wrap (p.p_vaddr + i)) (physical new) page_flags) [
          | none ↦ none
          | some tables ↦ elim (fill_page file p new i s'.memory) [
            | none ↦ none
            | some memory ↦ some (record { tables = tables; memory = memory })
          ]
        ]
  ]

  -- for (i = ...; i <= memsize; i += PAGE), for the rounds that are left.
  pub load_pages : CString → (table : ℕ) → ProgramHeader → (rounds i : ℕ) → Image → Option Image
  load_pages file table p zero i s = some s
  load_pages file table p (suc rounds) i s = elim (load_page file table p i s) [
    | none ↦ none
    | some s' ↦ load_pages file table p rounds (i + page) s'
  ]

  -- The second loop over the headers.
  pub load_segments : CString → FileHeader → (table rounds i : ℕ) → Image → Option Image
  load_segments file h table zero i s = some s
  load_segments file h table (suc rounds) i s =
      let p = read_program_header file h i in
      let rest = load_segments file h table rounds (i + 1) s in
      if not (p.p_type == pt_load)
      then rest
      else elim (load_pages file table p (p.p_memsz / page + 1) 0 s) [
        | none ↦ none
        | some s' ↦ load_segments file h table rounds (i + 1) s'
      ]

  -- The entries from `i` on of the bootstrap table are copied.
  pub copy_entries : (table bootstrap rounds i : ℕ) → (ℕ → ℕ → ℕ) → ℕ → ℕ → ℕ
  copy_entries table bootstrap zero i entries = entries
  copy_entries table bootstrap (suc rounds) i entries =
      copy_entries table bootstrap rounds (i + 1) (put_entry entries table i (entries bootstrap i))

  pub start_at : (table entry stack_base : ℕ) → Start
  start_at table entry stack_base = record {
    cr3 = physical table;
    rip = entry;
    rflags = 0x202;
    rsp = wrap (stack_base + page - 8);
    cs = bit_or (8 * 4) 3;
    ss = bit_or (8 * 3) 3;
    virtual_stack_top = wrap (stack_base + page);
  }

  -- The higher half of the new page table is that of the bootstrap table.
  abbrev pub with_higher_half : (bootstrap table : ℕ) → Image → Image
  with_higher_half bootstrap table s = record s {
    tables = record s.tables {
      entries = copy_entries table bootstrap 0x100 0x100 s.tables.entries;
    };
  }

  -- What follows once the new page table is there.
  pub load_into : CString → FileHeader → (bootstrap table : ℕ) → Image → Loading
  load_into file h bootstrap table s =
      let base_address = base_from file h h.e_phnum 0 (2 ^ 64 - 1) in
      let stack_base = wrap (base_address + (2 ^ 64 - page)) in
      elim (load_segments file h table h.e_phnum 0 (with_higher_half bootstrap table s)) [
        | none ↦ panic
        | some loaded ↦ elim (take_page loaded) [
          | none ↦ panic
          | some (stack, s') ↦
              elim (map hhdm_offset s'.tables table stack_base (physical stack) stack_flags) [
                | none ↦ panic
                | some tables ↦
                    started (start_at table h.e_entry stack_base) (record s' { tables = tables })
              ]
        ]
      ]

  -- `elf_load_from`; `failed` is `false`.
  pub elf_load_from : CString → (bootstrap : ℕ) → Image → Loading
  elf_load_from file bootstrap s =
      let h = read_header file in
      if not (is_executable h) then failed else elim (take_page s) [
        | none ↦ panic
        | some (table, s') ↦ load_into file h bootstrap table s'
      ]
