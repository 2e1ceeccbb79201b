-- ===== src/Syscalls/Fork/Tests.antt =====
-- A page at 1 MiB of the parent is copied to an empty page table, and two of three descriptors are inherited.
use ga_os.Base.{
  ℕ, ◌+◌, ◌-◌, ◌≤◌, ◌<◌, ◌≡◌, ◌⊎◌, refl, ◌==◌, if◌then◌else◌, arith, inl, some, none, [], ◌∷◌,
}
use ga_os.PageTables.{get_address, layer_of, translate_to_physical}
use ga_os.PageTables.Sample.{level, empty_table, empty_table-IsTree}
use ga_os.PageTables.Tree.{IsTree}
use ga_os.Elf.{page, Image}
use ga_os.Filesystem.Vfs.{FsOps, Handle, returned}
use ga_os.Syscalls.{copy_fds}
use ga_os.Syscalls.Fork.{copy_page}
use ga_os.Syscalls.Fork.Inherited.{CanCopy, IsInherited, copy_fds-IsInherited}
use ga_os.Syscalls.Fork.Pages.{copy_page-copied}

abbrev parent_page : ℕ
parent_page = 0x100007

abbrev image : Image
image = record { tables = empty_table; memory = λ a. 0 }

layer_of-parent_page : layer_of 4096 parent_page ≡ 0x101000
unfolding layer_of get_address
layer_of-parent_page = refl

far : 12288 + page ≤ layer_of 4096 parent_page
far = rw layer_of-parent_page (omega arith)

copy_page-copied_example :
    (level' : ℕ → ℕ) × (s' : Image) × (copy_page 4096 8192 0x400000 parent_page image ≡ some s')
    × IsTree 4096 level' s'.tables
    × (level' 8192 ≡ 4)
    × (translate_to_physical 4096 s'.tables 8192 0x400000 ≡ 12288 - 4096)
    × ((i : ℕ) → i < page → s'.memory (12288 + i) ≡ image.memory (layer_of 4096 parent_page + i))
    × ((a : ℕ) → (a < 12288) ⊎ (12288 + page ≤ a) → s'.memory a ≡ image.memory a)
copy_page-copied_example =
    copy_page-copied 4096 level 8192 0x400000 parent_page 12288 (16384 ∷ 20480 ∷ 24576 ∷ []) image
      empty_table-IsTree refl refl (omega arith) (inl far)

-- Copies of nodes are counted in the state and numbered by it.
abbrev counting : FsOps ℕ ℕ
counting = record {
  name = b'c' ∷ [];
  on_open = none;
  on_read = none;
  on_write = none;
  on_lseek = none;
  on_close = none;
  on_dup = some (λ file s. (file + s, s + 1));
  async_task_register = none;
  async_task_update = none;
  async_task_unregister = none;
}

abbrev nodes : ℕ → Handle ℕ ℕ
nodes p = record { file = p; fs = counting }

abbrev parent_slots : ℕ → ℕ
parent_slots i = if i == 1 then 0 else 9

abbrev fresh : ℕ → ℕ
fresh i = 100 + i

nodes-CanCopy : CanCopy 3 0 fresh parent_slots nodes
nodes-CanCopy = record {
  distinct = λ j k e. omega arith;
  apart = λ j k. ground arith;
  dup = λ j ge lt at. ((λ file s. (file + s, s + 1)), refl);
}

copy_fds-IsInherited_example :
    (child' : ℕ → ℕ) × (nodes' : ℕ → Handle ℕ ℕ) × (s' : ℕ) × (copy_fds 3 0 fresh parent_slots
        (λ i. 0)
        nodes
        0
      ≡ returned (child', nodes', s'))
    × IsInherited 3 0 fresh parent_slots (λ i. 0) child' nodes nodes' 0 s'
copy_fds-IsInherited_example =
    copy_fds-IsInherited fresh parent_slots 3 0 (λ i. 0) nodes 0 nodes-CanCopy
