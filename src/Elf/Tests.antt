-- ===== src/Elf/Tests.antt =====
-- The header of an executable without segments, and a segment of two pages loaded to an empty page table.
use ga_os.Base.{ℕ, ◌+◌, ◌-◌, ◌≡◌, ◌↔◌, refl, arith, some, List, [], ◌∷◌, get_or, replicate, ◌++◌}
use ga_os.Libc.Strings.{CString}
use ga_os.PageTables.{translate_to_physical, wrap}
use ga_os.PageTables.Sample.{level, empty_table, empty_table-IsTree}
use ga_os.PageTables.Tree.{IsTree}
use ga_os.Elf.{pt_load, ProgramHeader, Image, load_page, failed, elf_load_from}
use ga_os.Elf.Header.{IsExecutable, elf_load_from-failed_iff}
use ga_os.Elf.Segments.{loaded, load_page-loaded}

abbrev file_bytes : List ℕ
file_bytes = 0x7F ∷ b'E' ∷ b'L' ∷ b'F' ∷ 2 ∷ (replicate 11 0 ++ 2 ∷ 0 ∷ 62 ∷ 0 ∷ [])

abbrev sample : CString
sample i = get_or file_bytes i 0

abbrev image : Image
image = record { tables = empty_table; memory = λ a. 0 }

elf_load_from-failed_iff_example :
    (elf_load_from 4096 sample 8192 image ≡ failed) ↔ (IsExecutable sample → ⊥)
elf_load_from-failed_iff_example = elf_load_from-failed_iff 4096 sample 8192 image

abbrev segment : ProgramHeader
segment = record {
  p_type = pt_load;
  p_offset = 0;
  p_vaddr = 0x400000;
  p_filesz = 20;
  p_memsz = 5000;
}

load_page-loaded_example :
    (level' : ℕ → ℕ) × (s' : Image) × (load_page 4096 sample 8192 segment 0 image ≡ some s')
    × IsTree 4096 level' s'.tables
    × (level' 8192 ≡ 4)
    × (translate_to_physical 4096 s'.tables 8192 (wrap (0x400000 + 0)) ≡ 12288 - 4096)
    × ((a : ℕ) → s'.memory a ≡ loaded sample segment 0 12288 image.memory a)
load_page-loaded_example =
    load_page-loaded 4096 level sample 8192 segment 0 12288 (16384 ∷ 20480 ∷ 24576 ∷ []) image
      empty_table-IsTree refl refl (omega arith) (omega arith) (omega arith)
