-- ===== src/Elf/Segments.antt =====
-- What kernel/src/executables/elf.c loads to a page of a segment.
use ga_os.Base.{
  ℕ, zero, suc, ◌+◌, ◌-◌, ◌^◌, ◌≤◌, ◌<◌, ◌≡◌, refl, arith, Bool-cases, ap, inl, inr, ◌==◌, ltb, leb,
  ◌&&◌, ◌⊎◌, if◌then◌else◌, min, ==→eq, true, false, length, List, ◌∷◌, some,
}
use ga_os.Libc.Memory.{Memory, store}
use ga_os.Libc.Strings.{CString}
use ga_os.PageTables.{Tables, wrap, map, translate_to_physical, clear_layer}
use ga_os.PageTables.Tree.{IsTree, AllFresh, with_level, clear_layer-IsTree}
use ga_os.PageTables.RoundTrip.{translate_to_physical-map}
use ga_os.Elf.{
  page, abs, bytes, skipped, page_flags, ProgramHeader, Image, load_size, read_file, fill_page,
  clear_page, take_page, physical, load_page,
}

-- How many bytes behind the offset `i` of a segment are those of the file: the rest of the file's part, at most a
-- page; behind the file's part as many as `i` is past its end, for up to a page past it; none from there on.
abbrev pub file_bytes : (filesz i : ℕ) → ℕ
file_bytes filesz i =
    if leb i filesz then min (filesz - i) page else if leb i (filesz + page) then i - filesz else 0

-- Which of the cases of `load_size` it is, for sizes below 2 ^ 31.
load_size_cases :
    (filesz i : ℕ)
    → filesz < 2 ^ 31
    → i < 2 ^ 31
    → (load_size filesz i ≡ bytes (file_bytes filesz i))
      ⊎ ((load_size filesz i ≡ skipped) × (file_bytes filesz i ≡ 0))
unfolding load_size
load_size_cases filesz i small small' = elim (Bool-cases (leb i filesz)) [
  | inl inside ↦
      let left : wrap (filesz + (2 ^ 64 - i)) ≡ filesz - i = ground (arith, inside, small) in
      let low : abs (filesz - i) ≡ some (filesz - i) = ground (arith, small) in
      let positive : (leb (2 ^ 63) (filesz - i) && ltb (filesz - i) (2 ^ 64 - page)) ≡ false =
        ground (arith, small) in
      inl (rw (load_size, left, positive, low, inside) (ap bytes (ground arith)))
  | inr past ↦ elim (Bool-cases (leb i (filesz + page))) [
    | inl near ↦
        let left : wrap (filesz + (2 ^ 64 - i)) ≡ 2 ^ 64 - (i - filesz) =
          ground (arith, past, small') in
        let low : abs (2 ^ 64 - (i - filesz)) ≡ some (i - filesz) = ground (arith, past, small') in
        let above : (leb (2 ^ 63) (2 ^ 64 - (i - filesz))
              && ltb (2 ^ 64 - (i - filesz)) (2 ^ 64 - page))
            ≡ false =
          ground (arith, past, near) in
        inl (rw (load_size, left, above, low, past, near) (ap bytes (ground (arith, past, near))))
    | inr far ↦
        let below : (leb (2 ^ 63) (wrap (filesz + (2 ^ 64 - i)))
              && ltb (wrap (filesz + (2 ^ 64 - i))) (2 ^ 64 - page))
            ≡ true =
          ground (arith, past, far, small') in
        inr (rw (load_size, below) refl, rw (past, far) refl)
  ]
]

read_file_lem :
    (file : CString) (n dest offset : ℕ) (m : Memory) (a : ℕ)
    → read_file file n dest offset m a
      ≡ (if leb dest a && ltb a (dest + n) then file (offset + (a - dest)) else m a)
unfolding read_file
read_file_lem file zero dest offset m a = ground arith
read_file_lem file (suc n) dest offset m a =
    let rest = read_file_lem file n (dest + 1) (offset + 1) (store m dest (file offset)) a in
    elim (Bool-cases (a == dest)) [
      | inl here ↦
          rw (rest, ==→eq a dest here)
            (let none_left : dest - dest ≡ 0 = omega arith in
              let first : offset + 0 ≡ offset = omega arith in rw (none_left, first) (ground arith))
      | inr other ↦
          let same : leb dest a ≡ true → offset + 1 + (a - (dest + 1)) ≡ offset + (a - dest) =
            λ h. ground arith in
          elim (Bool-cases (leb dest a)) [
            | inl from ↦ rw (rest, ← same from) (ground arith)
            | inr before ↦ rw rest (ground arith)
          ]
    ]

file_bytes-page : (filesz i : ℕ) → file_bytes filesz i ≤ page
file_bytes-page filesz i = ground arith

-- The bytes of memory after the page `new` was loaded.
abbrev pub loaded : CString → ProgramHeader → (i new : ℕ) → Memory → Memory
loaded file p i new m a =
    if leb new a && ltb a (new + page)
    then (if ltb (a - new) (file_bytes p.p_filesz i)
        then file (wrap (p.p_offset + i) + (a - new))
        else 0)
    else m a

fill_page-loaded :
    (file : CString) (p : ProgramHeader) (i new : ℕ) (m : Memory)
    → p.p_filesz < 2 ^ 31
    → i < 2 ^ 31
    → (m' : Memory) × (fill_page file p new i (clear_page new m) ≡ some m')
      × ((a : ℕ) → m' a ≡ loaded file p i new m a)
unfolding fill_page
fill_page-loaded file p i new m small small' =
    let fits = file_bytes-page p.p_filesz i in
    elim (load_size_cases p.p_filesz i small small') [
      | inl e ↦ (
        read_file file (file_bytes p.p_filesz i) new (wrap (p.p_offset + i)) (clear_page new m),
        rw (fill_page, e) refl,
        λ a.
            rw
              (read_file_lem file (file_bytes p.p_filesz i) new (wrap (p.p_offset + i))
                (clear_page new m) a)
              (ground (arith, fits)),
      )
      | inr (e, nothing) ↦ (clear_page new m, rw (fill_page, e) refl, λ a. ground (arith, nothing))
    ]

load_page_step :
    (hhdm_offset : ℕ) (file : CString) (table : ℕ) (p : ProgramHeader) (i new address : ℕ)
    (rest : List ℕ) (s : Image) (mapped : Tables) (m' : Memory)
    → s.tables.frames ≡ new ∷ rest
    → physical hhdm_offset new ≡ address
    → map hhdm_offset
        (record { entries = clear_layer s.tables.entries new; frames = rest })
        table
        (wrap (p.p_vaddr + i))
        address
        page_flags
      ≡ some mapped
    → fill_page file p new i (clear_page new s.memory) ≡ some m'
    → load_page hhdm_offset file table p i s ≡ some (record { tables = mapped; memory = m' })
unfolding load_page take_page
load_page_step hhdm_offset file table p i new address rest s mapped m' frames offset e filled =
    rw (load_page, take_page, frames, offset, e, filled) refl

-- A page of a segment, with three more pages left and sizes below 2 ^ 31, is loaded: the address of the page in
-- the segment is mapped to a page that had no use before. That page begins with bytes of the file and is zero
-- behind them. They are the rest of the file's part, at most a page, and for a page that begins up to a page past
-- the end of the file's part as many bytes from behind it as the page is past the end. Nothing else changes in
-- memory, and the page tables stay a tree.
pub load_page-loaded :
    (hhdm_offset : ℕ) (level : ℕ → ℕ) (file : CString) (table : ℕ) (p : ProgramHeader) (i new : ℕ)
    (rest : List ℕ) (s : Image)
    → IsTree hhdm_offset level s.tables
    → level table ≡ 4
    → s.tables.frames ≡ new ∷ rest
    → 3 ≤ length rest
    → p.p_filesz < 2 ^ 31
    → i < 2 ^ 31
    → (level' : ℕ → ℕ) × (s' : Image) × (load_page hhdm_offset file table p i s ≡ some s')
      × IsTree hhdm_offset level' s'.tables
      × (level' table ≡ 4)
      × (translate_to_physical hhdm_offset s'.tables table (wrap (p.p_vaddr + i))
          ≡ new - hhdm_offset)
      × ((a : ℕ) → s'.memory a ≡ loaded file p i new s.memory a)
load_page-loaded hhdm_offset level file table p i new rest s t at frames room small small' =
    let fresh : AllFresh hhdm_offset level (new ∷ rest) = rw frames at t.fresh in
    let tables : Tables = record { entries = clear_layer s.tables.entries new; frames = rest } in
    let tree = clear_layer-IsTree hhdm_offset level s.tables new 0 rest t frames in
    let other : (table == new) ≡ false = ground (arith, fresh.1) in
    let at' : with_level hhdm_offset level new 1 table ≡ 4 = rw other at in
    let (level', mapped, e, tree', top, leads) =
      translate_to_physical-map hhdm_offset (with_level hhdm_offset level new 1) tables table
        (wrap (p.p_vaddr + i)) (new - hhdm_offset) page_flags tree at' fresh.0.frame room in
    let offset : physical hhdm_offset new ≡ new - hhdm_offset =
      omega (arith, fresh.0.above, fresh.0.inside) in
    let (m', filled, same) = fill_page-loaded file p i new s.memory small small' in
    (
      level',
      record { tables = mapped; memory = m' },
      load_page_step hhdm_offset file table p i new (new - hhdm_offset) rest s mapped m' frames
          offset e filled,
      tree',
      top,
      leads,
      same,
    )
