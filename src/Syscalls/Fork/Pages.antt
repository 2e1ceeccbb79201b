-- ===== src/Syscalls/Fork/Pages.antt =====
-- What kernel/src/syscalls/sys_fork.c leaves in a page of the child.
use ga_os.Base.{
  ℕ, ◌+◌, ◌-◌, ◌≤◌, ◌<◌, ◌≡◌, ◌⊎◌, refl, arith, ◌==◌, ltb, leb, ◌&&◌, bit_and, length, List, ◌∷◌,
  some, true, false,
}
use ga_os.Libc.Memory.{Memory, memcpy}
use ga_os.Libc.Memory.Moves.{memcpy-moved}
use ga_os.PageTables.{Tables, map, clear_layer, layer_of, translate_to_physical}
use ga_os.PageTables.Tree.{IsTree, AllFresh, with_level, clear_layer-IsTree}
use ga_os.PageTables.RoundTrip.{translate_to_physical-map}
use ga_os.Elf.{Image, page, take_page, clear_page, physical}
use ga_os.Syscalls.Fork.{copy_page}

copy_page_step :
    (hhdm_offset child_pt virtual entry new address : ℕ) (rest : List ℕ) (s : Image)
    (mapped : Tables)
    → s.tables.frames ≡ new ∷ rest
    → physical hhdm_offset new ≡ address
    → map hhdm_offset
        (record { entries = clear_layer s.tables.entries new; frames = rest })
        child_pt
        virtual
        address
        (bit_and entry 0xFFF0000000000FFF)
      ≡ some mapped
    → copy_page hhdm_offset child_pt virtual entry s
      ≡ some (record {
        tables = mapped;
        memory = memcpy new (layer_of hhdm_offset entry) page (clear_page new s.memory);
      })
unfolding copy_page take_page
copy_page_step hhdm_offset child_pt virtual entry new address rest s mapped frames offset e =
    rw (copy_page, take_page, frames, offset, e) refl

-- `memcpy` between pages that are apart, to one that is clear.
copied_inside :
    (new from i : ℕ) (m : Memory)
    → i < page
    → (new + page ≤ from) ⊎ (from + page ≤ new)
    → memcpy new from page (clear_page new m) (new + i) ≡ m (from + i)
copied_inside new from i m lt apart =
    let at : new + i - new ≡ i = omega arith in
    let e = memcpy-moved new from page (clear_page new m) (new + i) (ground arith) in
    let inside : (leb new (new + i) && ltb (new + i) (new + page)) ≡ true = ground arith in
    let before : (leb new (from + i) && ltb (from + i) (new + page)) ≡ false = ground arith in
    rw (e, inside, at, before) refl

copied_outside :
    (new from a : ℕ) (m : Memory)
    → (new + page ≤ from) ⊎ (from + page ≤ new)
    → (a < new) ⊎ (new + page ≤ a)
    → memcpy new from page (clear_page new m) a ≡ m a
copied_outside new from a m apart out =
    let e = memcpy-moved new from page (clear_page new m) a (ground arith) in
    let outside : (leb new a && ltb a (new + page)) ≡ false = ground arith in rw (e, outside) refl

-- Where the page tables are a tree, the child's of level 4 in it, and three more pages are left behind the new one,
-- a page of the parent that is apart from the new one is copied: the child's address is mapped to the new page,
-- which has the same bytes as the parent's, and all other memory, the parent's page included, is as it was.
pub copy_page-copied :
    (hhdm_offset : ℕ) (level : ℕ → ℕ) (child_pt virtual entry new : ℕ) (rest : List ℕ) (s : Image)
    → IsTree hhdm_offset level s.tables
    → level child_pt ≡ 4
    → s.tables.frames ≡ new ∷ rest
    → 3 ≤ length rest
    → (new + page ≤ layer_of hhdm_offset entry) ⊎ (layer_of hhdm_offset entry + page ≤ new)
    → (level' : ℕ → ℕ) × (s' : Image) × (copy_page hhdm_offset child_pt virtual entry s ≡ some s')
      × IsTree hhdm_offset level' s'.tables
      × (level' child_pt ≡ 4)
      × (translate_to_physical hhdm_offset s'.tables child_pt virtual ≡ new - hhdm_offset)
      × ((i : ℕ) → i < page → s'.memory (new + i) ≡ s.memory (layer_of hhdm_offset entry + i))
      × ((a : ℕ) → (a < new) ⊎ (new + page ≤ a) → s'.memory a ≡ s.memory a)
copy_page-copied hhdm_offset level child_pt virtual entry new rest s t at frames room apart =
    let fresh : AllFresh hhdm_offset level (new ∷ rest) = rw frames at t.fresh in
    let tables : Tables = record { entries = clear_layer s.tables.entries new; frames = rest } in
    let tree = clear_layer-IsTree hhdm_offset level s.tables new 0 rest t frames in
    let other : (child_pt == new) ≡ false = ground (arith, fresh.1) in
    let at' : with_level hhdm_offset level new 1 child_pt ≡ 4 = rw other at in
    let (level', mapped, e, tree', top, leads) =
      translate_to_physical-map hhdm_offset (with_level hhdm_offset level new 1) tables child_pt
        virtual (new - hhdm_offset) (bit_and entry 0xFFF0000000000FFF) tree at' fresh.0.frame
        room in
    let offset : physical hhdm_offset new ≡ new - hhdm_offset =
      omega (arith, fresh.0.above, fresh.0.inside) in
    let from = layer_of hhdm_offset entry in
    let cleared = clear_page new s.memory in
    (
      level',
      record { tables = mapped; memory = memcpy new from page cleared },
      copy_page_step hhdm_offset child_pt virtual entry new (new - hhdm_offset) rest s mapped frames
          offset e,
      tree',
      top,
      leads,
      λ i lt. copied_inside new from i s.memory lt apart,
      λ a out. copied_outside new from a s.memory apart out,
    )
