-- ===== src/Interrupts/Stack.antt =====
-- A page fault in the stack of a task, and when the handler returns at all.
use ga_os.Base.{
  ℕ, suc, ◌+◌, ◌-◌, ◌≤◌, ◌<◌, ◌≡◌, ◌≢◌, ◌⊎◌, refl, arith, ◌==◌, bit_and, length, List, ◌∷◌, some,
  true, false, ◌∙◌,
}
use ga_os.PageTables.{Tables, map, clear_layer, translate_to_physical, wrap}
use ga_os.PageTables.Tree.{IsTree, AllFresh, with_level, clear_layer-IsTree}
use ga_os.PageTables.Walks.{SamePage}
use ga_os.PageTables.RoundTrip.{translate_to_physical-map}
use ga_os.PageTables.Frame.{translate_to_physical-map_other}
use ga_os.PageTables.Pages.{
  page_of, SamePage-page_of, translate_to_physical-SamePage, translate_to_physical-layers,
}
use ga_os.Elf.{Image, page, take_page, clear_page, physical, page_flags}
use ga_os.Interrupts.{
  Interrupt, StackOwner, resumed, in_stack, grow_stack, handle_page_fault, isr_handler,
}

-- The fault of user code at an address of its stack.
pub record IsStackFault (task : StackOwner) (i : Interrupt) : Type 0 where
  pub vector : i.interrupt_number ≡ 0xE
  pub user : bit_and i.cs 3 ≢ 0
  pub above : 0x1000 ≤ i.cr2
  pub below : i.cr2 < task.virtual_stack_top

in_stack-true : (task : StackOwner) (i : Interrupt) → IsStackFault task i → in_stack task i ≡ true
unfolding in_stack
in_stack-true task i f = ground (arith, f.user, f.above, f.below)

isr_handler-grow_stack :
    (hhdm_offset : ℕ) (task : StackOwner) (i : Interrupt) (s : Image)
    → IsStackFault task i
    → isr_handler hhdm_offset task i s ≡ grow_stack hhdm_offset task i.cr2 s
unfolding isr_handler handle_page_fault
isr_handler-grow_stack hhdm_offset task i s f = ground (arith, f.vector, in_stack-true task i f)

grow_step :
    (hhdm_offset cr2 new address : ℕ) (task : StackOwner) (rest : List ℕ) (s : Image)
    (mapped : Tables)
    → s.tables.frames ≡ new ∷ rest
    → physical hhdm_offset new ≡ address
    → map hhdm_offset
        (record { entries = clear_layer s.tables.entries new; frames = rest })
        (wrap (task.cr3 + hhdm_offset))
        (page_of cr2)
        address
        page_flags
      ≡ some mapped
    → grow_stack hhdm_offset task cr2 s
      ≡ resumed (record { tables = mapped; memory = clear_page new s.memory })
unfolding grow_stack take_page
grow_step hhdm_offset cr2 new address task rest s mapped frames offset e =
    rw (grow_stack, take_page, frames, offset, e) refl

-- What the handler leaves when it resumes the task: the page of the address is mapped to a page that had no use
-- before and that is clear, and all other memory and all other pages that were mapped are as they were.
pub record IsGrown (hhdm_offset : ℕ) (level : ℕ → ℕ) (table cr2 new : ℕ) (s s' : Image)
    : Type 0 where
  pub new_level : ℕ → ℕ
  pub tree : IsTree hhdm_offset new_level s'.tables
  pub top : new_level table ≡ 4
  pub leads : translate_to_physical hhdm_offset s'.tables table cr2 ≡ new - hhdm_offset
  pub clear : (a : ℕ) → new ≤ a → a < new + page → s'.memory a ≡ 0
  pub memory : (a : ℕ) → (a < new) ⊎ (new + page ≤ a) → s'.memory a ≡ s.memory a
  pub kept :
      (u b : ℕ)
      → translate_to_physical hhdm_offset s.tables table u ≡ b
      → b ≢ 0
      → (SamePage cr2 u → ⊥)
      → translate_to_physical hhdm_offset s'.tables table u ≡ b

module _ (hhdm_offset : ℕ) (level : ℕ → ℕ) (s : Image) (table cr2 new : ℕ) (rest : List ℕ)
    (t : IsTree hhdm_offset level s.tables) (at : level table ≡ 4)
    (frames : s.tables.frames ≡ new ∷ rest) (room : 3 ≤ length rest) where
  abbrev cleared : Tables
  cleared = record { entries = clear_layer s.tables.entries new; frames = rest }

  fresh : AllFresh hhdm_offset level (new ∷ rest)
  fresh = rw frames at t.fresh

  at_cleared : with_level hhdm_offset level new 1 table ≡ 4
  at_cleared = let other : (table == new) ≡ false = ground (arith, fresh.1) in rw other at

  same_layers : (l i k : ℕ) → level l ≡ suc k → cleared.entries l i ≡ s.tables.entries l i
  same_layers l i k at_l = let other : (l == new) ≡ false = ground (arith, fresh.1) in rw other refl

  kept_page :
      (mapped : Tables) (u b : ℕ)
      → map hhdm_offset cleared table (page_of cr2) (new - hhdm_offset) page_flags ≡ some mapped
      → translate_to_physical hhdm_offset s.tables table u ≡ b
      → b ≢ 0
      → (SamePage cr2 u → ⊥)
      → translate_to_physical hhdm_offset mapped table u ≡ b
  kept_page mapped u b e before ne differ =
      let same = SamePage-page_of cr2 in
      let (mapped', e', after) =
        translate_to_physical-map_other hhdm_offset (with_level hhdm_offset level new 1) cleared
          table (page_of cr2) u (new - hhdm_offset) b page_flags
          (clear_layer-IsTree hhdm_offset level s.tables new 0 rest t frames) at_cleared room
          (translate_to_physical-layers hhdm_offset level s.tables cleared table u b t at
            same_layers before ne)
          ne (λ (p3, p2, p1, p0). differ (same.0 ∙ p3, same.1 ∙ p2, same.2 ∙ p1, same.3 ∙ p0)) in
      let one : mapped' ≡ mapped = cc (e, e') in rw one at after

  grow_stack-IsGrown :
      (task : StackOwner)
      → wrap (task.cr3 + hhdm_offset) ≡ table
      → (s' : Image) × (grow_stack hhdm_offset task cr2 s ≡ resumed s')
        × IsGrown hhdm_offset level table cr2 new s s'
  grow_stack-IsGrown task is_table =
      let (level', mapped, e, tree', top, leads) =
        translate_to_physical-map hhdm_offset (with_level hhdm_offset level new 1) cleared table
          (page_of cr2) (new - hhdm_offset) page_flags
          (clear_layer-IsTree hhdm_offset level s.tables new 0 rest t frames) at_cleared
          fresh.0.frame room in
      let offset : physical hhdm_offset new ≡ new - hhdm_offset =
        omega (arith, fresh.0.above, fresh.0.inside) in
      (
        record { tables = mapped; memory = clear_page new s.memory },
        grow_step hhdm_offset cr2 new (new - hhdm_offset) task rest s mapped frames offset
            (rw is_table e),
        record {
          new_level = level';
          tree = tree';
          top = top;
          leads =
              translate_to_physical-SamePage hhdm_offset mapped table cr2 (page_of cr2)
                (SamePage-page_of cr2)
              ∙ leads;
          clear = λ a le lt. ground arith;
          memory = λ a out. ground arith;
          kept = λ u b before ne differ. kept_page mapped u b e before ne differ;
        },
      )

-- With page tables that are a tree and four pages left, a fault of user code between 0x1000 and the top of its
-- stack is resumed with one more page: the address then leads to a page that had no use before and that is clear,
-- all other memory is as it was, and so is every other page of the task that was mapped.
pub isr_handler-IsGrown :
    (hhdm_offset : ℕ) (level : ℕ → ℕ) (task : StackOwner) (i : Interrupt) (s : Image) (new : ℕ)
    (rest : List ℕ)
    → IsStackFault task i
    → IsTree hhdm_offset level s.tables
    → level (wrap (task.cr3 + hhdm_offset)) ≡ 4
    → s.tables.frames ≡ new ∷ rest
    → 3 ≤ length rest
    → (s' : Image) × (isr_handler hhdm_offset task i s ≡ resumed s')
      × IsGrown hhdm_offset level (wrap (task.cr3 + hhdm_offset)) i.cr2 new s s'
isr_handler-IsGrown hhdm_offset level task i s new rest f t at frames room =
    let (s', e, grown) =
      grow_stack-IsGrown hhdm_offset level s (wrap (task.cr3 + hhdm_offset)) i.cr2 new rest t at
        frames room task refl in
    (s', isr_handler-grow_stack hhdm_offset task i s f ∙ e, grown)
