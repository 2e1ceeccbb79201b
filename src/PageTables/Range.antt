-- ===== src/PageTables/Range.antt =====
-- `arch_table_manager_map_range`: a run of pages, entry by entry in the last layer, with a new layer
-- when one is full. `none` is a panic of `page_allocate`.
use ga_os.Base.{
  ℕ, zero, suc, ◌+◌, ◌-◌, ◌*◌, bit_or, Option, none, some, ◌==◌, ltb, leb, if◌then◌else◌,
}
use ga_os.PageTables.{
  Tables, set_address, entry_present, wrap, allocate_next_layer, put_entry, index_at,
}

abbrev pub page : ℕ
page = 4096

-- The loop over the entries of one layer from `i`, with the rounds left.
pub map_entries : ℕ → (pml1 p_index i physical_address flags : ℕ) → Tables → Tables
map_entries zero pml1 p_index i physical_address flags s = s
map_entries (suc k) pml1 p_index i physical_address flags s =
    let entry = bit_or (s.entries pml1 (p_index + i)) (bit_or flags entry_present) in
    let s' : Tables = record s {
      entries =
          put_entry s.entries pml1 (p_index + i)
            (set_address entry (wrap (physical_address + i * page)));
    } in
    map_entries k pml1 p_index (i + 1) physical_address flags s'

-- Where the loop stands: the layers, their indices, and what is left to map.
pub record Cursor : Type 0 where
  pub pml3 : ℕ
  pub pml2 : ℕ
  pub pml1 : ℕ
  pub pml3_index : ℕ
  pub pml2_index : ℕ
  pub pml1_index : ℕ
  pub p_index : ℕ
  pub physical_address : ℕ
  pub count : ℕ

module _ (hhdm_offset : ℕ) where
  -- The next `pml1` in the same `pml2`.
  pub next_pml1 : ℕ → Cursor → Tables → Option (Cursor × Tables)
  next_pml1 flags c s = elim (allocate_next_layer hhdm_offset s c.pml2 c.pml1_index flags) [
    | none ↦ none
    | some (l, s') ↦ some (record c { pml1 = l }, s')
  ]

  -- The next `pml2` in the same `pml3`, and its first `pml1`.
  pub next_pml2 : ℕ → Cursor → Tables → Option (Cursor × Tables)
  next_pml2 flags c s = elim (allocate_next_layer hhdm_offset s c.pml3 c.pml2_index flags) [
    | none ↦ none
    | some (l, s') ↦ next_pml1 flags (record c { pml2 = l }) s'
  ]

  -- The next `pml3`, its first `pml2` and the first `pml1` of that.
  pub next_pml3 : (table flags : ℕ) → Cursor → Tables → Option (Cursor × Tables)
  next_pml3 table flags c s = elim (allocate_next_layer hhdm_offset s table c.pml3_index flags) [
    | none ↦ none
    | some (l, s') ↦ next_pml2 flags (record c { pml3 = l }) s'
  ]

  -- What follows a full layer: the indices move on.
  pub advance : (table flags : ℕ) → Cursor → Tables → Option (Cursor × Tables)
  advance table flags c s =
      if leb 512 (c.pml1_index + 1)
      then (if leb 512 (c.pml2_index + 1)
          then next_pml3 table flags
              (record c { pml1_index = 0; pml2_index = 0; pml3_index = c.pml3_index + 1 }) s
          else next_pml2 flags (record c { pml1_index = 0; pml2_index = c.pml2_index + 1 }) s)
      else next_pml1 flags (record c { pml1_index = c.pml1_index + 1 }) s

  -- The loop, with the rounds left: each maps a page at least, so `count` rounds are enough.
  pub range_loop : ℕ → (table flags : ℕ) → Cursor → Tables → Option Tables
  range_loop zero table flags c s = some s
  range_loop (suc fuel) table flags c s =
      if c.count == 0
      then some s
      else (let room : ℕ = 512 - c.p_index in
          let to_map : ℕ = if ltb c.count room then c.count else room in
          let mapped = map_entries to_map c.pml1 c.p_index 0 c.physical_address flags s in
          let moved : Cursor = record c {
            physical_address = wrap (c.physical_address + to_map * page);
            count = c.count - to_map;
            p_index = 0;
          } in
          elim (advance table flags moved mapped) [
            | none ↦ none
            | some r ↦ range_loop fuel table flags r.0 r.1
          ])

  pub map_range : Tables → (table virtual_address physical_address flags count : ℕ) → Option Tables
  map_range s table virtual_address physical_address flags count =
      elim (next_pml3 table flags
        (record {
          pml3 = 0;
          pml2 = 0;
          pml1 = 0;
          pml3_index = index_at 39 virtual_address;
          pml2_index = index_at 30 virtual_address;
          pml1_index = index_at 21 virtual_address;
          p_index = index_at 12 virtual_address;
          physical_address = physical_address;
          count = count;
        })
        s) [ none ↦ none | some r ↦ range_loop count table flags r.0 r.1 ]
