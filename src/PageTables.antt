-- ===== src/PageTables.antt =====
-- kernel/src/arch/x86_64/page_table_manager: page tables of four layers. A layer is known by its
-- virtual address, at which it has 512 entries of 64 bits; `hhdm_offset` is where physical memory is
-- mapped. `page_allocate(1)` gives the next of the addresses in `frames`, with the page cleared.
pub mod Entries
pub mod Tree
pub mod Steps
pub mod Range
pub mod RoundTrip
pub mod Walks
pub mod Pages
pub mod Frame
pub mod Sample
mod Tests
use ga_os.Base.{
  ℕ, zero, suc, ◌+◌, ◌-◌, ◌*◌, ◌/◌, ◌%◌, ◌^◌, bit_and, bit_or, Bool, not, Option, none, some, List,
  [], ◌∷◌, ◌==◌, ◌&&◌, leb, if◌then◌else◌,
}

abbrev pub wrap : ℕ → ℕ
wrap n = n % 2 ^ 64

abbrev pub entry_present : ℕ
entry_present = 1

-- ~0xFFF0000000000FFF
abbrev pub address_mask : ℕ
address_mask = 0x000FFFFFFFFFF000

unfoldable pub get_address : ℕ → ℕ
get_address entry = bit_and entry address_mask

pub set_address : ℕ → ℕ → ℕ
set_address entry address = bit_or (bit_and entry 0xFFF0000000000FFF) address

pub is_present : ℕ → Bool
is_present entry = not (bit_and entry entry_present == 0)

pub record Tables : Type 0 where
  pub entries : ℕ → ℕ → ℕ
  pub frames : List ℕ

abbrev pub put_entry : (ℕ → ℕ → ℕ) → ℕ → ℕ → ℕ → ℕ → ℕ → ℕ
put_entry t layer index v l i = if (l == layer) && (i == index) then v else t l i

abbrev pub clear_layer : (ℕ → ℕ → ℕ) → ℕ → ℕ → ℕ → ℕ
clear_layer t layer l i = if l == layer then 0 else t l i

-- (virtual_address & (0x1FF << shift)) >> shift
abbrev pub index_at : ℕ → ℕ → ℕ
index_at shift virtual_address = bit_and virtual_address (0x1FF * 2 ^ shift) / 2 ^ shift

module _ (hhdm_offset : ℕ) where
  -- The virtual address of the layer that an entry points to.
  unfoldable pub layer_of : ℕ → ℕ
  layer_of entry = wrap (get_address entry + hhdm_offset)

  -- `none` is a panic of `page_allocate`.
  pub allocate_next_layer : Tables → (layer index flags : ℕ) → Option (ℕ × Tables)
  allocate_next_layer s layer index flags =
      let entry = s.entries layer index in
      let low = bit_and flags 0xFF in
      if is_present entry
      then (let entry' = bit_or entry low in
          some (layer_of entry', record s { entries = put_entry s.entries layer index entry' }))
      else elim (s.frames) [
        | [] ↦ none
        | new ∷ rest ↦
            let cleared = clear_layer s.entries new in
            let entry' =
              bit_or (bit_or (cleared layer index) (wrap (new + (2 ^ 64 - hhdm_offset))))
                (bit_or low entry_present) in
            some (
              layer_of entry',
              record { entries = put_entry cleared layer index entry'; frames = rest },
            )
      ]

  pub map : Tables → (table virtual_address physical_address flags : ℕ) → Option Tables
  map s table virtual_address physical_address flags =
      elim (allocate_next_layer s table (index_at 39 virtual_address) flags) [
        | none ↦ none
        | some (pml3, s3) ↦ elim (allocate_next_layer s3 pml3 (index_at 30 virtual_address) flags) [
          | none ↦ none
          | some (pml2, s2) ↦
              elim (allocate_next_layer s2 pml2 (index_at 21 virtual_address) flags) [
                | none ↦ none
                | some (pml1, s1) ↦
                    let index = index_at 12 virtual_address in
                    let entry = bit_or (s1.entries pml1 index) (bit_or flags entry_present) in
                    some (record s1 {
                      entries =
                          put_entry s1.entries pml1 index (set_address entry physical_address);
                    })
              ]
        ]
      ]

  pub get_next_layer : Tables → (layer index : ℕ) → Option ℕ
  get_next_layer s layer index =
      if leb (wrap (layer + 8 * index)) hhdm_offset
      then none
      else if not (is_present (s.entries layer index))
      then none
      else some (layer_of (s.entries layer index))

  pub translate_to_physical : Tables → (table virtual_address : ℕ) → ℕ
  translate_to_physical s table virtual_address =
      elim (get_next_layer s table (index_at 39 virtual_address)) [
        | none ↦ 0
        | some pml3 ↦ elim (get_next_layer s pml3 (index_at 30 virtual_address)) [
          | none ↦ 0
          | some pml2 ↦ elim (get_next_layer s pml2 (index_at 21 virtual_address)) [
            | none ↦ 0
            | some pml1 ↦
                let entry = s.entries pml1 (index_at 12 virtual_address) in
                if is_present entry then get_address entry else 0
          ]
        ]
      ]
