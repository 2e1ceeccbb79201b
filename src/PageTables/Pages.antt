-- ===== src/PageTables/Pages.antt =====
-- Translation goes by pages: the low bits of an address do not matter.
use ga_os.Base.{
  ℕ, zero, suc, ◌-◌, ◌*◌, ◌/◌, ◌^◌, ◌≤◌, ◌≡◌, ◌≢◌, refl, arith, ap, ◌∙◌, sym, bit_and, none, some,
  if◌then◌else◌,
}
use ga_os.Base.Bits.{bit_and_step, bit_and-zero_left}
use ga_os.PageTables.{
  Tables, index_at, get_next_layer, translate_to_physical, is_present, get_address,
}
use ga_os.PageTables.Tree.{IsTree}
use ga_os.PageTables.Walks.{
  SamePage, translate_to_physical-Walk, Walk-translate_to_physical, Links-levels,
}

bit_and_assoc_bounded : (n a b c : ℕ) → a ≤ n → bit_and (bit_and a b) c ≡ bit_and a (bit_and b c)
bit_and_assoc_bounded n zero b c le =
    rw (bit_and-zero_left b, bit_and-zero_left c, bit_and-zero_left (bit_and b c)) refl
bit_and_assoc_bounded zero (suc a) b c le = absurd (omega arith)
bit_and_assoc_bounded (suc n) (suc a) b c le =
    let x = bit_and (suc a) b in
    let y = bit_and b c in
    let half_x : x / 2 ≡ bit_and (suc a / 2) (b / 2) = omega (arith, bit_and_step (suc a) b) in
    let half_y : y / 2 ≡ bit_and (b / 2) (c / 2) = omega (arith, bit_and_step b c) in
    let ih = bit_and_assoc_bounded n (suc a / 2) (b / 2) (c / 2) (omega arith) in
    let left : bit_and (x / 2) (c / 2) ≡ bit_and (suc a / 2) (y / 2) = rw (half_x, half_y) ih in
    omega (
      arith,
      left,
      bit_and_step x c,
      bit_and_step (suc a) y,
      bit_and_step (suc a) b,
      bit_and_step b c,
    )

pub bit_and_assoc : (a b c : ℕ) → bit_and (bit_and a b) c ≡ bit_and a (bit_and b c)
bit_and_assoc a b c = bit_and_assoc_bounded a a b c (omega arith)

-- address & ~0xFFF
abbrev pub page_of : ℕ → ℕ
page_of address = bit_and address (2 ^ 64 - 4096)

-- An address and its page have the same indices.
pub SamePage-page_of : (v : ℕ) → SamePage v (page_of v)
SamePage-page_of v = (
  sym (ap (λ (x : ℕ). x / 2 ^ 39) (bit_and_assoc v (2 ^ 64 - 4096) (0x1FF * 2 ^ 39))),
  sym (ap (λ (x : ℕ). x / 2 ^ 30) (bit_and_assoc v (2 ^ 64 - 4096) (0x1FF * 2 ^ 30))),
  sym (ap (λ (x : ℕ). x / 2 ^ 21) (bit_and_assoc v (2 ^ 64 - 4096) (0x1FF * 2 ^ 21))),
  sym (ap (λ (x : ℕ). x / 2 ^ 12) (bit_and_assoc v (2 ^ 64 - 4096) (0x1FF * 2 ^ 12))),
)

module _ (hhdm_offset : ℕ) (s : Tables) (table : ℕ) where
  abbrev by_indices : (i4 i3 i2 i1 : ℕ) → ℕ
  by_indices i4 i3 i2 i1 = elim (get_next_layer hhdm_offset s table i4) [
    | none ↦ 0
    | some pml3 ↦ elim (get_next_layer hhdm_offset s pml3 i3) [
      | none ↦ 0
      | some pml2 ↦ elim (get_next_layer hhdm_offset s pml2 i2) [
        | none ↦ 0
        | some pml1 ↦
            let entry = s.entries pml1 i1 in if is_present entry then get_address entry else 0
      ]
    ]
  ]

  pub translate_to_physical-SamePage :
      (v u : ℕ)
      → SamePage v u
      → translate_to_physical hhdm_offset s table v ≡ translate_to_physical hhdm_offset s table u
  unfolding translate_to_physical
  translate_to_physical-SamePage v u same =
      ap (λ i. by_indices i (index_at 30 v) (index_at 21 v) (index_at 12 v)) same.0
      ∙ (ap (λ i. by_indices (index_at 39 u) i (index_at 21 v) (index_at 12 v)) same.1
          ∙ (ap (λ i. by_indices (index_at 39 u) (index_at 30 u) i (index_at 12 v)) same.2
              ∙ ap (λ i. by_indices (index_at 39 u) (index_at 30 u) (index_at 21 u) i) same.3))

-- Translation looks at the layers only.
pub translate_to_physical-layers :
    (hhdm_offset : ℕ) (level : ℕ → ℕ) (s s' : Tables) (table u b : ℕ)
    → IsTree hhdm_offset level s
    → level table ≡ 4
    → ((l i k : ℕ) → level l ≡ suc k → s'.entries l i ≡ s.entries l i)
    → translate_to_physical hhdm_offset s table u ≡ b
    → b ≢ 0
    → translate_to_physical hhdm_offset s' table u ≡ b
translate_to_physical-layers hhdm_offset level s s' table u b t at same before mapped =
    let (n3, n2, n1, walk) = translate_to_physical-Walk hhdm_offset s table u b before mapped in
    let (at_n3, at_n2, at_n1) = Links-levels hhdm_offset level s table u n3 n2 n1 t at walk.links in
    let e3 = same table (index_at 39 u) 3 at in
    let e2 = same n3 (index_at 30 u) 2 at_n3 in
    let e1 = same n2 (index_at 21 u) 1 at_n2 in
    let e0 = same n1 (index_at 12 u) 0 at_n1 in
    Walk-translate_to_physical hhdm_offset s' table u b n3 n2 n1 (record {
      links = record {
        first = record { present = rw e3 walk.links.first.present; to = rw e3 walk.links.first.to };
        second = record {
          present = rw e2 walk.links.second.present;
          to = rw e2 walk.links.second.to;
        };
        third = record { present = rw e1 walk.links.third.present; to = rw e1 walk.links.third.to };
      };
      high3 = walk.high3;
      high2 = walk.high2;
      high1 = walk.high1;
      present = rw e0 walk.present;
      address = rw e0 walk.address;
    })
