-- ===== src/PageTables/RoundTrip.antt =====
-- `arch_table_manager_map` and `arch_table_manager_translate_to_physical` together.
use ga_os.Base.{
  ℕ, suc, ◌+◌, ◌*◌, ◌^◌, ◌≤◌, ◌<◌, ◌≡◌, refl, ◌∙◌, bit_or, ◌≢◌, leb, arith, true, false, inl, ap,
  some, length,
}
use ga_os.Base.Bits.{bit_and-lt}
use ga_os.PageTables.{
  Tables, get_address, set_address, is_present, entry_present, wrap, layer_of, put_entry, map,
  index_at, get_next_layer, translate_to_physical,
}
use ga_os.PageTables.Entries.{
  IsFrame, get_address-set_address, bit-set_address, is_present_iff, bit-bit_or_one,
}
use ga_os.PageTables.Tree.{IsTree, IsStep, put_entry-same, put_entry-other}
use ga_os.PageTables.Steps.{allocate_next_layer-IsStep}

index_at_39 : (v : ℕ) → index_at 39 v < 512
index_at_39 v = omega (arith, bit_and-lt 48 v (511 * 2 ^ 39) (omega arith))

index_at_30 : (v : ℕ) → index_at 30 v < 512
index_at_30 v = omega (arith, bit_and-lt 39 v (511 * 2 ^ 30) (omega arith))

index_at_21 : (v : ℕ) → index_at 21 v < 512
index_at_21 v = omega (arith, bit_and-lt 30 v (511 * 2 ^ 21) (omega arith))

module _ (hhdm_offset : ℕ) where
  get_next_layer-present :
      (s : Tables) (l i : ℕ)
      → hhdm_offset < l
      → l + 4096 ≤ 2 ^ 64
      → i < 512
      → is_present (s.entries l i) ≡ true
      → get_next_layer hhdm_offset s l i ≡ some (layer_of hhdm_offset (s.entries l i))
  unfolding get_next_layer
  get_next_layer-present s l i above inside lt h =
      let past : leb (wrap (l + 8 * i)) hhdm_offset ≡ false = ground arith in rw (past, h) refl

  -- The three layers of an address are linked in `s`, and its entry holds `a`.
  record IsPath (s : Tables) (table v a : ℕ) : Type 0 where
    pml3 : ℕ
    pml2 : ℕ
    pml1 : ℕ
    first : get_next_layer hhdm_offset s table (index_at 39 v) ≡ some pml3
    second : get_next_layer hhdm_offset s pml3 (index_at 30 v) ≡ some pml2
    third : get_next_layer hhdm_offset s pml2 (index_at 21 v) ≡ some pml1
    present : is_present (s.entries pml1 (index_at 12 v)) ≡ true
    address : get_address (s.entries pml1 (index_at 12 v)) ≡ a

  IsPath-translate :
      (s : Tables) (table v a : ℕ)
      → IsPath s table v a
      → translate_to_physical hhdm_offset s table v ≡ a
  unfolding translate_to_physical
  IsPath-translate s table v a p =
      rw (translate_to_physical, p.first, p.second, p.third, p.present) p.address

  -- The entries of the last layers do not matter for the shape.
  put_page-IsTree :
      (level : ℕ → ℕ) (s : Tables) (l i v : ℕ)
      → IsTree hhdm_offset level s
      → level l ≡ 1
      → IsTree hhdm_offset level (record s { entries = put_entry s.entries l i v })
  put_page-IsTree level s l i v t at =
      let apart : (l' j : ℕ) → level l' ≡ suc (suc j) → l' ≢ l =
        λ l' j at' e. omega (arith, ap level e) in
      record {
        below = λ l' i' j at' h.
            (let same = put_entry-other hhdm_offset s.entries l i v l' i' (inl (apart l' j at')) in
              rw same (t.below l' i' j at' (rw same at h)));
        empty = λ l' i' j at' h.
            (let same = put_entry-other hhdm_offset s.entries l i v l' i' (inl (apart l' j at')) in
              rw same (t.empty l' i' j at' (rw same at h)));
        high = t.high;
        fresh = t.fresh;
        unique = λ l1 i1 k1 l2 i2 k2 at1 at2 h1 h2 e.
            let same1 = put_entry-other hhdm_offset s.entries l i v l1 i1 (inl (apart l1 k1 at1)) in
            let same2 = put_entry-other hhdm_offset s.entries l i v l2 i2 (inl (apart l2 k2 at2)) in
            t.unique l1 i1 k1 l2 i2 k2 at1 at2 (rw same1 at h1) (rw same2 at h2)
              (rw (same1, same2) at e);
      }

  -- After three steps down, an entry above the last layer is the one that its step left there.
  module _ (level : ℕ → ℕ) (s s3 s2 s1 : Tables) (table m3 m2 m1 i3 i2 i1 : ℕ)
      (p3 : IsStep hhdm_offset level s table i3 2 2 m3 s3)
      (p2 : IsStep hhdm_offset p3.new_level s3 m3 i2 1 1 m2 s2)
      (p1 : IsStep hhdm_offset p2.new_level s2 m2 i1 0 0 m1 s1) (at : level table ≡ 4) where
    table_after : (p2.new_level table ≡ 4) × (p1.new_level table ≡ 4)
    table_after = let up = p2.kept table 3 (p3.kept table 3 at) in (up, p1.kept table 3 up)

    third_after : (p2.new_level m3 ≡ 3) × (p1.new_level m3 ≡ 3)
    third_after = let up = p2.kept m3 2 p3.reached in (up, p1.kept m3 2 up)

    table_entry : (i w : ℕ) → put_entry s1.entries m1 i w table i3 ≡ s3.entries table i3
    table_entry i w =
        let (up, top) = table_after in
        put_entry-other hhdm_offset s1.entries m1 i w table i3
          (inl (λ e. omega (arith, ap p1.new_level e, top, p1.reached)))
        ∙ (p1.frame table i3 3 up (inl (λ e. omega (arith, ap p2.new_level e, up, p2.reached)))
            ∙ p2.frame table i3 3 (p3.kept table 3 at)
                (inl (λ e. omega (arith, ap p3.new_level e, p3.kept table 3 at, p3.reached))))

    third_entry : (i w : ℕ) → put_entry s1.entries m1 i w m3 i2 ≡ s2.entries m3 i2
    third_entry i w =
        let (up, top) = third_after in
        put_entry-other hhdm_offset s1.entries m1 i w m3 i2
          (inl (λ e. omega (arith, ap p1.new_level e, top, p1.reached)))
        ∙ p1.frame m3 i2 2 up (inl (λ e. omega (arith, ap p2.new_level e, up, p2.reached)))

    second_entry : (i w : ℕ) → put_entry s1.entries m1 i w m2 i1 ≡ s1.entries m2 i1
    second_entry i w =
        put_entry-other hhdm_offset s1.entries m1 i w m2 i1
          (inl (λ e. omega (arith, ap p1.new_level e, p1.kept m2 1 p2.reached, p1.reached)))

    IsPath-after :
        (v a w : ℕ)
        → i3 ≡ index_at 39 v
        → i2 ≡ index_at 30 v
        → i1 ≡ index_at 21 v
        → is_present w ≡ true
        → get_address w ≡ a
        → IsPath (record s1 { entries = put_entry s1.entries m1 (index_at 12 v) w }) table v a
    IsPath-after v a w e3 e2 e1 set holds =
        let i = index_at 12 v in
        let t : Tables = record s1 { entries = put_entry s1.entries m1 i w } in
        let high_table = p1.tree.high table 3 (table_after.1) in
        let high_third = p1.tree.high m3 2 (third_after.1) in
        let high_second = p1.tree.high m2 1 (p1.kept m2 1 p2.reached) in
        let last = put_entry-same hhdm_offset s1.entries m1 i w in
        record {
          pml3 = m3;
          pml2 = m2;
          pml1 = m1;
          first = rw (← e3) (
              get_next_layer-present t table i3 high_table.0 high_table.1 (rw e3 (index_at_39 v))
                (rw (table_entry i w) p3.present)
              ∙ ap some (ap (layer_of hhdm_offset) (table_entry i w) ∙ p3.leads));
          second = rw (← e2) (
              get_next_layer-present t m3 i2 high_third.0 high_third.1 (rw e2 (index_at_30 v))
                (rw (third_entry i w) p2.present)
              ∙ ap some (ap (layer_of hhdm_offset) (third_entry i w) ∙ p2.leads));
          third = rw (← e1) (
              get_next_layer-present t m2 i1 high_second.0 high_second.1 (rw e1 (index_at_21 v))
                (rw (second_entry i w) p1.present)
              ∙ ap some (ap (layer_of hhdm_offset) (second_entry i w) ∙ p1.leads));
          present = rw last set;
          address = rw last holds;
        }

  -- With three pages left, mapping an address in a tree of page tables succeeds, keeps it a tree, and
  -- translating the address then gives the page that it was mapped to, whatever was mapped before.
  pub translate_to_physical-map :
      (level : ℕ → ℕ) (s : Tables) (table v a flags : ℕ)
      → IsTree hhdm_offset level s
      → level table ≡ 4
      → IsFrame a
      → 3 ≤ length s.frames
      → (level' : ℕ → ℕ) × (s' : Tables) × (map hhdm_offset s table v a flags ≡ some s')
        × IsTree hhdm_offset level' s'
        × (level' table ≡ 4)
        × (translate_to_physical hhdm_offset s' table v ≡ a)
  unfolding map
  translate_to_physical-map level s table v a flags t at f room =
      let (m3, s3, e3, p3) =
        allocate_next_layer-IsStep hhdm_offset level s table (index_at 39 v) 2 2 flags t at room in
      let (m2, s2, e2, p2) =
        allocate_next_layer-IsStep hhdm_offset p3.new_level s3 m3 (index_at 30 v) 1 1 flags p3.tree
          p3.reached p3.left in
      let (m1, s1, e1, p1) =
        allocate_next_layer-IsStep hhdm_offset p2.new_level s2 m2 (index_at 21 v) 0 0 flags p2.tree
          p2.reached p2.left in
      let i = index_at 12 v in
      let old = bit_or (s1.entries m1 i) (bit_or flags entry_present) in
      let w = set_address old a in
      let set : is_present w ≡ true =
        (is_present_iff w).1 (bit-set_address old a (bit-bit_or_one (s1.entries m1 i) flags)) in
      let s' : Tables = record s1 { entries = put_entry s1.entries m1 i w } in
      (
        p1.new_level,
        s',
        rw (map, e3, e2, e1) refl,
        put_page-IsTree p1.new_level s1 m1 i w p1.tree p1.reached,
        (table_after level s s3 s2 s1 table m3 m2 m1 (index_at 39 v) (index_at 30 v) (index_at 21 v)
            p3 p2 p1 at).1,
        IsPath-translate s' table v a (
            IsPath-after level s s3 s2 s1 table m3 m2 m1 (index_at 39 v) (index_at 30 v)
              (index_at 21 v) p3 p2 p1 at v a w refl refl refl set
              (get_address-set_address old a f)),
      )
