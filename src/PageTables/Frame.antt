-- ===== src/PageTables/Frame.antt =====
-- What `arch_table_manager_map` leaves of the translation of other addresses.
use ga_os.Base.{
  ℕ, suc, ◌≤◌, ◌≡◌, ◌≢◌, ◌⊎◌, refl, sym, ap, arith, inl, inr, Bool-cases, ◌==◌, ==→eq, ==→ne, some,
  length, bit_or,
}
use ga_os.PageTables.{
  Tables, set_address, entry_present, put_entry, map, index_at, translate_to_physical,
}
use ga_os.PageTables.Tree.{IsTree, put_entry-other}
use ga_os.PageTables.Steps.{allocate_next_layer-IsStep}
use ga_os.PageTables.Walks.{
  SamePage, Leads, Links, Walk, IsStep-Leads, Links-same, Links-levels, IsStep-Walk,
  Walk-translate_to_physical, translate_to_physical-Walk,
}

module _ (hhdm_offset : ℕ) where
  -- The last entry of another page is changed.
  put_page-Walk :
      (level : ℕ → ℕ) (s : Tables) (table v u b m3 m2 m1 n3 n2 n1 w : ℕ)
      → IsTree hhdm_offset level s
      → level table ≡ 4
      → level m1 ≡ 1
      → Links hhdm_offset s table v m3 m2 m1
      → (SamePage v u → ⊥)
      → Walk hhdm_offset s table u b n3 n2 n1
      → Walk hhdm_offset
          (record s { entries = put_entry s.entries m1 (index_at 12 v) w })
          table
          u
          b
          n3
          n2
          n1
  put_page-Walk level s table v u b m3 m2 m1 n3 n2 n1 w t at at_m1 links differ walk =
      let (at_n3, at_n2, at_n1) =
        Links-levels hhdm_offset level s table u n3 n2 n1 t at walk.links in
      let upper : (l i k : ℕ)
          → level l ≡ suc (suc k)
          → put_entry s.entries m1 (index_at 12 v) w l i ≡ s.entries l i =
        λ l i k at_l.
          put_entry-other hhdm_offset s.entries m1 (index_at 12 v) w l i
            (inl (λ e. omega (arith, ap level e, at_l, at_m1))) in
      let apart : (n1 ≢ m1) ⊎ (index_at 12 u ≢ index_at 12 v) = elim (Bool-cases (n1 == m1)) [
        | inr other ↦ inl (==→ne n1 m1 other)
        | inl same ↦ inr (λ e.
            let again : Links hhdm_offset s table u n3 n2 m1 =
              rw (==→eq n1 m1 same) at walk.links in
            let (i3, i2, i1) =
              Links-same hhdm_offset level s table v u m3 m2 n3 n2 m1 t at links again in
            differ (i3, i2, i1, sym e))
      ] in
      let last =
        put_entry-other hhdm_offset s.entries m1 (index_at 12 v) w n1 (index_at 12 u) apart in
      record {
        links = record {
          first =
              (let e = upper table (index_at 39 u) 2 at in
                record { present = rw e walk.links.first.present; to = rw e walk.links.first.to });
          second =
              (let e = upper n3 (index_at 30 u) 1 at_n3 in
                record {
                  present = rw e walk.links.second.present;
                  to = rw e walk.links.second.to;
                });
          third =
              (let e = upper n2 (index_at 21 u) 0 at_n2 in
                record { present = rw e walk.links.third.present; to = rw e walk.links.third.to });
        };
        high3 = walk.high3;
        high2 = walk.high2;
        high1 = walk.high1;
        present = rw last walk.present;
        address = rw last walk.address;
      }

  -- With three pages left, mapping an address leaves every other page that was mapped where it was.
  pub translate_to_physical-map_other :
      (level : ℕ → ℕ) (s : Tables) (table v u a b flags : ℕ)
      → IsTree hhdm_offset level s
      → level table ≡ 4
      → 3 ≤ length s.frames
      → translate_to_physical hhdm_offset s table u ≡ b
      → b ≢ 0
      → (SamePage v u → ⊥)
      → (s' : Tables) × (map hhdm_offset s table v a flags ≡ some s')
        × (translate_to_physical hhdm_offset s' table u ≡ b)
  unfolding map
  translate_to_physical-map_other level s table v u a b flags t at room before mapped differ =
      let (m3, s3, e3, p3) =
        allocate_next_layer-IsStep hhdm_offset level s table (index_at 39 v) 2 2 flags t at room in
      let (m2, s2, e2, p2) =
        allocate_next_layer-IsStep hhdm_offset p3.new_level s3 m3 (index_at 30 v) 1 1 flags p3.tree
          p3.reached p3.left in
      let (m1, s1, e1, p1) =
        allocate_next_layer-IsStep hhdm_offset p2.new_level s2 m2 (index_at 21 v) 0 0 flags p2.tree
          p2.reached p2.left in
      let (n3, n2, n1, w0) = translate_to_physical-Walk hhdm_offset s table u b before mapped in
      let at3 = p3.kept table 3 at in
      let at2 = p2.kept table 3 at3 in
      let at1 = p1.kept table 3 at2 in
      let w3 =
        IsStep-Walk hhdm_offset level s table (index_at 39 v) 2 2 m3 s3 table u b n3 n2 n1 t at at
          p3 w0 in
      let w2 =
        IsStep-Walk hhdm_offset p3.new_level s3 m3 (index_at 30 v) 1 1 m2 s2 table u b n3 n2 n1
          p3.tree at3 p3.reached p2 w3 in
      let w1 =
        IsStep-Walk hhdm_offset p2.new_level s2 m2 (index_at 21 v) 0 0 m1 s1 table u b n3 n2 n1
          p2.tree at2 p2.reached p1 w2 in
      let first2 : Leads hhdm_offset s2 table (index_at 39 v) m3 =
        IsStep-Leads hhdm_offset p3.new_level s3 m3 (index_at 30 v) 1 1 m2 s2 table (index_at 39 v)
          3 m3 p2 at3 (record { present = p3.present; to = p3.leads }) in
      let links : Links hhdm_offset s1 table v m3 m2 m1 = record {
        first =
            IsStep-Leads hhdm_offset p2.new_level s2 m2 (index_at 21 v) 0 0 m1 s1 table
              (index_at 39 v) 3 m3 p1 at2 first2;
        second =
            IsStep-Leads hhdm_offset p2.new_level s2 m2 (index_at 21 v) 0 0 m1 s1 m3 (index_at 30 v)
              2 m2 p1 (p2.kept m3 2 p3.reached) (record { present = p2.present; to = p2.leads });
        third = record { present = p1.present; to = p1.leads };
      } in
      let i = index_at 12 v in
      let w = set_address (bit_or (s1.entries m1 i) (bit_or flags entry_present)) a in
      let s' : Tables = record s1 { entries = put_entry s1.entries m1 i w } in
      (
        s',
        rw (map, e3, e2, e1) refl,
        Walk-translate_to_physical hhdm_offset s' table u b n3 n2 n1 (
            put_page-Walk p1.new_level s1 table v u b m3 m2 m1 n3 n2 n1 w p1.tree at1 p1.reached
              links differ w1),
      )
