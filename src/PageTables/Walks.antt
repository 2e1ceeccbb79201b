-- ===== src/PageTables/Walks.antt =====
-- The walk down page tables of kernel/src/arch/x86_64/page_table_manager, and what a step of `map` leaves of it.
use ga_os.Base.{
  ◌*◌, ℕ, suc, ◌+◌, ◌≡◌, ◌≢◌, ◌⊎◌, refl, sym, ◌∙◌, ap, arith, true, false, inl, inr, Bool-cases,
  ◌==◌, ◌&&◌, ==→eq, ==→ne, some, Option-cases, leb,
}
use ga_os.PageTables.{
  Tables, get_address, is_present, wrap, layer_of, index_at, get_next_layer, translate_to_physical,
}
use ga_os.PageTables.Tree.{IsTree, IsStep}

-- The two addresses lie in the same page, for addresses of 48 bits.
abbrev pub SamePage : ℕ → ℕ → Type 0
SamePage v u =
    (index_at 39 v ≡ index_at 39 u)
    × (index_at 30 v ≡ index_at 30 u)
    × (index_at 21 v ≡ index_at 21 u)
    × (index_at 12 v ≡ index_at 12 u)

pair_apart : (a b c d : ℕ) → ((a == b) && (c == d)) ≡ false → (a ≢ b) ⊎ (c ≢ d)
pair_apart a b c d e = elim (Bool-cases (a == b)) [
  | inl same ↦ inr (==→ne c d (ground arith))
  | inr other ↦ inl (==→ne a b other)
]

module _ (hhdm_offset : ℕ) where
  -- Entry `i` of layer `l` is present and leads to `m`.
  pub record Leads (s : Tables) (l i m : ℕ) : Type 0 where
    pub present : is_present (s.entries l i) ≡ true
    pub to : layer_of hhdm_offset (s.entries l i) ≡ m

  -- The three layers of an address.
  pub record Links (s : Tables) (table v m3 m2 m1 : ℕ) : Type 0 where
    pub first : Leads s table (index_at 39 v) m3
    pub second : Leads s m3 (index_at 30 v) m2
    pub third : Leads s m2 (index_at 21 v) m1

  -- A step keeps what the other entries lead to, and its own if that was present.
  pub IsStep-Leads :
      (level : ℕ → ℕ) (s : Tables) (l i k n m : ℕ) (s' : Tables) (l' i' j m' : ℕ)
      → IsStep hhdm_offset level s l i k n m s'
      → level l' ≡ suc j
      → Leads s l' i' m'
      → Leads s' l' i' m'
  IsStep-Leads level s l i k n m s' l' i' j m' p at d = elim (Bool-cases ((l' == l) && (i' == i))) [
    | inl same ↦
        let el : l' ≡ l = ==→eq l' l (ground arith) in
        let ei : i' ≡ i = ==→eq i' i (ground arith) in
        let before : is_present (s.entries l i) ≡ true = rw (el, ei) at d.present in
        rw (el, ei)
          (record {
            present = p.present;
            to = p.leads ∙ (p.same_layer before ∙ rw (el, ei) at d.to);
          })
    | inr other ↦
        let apart : (l' ≢ l) ⊎ (i' ≢ i) = pair_apart l' l i' i other in
        let e = p.frame l' i' j at apart in record { present = rw e d.present; to = rw e d.to }
  ]

  -- Two addresses that come to the same last layer have the same three upper indices.
  pub Links-same :
      (level : ℕ → ℕ) (s : Tables) (table v u m3 m2 n3 n2 m1 : ℕ)
      → IsTree hhdm_offset level s
      → level table ≡ 4
      → Links s table v m3 m2 m1
      → Links s table u n3 n2 m1
      → (index_at 39 v ≡ index_at 39 u)
        × (index_at 30 v ≡ index_at 30 u)
        × (index_at 21 v ≡ index_at 21 u)
  Links-same level s table v u m3 m2 n3 n2 m1 t at p q =
      let at_m3 : level m3 ≡ 3 =
        rw p.first.to at (t.below table (index_at 39 v) 2 at p.first.present) in
      let at_n3 : level n3 ≡ 3 =
        rw q.first.to at (t.below table (index_at 39 u) 2 at q.first.present) in
      let at_m2 : level m2 ≡ 2 =
        rw p.second.to at (t.below m3 (index_at 30 v) 1 at_m3 p.second.present) in
      let at_n2 : level n2 ≡ 2 =
        rw q.second.to at (t.below n3 (index_at 30 u) 1 at_n3 q.second.present) in
      let (e2, i1) =
        t.unique m2 (index_at 21 v) 0 n2 (index_at 21 u) 0 at_m2 at_n2 p.third.present
          q.third.present (p.third.to ∙ sym q.third.to) in
      let (e3, i2) =
        t.unique m3 (index_at 30 v) 1 n3 (index_at 30 u) 1 at_m3 at_n3 p.second.present
          q.second.present (p.second.to ∙ (e2 ∙ sym q.second.to)) in
      let (e4, i3) =
        t.unique table (index_at 39 v) 2 table (index_at 39 u) 2 at at p.first.present
          q.first.present (p.first.to ∙ (e3 ∙ sym q.first.to)) in
      (i3, i2, i1)

  -- A step of the walk that gives a layer.
  get_next_layer-Leads :
      (s : Tables) (l i m : ℕ)
      → get_next_layer hhdm_offset s l i ≡ some m
      → Leads s l i m × (leb (wrap (l + 8 * i)) hhdm_offset ≡ false)
  unfolding get_next_layer
  get_next_layer-Leads s l i m e = elim (Bool-cases (leb (wrap (l + 8 * i)) hhdm_offset)) [
    | inl low ↦ absurd (ground arith)
    | inr high ↦ elim (Bool-cases (is_present (s.entries l i))) [
      | inl h ↦ (record { present = h; to = ground arith }, high)
      | inr h ↦ absurd (ground arith)
    ]
  ]

  Leads-get_next_layer :
      (s : Tables) (l i m : ℕ)
      → Leads s l i m
      → leb (wrap (l + 8 * i)) hhdm_offset ≡ false
      → get_next_layer hhdm_offset s l i ≡ some m
  unfolding get_next_layer
  Leads-get_next_layer s l i m d high = rw (high, d.present, d.to) refl

  -- The walk of `arch_table_manager_translate_to_physical` for an address that is mapped.
  pub record Walk (s : Tables) (table u b n3 n2 n1 : ℕ) : Type 0 where
    pub links : Links s table u n3 n2 n1
    pub high3 : leb (wrap (table + 8 * index_at 39 u)) hhdm_offset ≡ false
    pub high2 : leb (wrap (n3 + 8 * index_at 30 u)) hhdm_offset ≡ false
    pub high1 : leb (wrap (n2 + 8 * index_at 21 u)) hhdm_offset ≡ false
    pub present : is_present (s.entries n1 (index_at 12 u)) ≡ true
    pub address : get_address (s.entries n1 (index_at 12 u)) ≡ b

  pub translate_to_physical-Walk :
      (s : Tables) (table u b : ℕ)
      → translate_to_physical hhdm_offset s table u ≡ b
      → b ≢ 0
      → (n3 : ℕ) × (n2 : ℕ) × (n1 : ℕ) × Walk s table u b n3 n2 n1
  unfolding translate_to_physical
  translate_to_physical-Walk s table u b e mapped =
      elim (Option-cases (get_next_layer hhdm_offset s table (index_at 39 u))) [
        | inl none3 ↦ absurd (mapped (ground arith))
        | inr (n3, e3) ↦ elim (Option-cases (get_next_layer hhdm_offset s n3 (index_at 30 u))) [
          | inl none2 ↦ absurd (mapped (ground arith))
          | inr (n2, e2) ↦ elim (Option-cases (get_next_layer hhdm_offset s n2 (index_at 21 u))) [
            | inl none1 ↦ absurd (mapped (ground arith))
            | inr (n1, e1) ↦ elim (Bool-cases (is_present (s.entries n1 (index_at 12 u)))) [
              | inl h ↦
                  let (d3, h3) = get_next_layer-Leads s table (index_at 39 u) n3 e3 in
                  let (d2, h2) = get_next_layer-Leads s n3 (index_at 30 u) n2 e2 in
                  let (d1, h1) = get_next_layer-Leads s n2 (index_at 21 u) n1 e1 in
                  (
                    n3,
                    n2,
                    n1,
                    record {
                      links = record { first = d3; second = d2; third = d1 };
                      high3 = h3;
                      high2 = h2;
                      high1 = h1;
                      present = h;
                      address = ground arith;
                    },
                  )
              | inr h ↦ absurd (mapped (ground arith))
            ]
          ]
        ]
      ]

  pub Walk-translate_to_physical :
      (s : Tables) (table u b n3 n2 n1 : ℕ)
      → Walk s table u b n3 n2 n1
      → translate_to_physical hhdm_offset s table u ≡ b
  unfolding translate_to_physical
  Walk-translate_to_physical s table u b n3 n2 n1 w =
      rw
        (
          translate_to_physical,
          Leads-get_next_layer s table (index_at 39 u) n3 w.links.first w.high3,
          Leads-get_next_layer s n3 (index_at 30 u) n2 w.links.second w.high2,
          Leads-get_next_layer s n2 (index_at 21 u) n1 w.links.third w.high1,
          w.present,
        )
        w.address

  -- The layers of a walk have the levels 3, 2 and 1.
  pub Links-levels :
      (level : ℕ → ℕ) (s : Tables) (table u n3 n2 n1 : ℕ)
      → IsTree hhdm_offset level s
      → level table ≡ 4
      → Links s table u n3 n2 n1
      → (level n3 ≡ 3) × (level n2 ≡ 2) × (level n1 ≡ 1)
  Links-levels level s table u n3 n2 n1 t at p =
      let at_n3 : level n3 ≡ 3 =
        rw p.first.to at (t.below table (index_at 39 u) 2 at p.first.present) in
      let at_n2 : level n2 ≡ 2 =
        rw p.second.to at (t.below n3 (index_at 30 u) 1 at_n3 p.second.present) in
      (at_n3, at_n2, rw p.third.to at (t.below n2 (index_at 21 u) 0 at_n2 p.third.present))

  -- A step keeps a walk.
  pub IsStep-Walk :
      (level : ℕ → ℕ) (s : Tables) (l i k n m : ℕ) (s' : Tables) (table u b n3 n2 n1 : ℕ)
      → IsTree hhdm_offset level s
      → level table ≡ 4
      → level l ≡ suc (suc k)
      → IsStep hhdm_offset level s l i k n m s'
      → Walk s table u b n3 n2 n1
      → Walk s' table u b n3 n2 n1
  IsStep-Walk level s l i k n m s' table u b n3 n2 n1 t at at_l p w =
      let (at_n3, at_n2, at_n1) = Links-levels level s table u n3 n2 n1 t at w.links in
      let kept : s'.entries n1 (index_at 12 u) ≡ s.entries n1 (index_at 12 u) =
        p.frame n1 (index_at 12 u) 0 at_n1 (inl (λ e. omega (arith, ap level e, at_n1, at_l))) in
      record {
        links = record {
          first = IsStep-Leads level s l i k n m s' table (index_at 39 u) 3 n3 p at w.links.first;
          second = IsStep-Leads level s l i k n m s' n3 (index_at 30 u) 2 n2 p at_n3 w.links.second;
          third = IsStep-Leads level s l i k n m s' n2 (index_at 21 u) 1 n1 p at_n2 w.links.third;
        };
        high3 = w.high3;
        high2 = w.high2;
        high1 = w.high1;
        present = rw kept w.present;
        address = rw kept w.address;
      }
