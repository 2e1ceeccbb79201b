-- ===== src/PageTables/Tree.antt =====
-- Page tables as trees of layers.
use ga_os.Base.{
  ℕ, suc, ◌+◌, ◌-◌, ◌^◌, ◌≤◌, ◌<◌, ◌≡◌, refl, ◌∙◌, sym, ◌==◌, ◌≢◌, ◌⊎◌, if◌then◌else◌, ◌&&◌, arith,
  true, false, Bool-cases, inl, inr, ap, List, [], ◌∷◌, length, ==→eq, eq→==, ne→==,
}
use ga_os.Base.Bits.{zero-bit}
use ga_os.PageTables.{Tables, is_present, layer_of, put_entry, clear_layer}
use ga_os.PageTables.Entries.{IsFrame, is_present_iff}

module _ (hhdm_offset : ℕ) where
  -- A page that can become a layer: it is mapped behind `hhdm_offset`.
  pub record IsPage (f : ℕ) : Type 0 where
    pub frame : IsFrame (f - hhdm_offset)
    pub above : hhdm_offset < f
    pub inside : f + 4096 ≤ 2 ^ 64

  abbrev pub NotAmong : ℕ → List ℕ → Type 0
  NotAmong f [] = Unit {0}
  NotAmong f (g ∷ gs) = (f ≢ g) × NotAmong f gs

  -- The pages to come are no layers yet, and differ.
  abbrev pub AllFresh : (ℕ → ℕ) → List ℕ → Type 0
  AllFresh level [] = Unit {0}
  AllFresh level (f ∷ fs) = IsPage f × (level f ≡ 0) × NotAmong f fs × AllFresh level fs

  -- `level` is 4 at the table, 3, 2 and 1 at the layers below it, and 0 elsewhere. Above level 1 an
  -- entry is 0, or present and leads one level down, to a layer that no other entry leads to.
  pub record IsTree (level : ℕ → ℕ) (s : Tables) : Type 0 where
    pub below :
        (l i k : ℕ)
        → level l ≡ suc (suc k)
        → is_present (s.entries l i) ≡ true
        → level (layer_of hhdm_offset (s.entries l i)) ≡ suc k
    pub empty :
        (l i k : ℕ) → level l ≡ suc (suc k) → is_present (s.entries l i) ≡ false → s.entries l i ≡ 0
    pub high : (l k : ℕ) → level l ≡ suc k → (hhdm_offset < l) × (l + 4096 ≤ 2 ^ 64)
    pub fresh : AllFresh level s.frames
    pub unique :
        (l i k l' i' k' : ℕ)
        → level l ≡ suc (suc k)
        → level l' ≡ suc (suc k')
        → is_present (s.entries l i) ≡ true
        → is_present (s.entries l' i') ≡ true
        → layer_of hhdm_offset (s.entries l i) ≡ layer_of hhdm_offset (s.entries l' i')
        → (l ≡ l') × (i ≡ i')

  -- From layer `l`, entry `i`, of level `suc (suc k)` a step with `n + 1` pages left came to layer `m`.
  pub record IsStep (level : ℕ → ℕ) (s : Tables) (l i k n : ℕ) (m : ℕ) (s' : Tables) : Type 0 where
    pub new_level : ℕ → ℕ
    pub tree : IsTree new_level s'
    pub reached : new_level m ≡ suc k
    pub kept : (l' j : ℕ) → level l' ≡ suc j → new_level l' ≡ suc j
    pub present : is_present (s'.entries l i) ≡ true
    pub leads : layer_of hhdm_offset (s'.entries l i) ≡ m
    pub same_layer : is_present (s.entries l i) ≡ true → m ≡ layer_of hhdm_offset (s.entries l i)
    pub frame :
        (l' i' j : ℕ) → level l' ≡ suc j → (l' ≢ l) ⊎ (i' ≢ i) → s'.entries l' i' ≡ s.entries l' i'
    pub left : n ≤ length s'.frames

  pub put_entry-same : (t : ℕ → ℕ → ℕ) (l i v : ℕ) → put_entry t l i v l i ≡ v
  put_entry-same t l i v = rw (eq→== l l refl, eq→== i i refl) refl

  pub put_entry-other :
      (t : ℕ → ℕ → ℕ) (l i v l' i' : ℕ) → (l' ≢ l) ⊎ (i' ≢ i) → put_entry t l i v l' i' ≡ t l' i'
  put_entry-other t l i v l' i' (inl ne) = rw (ne→== l' l ne) refl
  put_entry-other t l i v l' i' (inr ne) = elim (Bool-cases (l' == l)) [
    | inl same ↦ rw (same, ne→== i' i ne) refl
    | inr other ↦ rw other refl
  ]

  -- A tree stays one when an entry is replaced by a present one that leads where the level below is.
  -- No entry but `i` of layer `l` leads to the layer `m`.
  abbrev pub LeadsOnly : (ℕ → ℕ) → Tables → (l i m : ℕ) → Type 0
  LeadsOnly level s l i m =
      (l' i' k' : ℕ)
      → level l' ≡ suc (suc k')
      → is_present (s.entries l' i') ≡ true
      → layer_of hhdm_offset (s.entries l' i') ≡ m
      → (l' ≡ l) × (i' ≡ i)

  pub put_entry-IsTree :
      (level : ℕ → ℕ) (s : Tables) (l i k v : ℕ)
      → IsTree level s
      → level l ≡ suc (suc k)
      → is_present v ≡ true
      → level (layer_of hhdm_offset v) ≡ suc k
      → LeadsOnly level s l i (layer_of hhdm_offset v)
      → IsTree level (record s { entries = put_entry s.entries l i v })
  put_entry-IsTree level s l i k v t at set to only = record {
    below = λ l' i' j at' h. elim (Bool-cases ((l' == l) && (i' == i))) [
      | inl same ↦
          let here : l' ≡ l = ==→eq l' l (ground arith) in
          let levels : suc k ≡ suc j = omega (arith, ap level here) in rw same (to ∙ levels)
      | inr other ↦ rw other (t.below l' i' j at' (rw other at h))
    ];
    empty = λ l' i' j at' h. elim (Bool-cases ((l' == l) && (i' == i))) [
      | inl same ↦ absurd (let h' : is_present v ≡ false = rw same at h in ground arith)
      | inr other ↦ rw other (t.empty l' i' j at' (rw other at h))
    ];
    high = t.high;
    fresh = t.fresh;
    unique = λ l1 i1 k1 l2 i2 k2 at1 at2 h1 h2 e. elim (Bool-cases ((l1 == l) && (i1 == i))) [
      | inl same1 ↦ elim (Bool-cases ((l2 == l) && (i2 == i))) [
        | inl same2 ↦ (ground arith, ground arith)
        | inr other2 ↦
            let (el, ei) = only l2 i2 k2 at2 (rw other2 at h2) (sym (rw (same1, other2) at e)) in
            absurd (ground arith)
      ]
      | inr other1 ↦ elim (Bool-cases ((l2 == l) && (i2 == i))) [
        | inl same2 ↦
            let (el, ei) = only l1 i1 k1 at1 (rw other1 at h1) (rw (other1, same2) at e) in
            absurd (ground arith)
        | inr other2 ↦
            t.unique l1 i1 k1 l2 i2 k2 at1 at2 (rw other1 at h1) (rw other2 at h2)
              (rw (other1, other2) at e)
      ]
    ];
  }

  -- `new` gets the level `n`.
  abbrev pub with_level : (ℕ → ℕ) → ℕ → ℕ → ℕ → ℕ
  with_level level new n a = if a == new then n else level a

  AllFresh-with_level :
      (level : ℕ → ℕ) (new n : ℕ) (fs : List ℕ)
      → NotAmong new fs
      → AllFresh level fs
      → AllFresh (with_level level new n) fs
  AllFresh-with_level level new n [] out a = tt
  AllFresh-with_level level new n (f ∷ fs) out a = (
    a.0,
    rw (ne→== f new (λ e. out.0 (sym e))) a.1,
    a.2,
    AllFresh-with_level level new n fs out.1 a.3,
  )

  pub not_present_zero : is_present 0 ≡ true → ⊥
  not_present_zero h = ground (arith, (is_present_iff 0).0 h, zero-bit 0)

  -- A cleared page is a new layer without entries.
  pub clear_layer-IsTree :
      (level : ℕ → ℕ) (s : Tables) (new k : ℕ) (rest : List ℕ)
      → IsTree level s
      → s.frames ≡ new ∷ rest
      → IsTree
          (with_level level new (suc k))
          (record { entries = clear_layer s.entries new; frames = rest })
  clear_layer-IsTree level s new k rest t e =
      let f : AllFresh level (new ∷ rest) = rw e at t.fresh in
      record {
        below = λ l i j at h. elim (Bool-cases (l == new)) [
          | inl same ↦ absurd (not_present_zero (rw same at h))
          | inr other ↦
              let below : level (layer_of hhdm_offset (s.entries l i)) ≡ suc j =
                t.below l i j (rw other at at) (rw other at h) in
              let apart : layer_of hhdm_offset (s.entries l i) ≢ new = λ e'.
                (let nothing : level (layer_of hhdm_offset (s.entries l i)) ≡ 0 = rw e' f.1 in
                  omega (arith, nothing, below)) in
              rw (other, ne→== (layer_of hhdm_offset (s.entries l i)) new apart) below
        ];
        empty = λ l i j at h. elim (Bool-cases (l == new)) [
          | inl same ↦ rw same refl
          | inr other ↦ rw other (t.empty l i j (rw other at at) (rw other at h))
        ];
        high = λ l j at. elim (Bool-cases (l == new)) [
          | inl same ↦ rw (==→eq l new same) (f.0.above, f.0.inside)
          | inr other ↦ t.high l j (rw other at at)
        ];
        fresh = AllFresh-with_level level new (suc k) rest f.2 f.3;
        unique = λ l i j l' i' j' at at' h h' e'. elim (Bool-cases (l == new)) [
          | inl same ↦ absurd (not_present_zero (rw same at h))
          | inr other ↦ elim (Bool-cases (l' == new)) [
            | inl same ↦ absurd (not_present_zero (rw same at h'))
            | inr other' ↦
                t.unique l i j l' i' j' (rw other at at) (rw other' at at') (rw other at h)
                  (rw other' at h') (rw (other, other') at e')
          ]
        ];
      }
