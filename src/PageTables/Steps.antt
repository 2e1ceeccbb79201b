-- ===== src/PageTables/Steps.antt =====
-- A step down page tables, `arch_table_manager_allocate_next_layer`.
use ga_os.Base.{
  ℕ, suc, ◌+◌, ◌-◌, ◌^◌, ◌≤◌, ◌<◌, ◌≡◌, refl, ◌∙◌, bit_and, bit_or, ◌≢◌, arith, true, false,
  Bool-cases, inl, inr, ap, some, List, [], ◌∷◌, length, eq→==, ne→==, ◌==◌,
}
use ga_os.Base.Bits.{bit_and-lt, bit_or-lt}
use ga_os.PageTables.{
  Tables, get_address, is_present, entry_present, wrap, layer_of, allocate_next_layer, put_entry,
  clear_layer,
}
use ga_os.PageTables.Entries.{
  get_address-bit_or, get_address-new, is_present_iff, bit-bit_or_left, bit-bit_or_one,
}
use ga_os.PageTables.Tree.{
  IsPage, AllFresh, IsTree, IsStep, put_entry-same, put_entry-other, put_entry-IsTree,
  clear_layer-IsTree, with_level, not_present_zero,
}

uncons : (xs : List ℕ) (n : ℕ) → n < length xs → (x : ℕ) × (rest : List ℕ) × (xs ≡ x ∷ rest)
uncons [] n lt = absurd (omega arith)
uncons (x ∷ xs) n lt = (x, xs, refl)

module _ (hhdm_offset : ℕ) where
  low_flags : (flags : ℕ) → bit_and flags 0xFF < 2 ^ 8
  low_flags flags = bit_and-lt 8 flags 0xFF (omega arith)

  -- A step through an entry that is present.
  IsStep-present :
      (level : ℕ → ℕ) (s : Tables) (l i k n flags : ℕ)
      → IsTree hhdm_offset level s
      → level l ≡ suc (suc k)
      → n < length s.frames
      → is_present (s.entries l i) ≡ true
      → (m : ℕ) × (s' : Tables) × (allocate_next_layer hhdm_offset s l i flags ≡ some (m, s'))
        × IsStep hhdm_offset level s l i k n m s'
  unfolding allocate_next_layer layer_of
  IsStep-present level s l i k n flags t at room h =
      let low = bit_and flags 0xFF in
      let v = bit_or (s.entries l i) low in
      let same : get_address v ≡ get_address (s.entries l i) =
        get_address-bit_or (s.entries l i) low (low_flags flags) in
      let to : layer_of hhdm_offset v ≡ layer_of hhdm_offset (s.entries l i) = rw same refl in
      let set : is_present v ≡ true =
        (is_present_iff v).1
          (bit-bit_or_left (s.entries l i) low ((is_present_iff (s.entries l i)).0 h)) in
      let there : level (layer_of hhdm_offset v) ≡ suc k = rw to (t.below l i k at h) in
      let put = put_entry-same hhdm_offset s.entries l i v in
      (
        layer_of hhdm_offset v,
        record s { entries = put_entry s.entries l i v },
        rw h refl,
        record {
          new_level = level;
          tree =
              put_entry-IsTree hhdm_offset level s l i k v t at set there
                (λ l' i' k' at' h' e. t.unique l' i' k' l i k at' at h' h (e ∙ to));
          reached = there;
          kept = λ l' j e. e;
          present = rw put set;
          leads = ap (layer_of hhdm_offset) put;
          same_layer = λ h'. to;
          frame = λ l' i' j e apart. put_entry-other hhdm_offset s.entries l i v l' i' apart;
          left = omega arith;
        },
      )

  layer_of-new :
      (e new low : ℕ)
      → IsPage hhdm_offset new
      → e ≡ 0
      → low < 2 ^ 8
      → layer_of hhdm_offset (bit_or (bit_or e (wrap (new + (2 ^ 64 - hhdm_offset)))) low) ≡ new
  unfolding layer_of
  layer_of-new e new low p clear lt =
      let above = p.above in
      let inside = p.inside in
      let physical : wrap (new + (2 ^ 64 - hhdm_offset)) ≡ new - hhdm_offset = omega arith in
      let address : get_address (bit_or (bit_or 0 (new - hhdm_offset)) low) ≡ new - hhdm_offset =
        get_address-new (new - hhdm_offset) low p.frame lt in
      rw (clear, physical, address) (omega arith)

  -- A step through an entry that is not present takes the next page.
  IsStep-absent :
      (level : ℕ → ℕ) (s : Tables) (l i k n flags new : ℕ) (rest : List ℕ)
      → IsTree hhdm_offset level s
      → level l ≡ suc (suc k)
      → n ≤ length rest
      → s.frames ≡ new ∷ rest
      → is_present (s.entries l i) ≡ false
      → (m : ℕ) × (s' : Tables) × (allocate_next_layer hhdm_offset s l i flags ≡ some (m, s'))
        × IsStep hhdm_offset level s l i k n m s'
  unfolding allocate_next_layer
  IsStep-absent level s l i k n flags new rest t at room e h =
      let f : AllFresh hhdm_offset level (new ∷ rest) = rw e at t.fresh in
      let cleared = clear_layer s.entries new in
      let low = bit_or (bit_and flags 0xFF) entry_present in
      let small : low < 2 ^ 8 =
        bit_or-lt 8 (bit_and flags 0xFF) 1 (low_flags flags) (omega arith) in
      let v = bit_or (bit_or (cleared l i) (wrap (new + (2 ^ 64 - hhdm_offset)))) low in
      let apart : (l' j : ℕ) → level l' ≡ suc j → l' ≢ new =
        λ l' j e' same. (let nothing : level l' ≡ 0 = rw same f.1 in omega (arith, nothing, e')) in
      let clear : cleared l i ≡ 0 = rw (ne→== l new (apart l (suc k) at)) (t.empty l i k at h) in
      let to : layer_of hhdm_offset v ≡ new = layer_of-new (cleared l i) new low f.0 clear small in
      let set : is_present v ≡ true = (is_present_iff v).1 (
        bit-bit_or_one (bit_or (cleared l i) (wrap (new + (2 ^ 64 - hhdm_offset))))
          (bit_and flags 0xFF)) in
      let level' : ℕ → ℕ = with_level hhdm_offset level new (suc k) in
      let kept : (l' j : ℕ) → level l' ≡ suc j → level' l' ≡ suc j =
        λ l' j e'. rw (ne→== l' new (apart l' j e')) e' in
      let reached : level' new ≡ suc k = rw (eq→== new new refl) refl in
      let s1 : Tables = record { entries = cleared; frames = rest } in
      let new_alone : (l' i' k' : ℕ)
          → level' l' ≡ suc (suc k')
          → is_present (cleared l' i') ≡ true
          → layer_of hhdm_offset (cleared l' i') ≡ new
          → ⊥ =
        λ l' i' k' at' h' e'. elim (Bool-cases (l' == new)) [
          | inl same ↦ absurd (not_present_zero hhdm_offset (rw same at h'))
          | inr other ↦
              let below : level (layer_of hhdm_offset (s.entries l' i')) ≡ suc k' =
                t.below l' i' k' (rw other at at') (rw other at h') in
              let nothing : level (layer_of hhdm_offset (s.entries l' i')) ≡ 0 =
                rw (rw other at e') f.1 in
              omega (arith, below, nothing)
        ] in
      let put : put_entry cleared l i v l i ≡ v = put_entry-same hhdm_offset cleared l i v in
      (
        new,
        record { entries = put_entry cleared l i v; frames = rest },
        rw (h, e, to) refl,
        record {
          new_level = level';
          tree =
              put_entry-IsTree hhdm_offset level' s1 l i k v
                (clear_layer-IsTree hhdm_offset level s new k rest t e) (kept l (suc k) at) set
                (rw to reached)
                (λ l' i' k' at' h' e'. absurd (new_alone l' i' k' at' h' (e' ∙ to)));
          reached = reached;
          kept = kept;
          present = rw put set;
          leads = ap (layer_of hhdm_offset) put ∙ to;
          same_layer = λ h'. absurd (cc);
          frame = λ l' i' j e' other.
              put_entry-other hhdm_offset cleared l i v l' i' other
              ∙ rw (ne→== l' new (apart l' j e')) refl;
          left = room;
        },
      )

  -- With a page left, a step down a tree succeeds and keeps it a tree.
  pub allocate_next_layer-IsStep :
      (level : ℕ → ℕ) (s : Tables) (l i k n flags : ℕ)
      → IsTree hhdm_offset level s
      → level l ≡ suc (suc k)
      → n < length s.frames
      → (m : ℕ) × (s' : Tables) × (allocate_next_layer hhdm_offset s l i flags ≡ some (m, s'))
        × IsStep hhdm_offset level s l i k n m s'
  allocate_next_layer-IsStep level s l i k n flags t at room =
      elim (Bool-cases (is_present (s.entries l i))) [
        | inl h ↦ IsStep-present level s l i k n flags t at room h
        | inr h ↦
            let (new, rest, e) = uncons s.frames n room in
            IsStep-absent level s l i k n flags new rest t at (omega (arith, ap length e)) e h
      ]
