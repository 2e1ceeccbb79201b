-- ===== src/PageTables/Tests.antt =====
-- An empty table with three pages left.
use ga_os.Base.{
  suc, true, false, inl, inr, Bool-cases, ==→eq, ◌&&◌, ◌+◌, ℕ, ◌*◌, ◌^◌, ◌<◌, ◌≡◌, refl, ◌==◌,
  if◌then◌else◌, arith, some, [], ◌∷◌,
}
use ga_os.PageTables.{
  is_present, get_next_layer, layer_of, get_address, Tables, map, translate_to_physical,
}
use ga_os.PageTables.Entries.{IsFrame, bit-low}
use ga_os.PageTables.Tree.{IsTree, not_present_zero}
use ga_os.PageTables.RoundTrip.{translate_to_physical-map}
use ga_os.PageTables.Frame.{translate_to_physical-map_other}

abbrev empty_table : Tables
empty_table = record { entries = λ l i. 0; frames = 12288 ∷ 16384 ∷ 20480 ∷ [] }

abbrev level : ℕ → ℕ
level a = if a == 8192 then 4 else 0

IsFrame-page : (c : ℕ) → c < 2 ^ 40 → IsFrame (c * 2 ^ 12)
IsFrame-page c lt = record { aligned = λ i low. bit-low 12 c i low; small = omega arith }

empty_table-IsTree : IsTree 4096 level empty_table
empty_table-IsTree = record {
  below = λ l i k at h. absurd (not_present_zero 4096 h);
  empty = λ l i k at h. refl;
  unique = λ l i k l' i' k' at at' h. absurd (not_present_zero 4096 h);
  high = λ l k at. ground arith;
  fresh = (
    record { frame = IsFrame-page 2 (omega arith); above = omega arith; inside = omega arith },
    refl,
    (omega arith, (omega arith, tt)),
    (
      record { frame = IsFrame-page 3 (omega arith); above = omega arith; inside = omega arith },
      refl,
      (omega arith, tt),
      (
        record { frame = IsFrame-page 4 (omega arith); above = omega arith; inside = omega arith },
        refl,
        tt,
        tt,
      ),
    ),
  );
}

translate_to_physical-map_example :
    (level' : ℕ → ℕ) × (s' : Tables) × (map 4096 empty_table 8192 0x400000 (7 * 2 ^ 12) 3 ≡ some s')
    × IsTree 4096 level' s'
    × (level' 8192 ≡ 4)
    × (translate_to_physical 4096 s' 8192 0x400000 ≡ 7 * 2 ^ 12)
translate_to_physical-map_example =
    translate_to_physical-map 4096 level empty_table 8192 0x400000 (7 * 2 ^ 12) 3 empty_table-IsTree
      refl (IsFrame-page 7 (omega arith)) (omega arith)

-- A table in which the address 0x5000 is mapped to the page 7, with three pages left.
abbrev one_page : Tables
one_page = record {
  entries = λ l i.
      if (l == 8192) && (i == 0)
      then 8193
      else if (l == 12288) && (i == 0)
      then 12289
      else if (l == 16384) && (i == 0)
      then 16385
      else if (l == 20480) && (i == 5)
      then 28673
      else 0;
  frames = 24576 ∷ 28672 ∷ 32768 ∷ [];
}

abbrev level_of : ℕ → ℕ
level_of a =
    if a == 8192
    then 4
    else if a == 12288
    then 3
    else if a == 16384
    then 2
    else if a == 20480
    then 1
    else 0

-- Each layer but the last leads to the page behind it.
one_page-leads :
    (l i k : ℕ)
    → level_of l ≡ suc (suc k)
    → is_present (one_page.entries l i) ≡ true
    → (i ≡ 0) × (layer_of 4096 (one_page.entries l i) ≡ l + 4096) × (level_of (l + 4096) ≡ suc k)
unfolding layer_of get_address is_present
one_page-leads l i k at h = elim (Bool-cases (i == 0)) [
  | inr other ↦ absurd (ground arith)
  | inl first ↦ elim (Bool-cases (l == 8192)) [
    | inl four ↦
        let at' : 4 ≡ suc (suc k) = rw (==→eq l 8192 four) at at in
        rw (==→eq l 8192 four, ==→eq i 0 first) (refl, refl, omega arith)
    | inr below ↦ elim (Bool-cases (l == 12288)) [
      | inl three ↦
          let at' : 3 ≡ suc (suc k) = rw (==→eq l 12288 three) at at in
          rw (==→eq l 12288 three, ==→eq i 0 first) (refl, refl, omega arith)
      | inr below' ↦ elim (Bool-cases (l == 16384)) [
        | inl two ↦
            let at' : 2 ≡ suc (suc k) = rw (==→eq l 16384 two) at at in
            rw (==→eq l 16384 two, ==→eq i 0 first) (refl, refl, omega arith)
        | inr below'' ↦ absurd (ground arith)
      ]
    ]
  ]
]

one_page-empty : (l i k : ℕ) → is_present (one_page.entries l i) ≡ false → one_page.entries l i ≡ 0
unfolding is_present
one_page-empty l i k h = ground arith

one_page_before : translate_to_physical 4096 one_page 8192 0x5000 ≡ 0x7000
unfolding translate_to_physical get_next_layer layer_of get_address is_present
one_page_before = refl

one_page-IsTree : IsTree 4096 level_of one_page
one_page-IsTree = record {
  below = λ l i k at h. (let (_, to, down) = one_page-leads l i k at h in rw to down);
  empty = λ l i k at h. one_page-empty l i k h;
  high = λ l k at. ground arith;
  fresh = (
    record { frame = IsFrame-page 5 (omega arith); above = omega arith; inside = omega arith },
    refl,
    (omega arith, (omega arith, tt)),
    (
      record { frame = IsFrame-page 6 (omega arith); above = omega arith; inside = omega arith },
      refl,
      (omega arith, tt),
      (
        record { frame = IsFrame-page 7 (omega arith); above = omega arith; inside = omega arith },
        refl,
        tt,
        tt,
      ),
    ),
  );
  unique = λ l i k l' i' k' at at' h h' e.
      (let (first, to, _) = one_page-leads l i k at h in
        let (first', to', _) = one_page-leads l' i' k' at' h' in
        (omega (arith, e, to, to'), omega arith));
}

translate_to_physical-map_other_example :
    (s' : Tables) × (map 4096 one_page 8192 0x400000 (9 * 2 ^ 12) 3 ≡ some s')
    × (translate_to_physical 4096 s' 8192 0x5000 ≡ 0x7000)
translate_to_physical-map_other_example =
    translate_to_physical-map_other 4096 level_of one_page 8192 0x400000 0x5000 (9 * 2 ^ 12) 0x7000
      3 one_page-IsTree refl (omega arith) one_page_before (omega arith)
      (λ same. omega (arith, same.3))
