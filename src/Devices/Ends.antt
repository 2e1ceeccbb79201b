-- ===== src/Devices/Ends.antt =====
-- The loops over a path in kernel/src/devices/manager.c.
use ga_os.Base.{
  ℕ, zero, suc, ◌+◌, ◌<◌, ◌≡◌, ◌||◌, refl, arith, true, Bool-cases, inl, inr, Option, none, some,
  Option-cases, List, [], ◌∷◌, ◌==◌, length, take, drop,
}
use ga_os.Devices.{
  Device, Devices, Created, created, refused, fault, dir_len, goes_deeper, plain_device,
  allocate_dummy, child_of, put_child, append_device, is_duplicate, is_end, create_last, within,
  create_from, find_named, open_from,
}
use ga_os.Devices.Segments.{length-drop}

module _ {S : Type 0} where
  within-some :
      (f : Devices S → Devices S) {o : Option (Created S)}
      → ((r : Created S) × (o ≡ some r))
      → (r : Created S) × (within f o ≡ some r)
  unfolding within
  within-some f (created list, e) = (created (f list), rw e refl)
  within-some f (refused list, e) = (refused (f list), rw e refl)
  within-some f (fault, e) = (fault, rw e refl)

  create_from_ends :
      (fuel : ℕ) (path : List ℕ) (spec : Device S) (list : Devices S)
      → length path < fuel
      → (r : Created S) × (create_from fuel path spec list ≡ some r)
  unfolding create_from
  create_from_ends zero path spec list lt = absurd (omega arith)
  create_from_ends (suc fuel) [] spec list lt = (refused list, refl)
  create_from_ends (suc fuel) (c ∷ cs) spec list lt =
      let n = dir_len (c ∷ cs) in
      let behind : length (drop (n + 1) (c ∷ cs)) < fuel =
        omega (arith, length-drop (c ∷ cs) (n + 1)) in
      elim (Bool-cases (n == 0)) [
        | inl empty ↦ rw empty (create_from_ends fuel cs spec list (omega arith))
        | inr some_name ↦ elim (Bool-cases (goes_deeper (c ∷ cs) n)) [
          | inr shallow ↦ (create_last (c ∷ cs) spec list, rw (some_name, shallow) refl)
          | inl deeper ↦ elim (Option-cases (child_of (c ∷ cs) n list)) [
            | inr (child, present) ↦
                rw (some_name, deeper, present)
                  (within-some (λ c'. put_child (c ∷ cs) n c' list)
                    (create_from_ends fuel (drop (n + 1) (c ∷ cs)) spec child behind))
            | inl missing ↦ elim (Bool-cases (is_duplicate (take n (c ∷ cs)) list || is_end list)) [
              | inl stuck ↦ (fault, rw (some_name, deeper, missing, stuck) refl)
              | inr fresh ↦
                  rw (some_name, deeper, missing, fresh)
                    (within-some (λ c'. append_device list (plain_device (take n (c ∷ cs))) true c')
                      (create_from_ends fuel (drop (n + 1) (c ∷ cs)) spec allocate_dummy behind))
            ]
          ]
        ]
      ]

  open_from_ends :
      (fuel : ℕ) (path : List ℕ) (list : Devices S)
      → length path < fuel
      → (r : Option (Device S) × Devices S) × (open_from fuel path list ≡ some r)
  unfolding open_from
  open_from_ends zero path list lt = absurd (omega arith)
  open_from_ends (suc fuel) [] list lt = ((none, list), refl)
  open_from_ends (suc fuel) (c ∷ cs) list lt =
      let n = dir_len (c ∷ cs) in
      let behind : length (drop (n + 1) (c ∷ cs)) < fuel =
        omega (arith, length-drop (c ∷ cs) (n + 1)) in
      elim (Bool-cases (n == 0)) [
        | inl empty ↦ rw empty (open_from_ends fuel cs list (omega arith))
        | inr some_name ↦ elim (Bool-cases (goes_deeper (c ∷ cs) n)) [
          | inr shallow ↦ ((find_named (c ∷ cs) n list, list), rw (some_name, shallow) refl)
          | inl deeper ↦ elim (Option-cases (child_of (c ∷ cs) n list)) [
            | inl missing ↦ ((none, list), rw (some_name, deeper, missing) refl)
            | inr (child, present) ↦
                let (r, e) = open_from_ends fuel (drop (n + 1) (c ∷ cs)) child behind in
                ((r.0, put_child (c ∷ cs) n r.1 list), rw (some_name, deeper, present, e) refl)
          ]
        ]
      ]

  -- The walks over a path end: both are given enough rounds by one round more than the bytes of the path.
  pub walks_end :
      (fuel : ℕ) (path : List ℕ) (spec : Device S) (list : Devices S)
      → length path < fuel
      → ((r : Created S) × (create_from fuel path spec list ≡ some r))
        × ((r : Option (Device S) × Devices S) × (open_from fuel path list ≡ some r))
  walks_end fuel path spec list lt =
      (create_from_ends fuel path spec list lt, open_from_ends fuel path list lt)
