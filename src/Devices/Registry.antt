-- ===== src/Devices/Registry.antt =====
-- A device that `device_create_at` has registered, as `devfs_open` of kernel/src/devices/manager.c sees it.
use ga_os.Base.{
  ℕ, zero, suc, ◌+◌, ◌≡◌, ◌||◌, refl, arith, true, false, Bool-cases, inl, inr, none, some,
  Option-cases, List, [], ◌∷◌, ◌==◌, take, drop,
}
use ga_os.Devices.{
  Device, Devices, created, refused, dir_len, goes_deeper, plain_device, allocate_device,
  allocate_dummy, child_of, put_child, append_device, is_duplicate, is_end, create_last, within,
  create_from, open_from,
}
use ga_os.Devices.Segments.{
  dir_len-le, dir_len-last, IsFilePath, behind-IsFilePath, tail-IsFilePath, plain_device-named,
}
use ga_os.Devices.Lists.{
  append_device-full, child_of-append, child_of-put_child, within-created, create_last-created,
}
use ga_os.Filesystem.Paths.{vfs_sanatise_path}
use ga_os.Devices.Ops.{devfs_open, open_device}
use ga_os.Devices.{skip_delimiter, device_create_at}

module _ {S : Type 0} where
  -- Opening the path leads to the new device.
  Opens : ℕ → List ℕ → Device S → Devices S → Type 0
  Opens fuel path spec list =
      (name : List ℕ) × (after : Devices S) × (open_from fuel path list
        ≡ some (some (allocate_device name spec), after))

  Opens-within :
      (fuel c : ℕ) (cs : List ℕ) (spec : Device S) (list inner : Devices S)
      → (dir_len (c ∷ cs) == 0) ≡ false
      → goes_deeper (c ∷ cs) (dir_len (c ∷ cs)) ≡ true
      → child_of (c ∷ cs) (dir_len (c ∷ cs)) list ≡ some inner
      → Opens fuel (drop (dir_len (c ∷ cs) + 1) (c ∷ cs)) spec inner
      → Opens (suc fuel) (c ∷ cs) spec list
  unfolding open_from Opens
  Opens-within fuel c cs spec list inner some_name deeper reached (name, after, opens) = (
    name,
    put_child (c ∷ cs) (dir_len (c ∷ cs)) after list,
    rw (some_name, deeper, reached, opens) refl,
  )

  -- Every further attempt to make a device at the path is refused.
  Refuses : ℕ → List ℕ → Devices S → Type 0
  Refuses fuel path list =
      (spec : Device S)
      → (after : Devices S) × (create_from fuel path spec list ≡ some (refused after))

  Refuses-within :
      (fuel c : ℕ) (cs : List ℕ) (list inner : Devices S)
      → (dir_len (c ∷ cs) == 0) ≡ false
      → goes_deeper (c ∷ cs) (dir_len (c ∷ cs)) ≡ true
      → child_of (c ∷ cs) (dir_len (c ∷ cs)) list ≡ some inner
      → Refuses fuel (drop (dir_len (c ∷ cs) + 1) (c ∷ cs)) inner
      → Refuses (suc fuel) (c ∷ cs) list
  unfolding create_from Refuses within
  Refuses-within fuel c cs list inner some_name deeper reached again spec =
      let (after, e) = again spec in
      (put_child (c ∷ cs) (dir_len (c ∷ cs)) after list, rw (some_name, deeper, reached, e) refl)

  Registered : ℕ → List ℕ → Device S → Devices S → Type 0
  Registered fuel path spec list =
      (is_end list ≡ false) × Opens fuel path spec list × Refuses fuel path list

  skip-Registered :
      (fuel c : ℕ) (cs : List ℕ) (spec : Device S) (list : Devices S)
      → (dir_len (c ∷ cs) == 0) ≡ true
      → Registered fuel cs spec list
      → Registered (suc fuel) (c ∷ cs) spec list
  unfolding open_from create_from Opens Refuses Registered
  skip-Registered fuel c cs spec list empty (full, (name, after, opens), again) =
      (full, (name, after, rw empty opens), λ spec'. rw empty (again spec'))

  append-Registered :
      (fuel c : ℕ) (cs : List ℕ) (spec : Device S) (list inner : Devices S) {list' : Devices S}
      → (dir_len (c ∷ cs) == 0) ≡ false
      → goes_deeper (c ∷ cs) (dir_len (c ∷ cs)) ≡ true
      → child_of (c ∷ cs) (dir_len (c ∷ cs)) list ≡ none
      → list' ≡ append_device list (plain_device (take (dir_len (c ∷ cs)) (c ∷ cs))) true inner
      → Registered fuel (drop (dir_len (c ∷ cs) + 1) (c ∷ cs)) spec inner
      → Registered (suc fuel) (c ∷ cs) spec list'
  unfolding Registered
  append-Registered fuel c cs spec list inner some_name deeper missing same (full, opens, again) =
      let n = dir_len (c ∷ cs) in
      let new = plain_device (take n (c ∷ cs)) in
      let reached =
        child_of-append (c ∷ cs) n list new true inner missing
          (plain_device-named S (c ∷ cs) n (dir_len-le (c ∷ cs))) full in
      rw same (
        append_device-full list new true inner,
        Opens-within fuel c cs spec (append_device list new true inner) inner some_name deeper
            reached opens,
        Refuses-within fuel c cs (append_device list new true inner) inner some_name deeper reached
            again,
      )

  put-Registered :
      (fuel c : ℕ) (cs : List ℕ) (spec : Device S) (list child inner : Devices S)
      {list' : Devices S}
      → (dir_len (c ∷ cs) == 0) ≡ false
      → goes_deeper (c ∷ cs) (dir_len (c ∷ cs)) ≡ true
      → child_of (c ∷ cs) (dir_len (c ∷ cs)) list ≡ some child
      → list' ≡ put_child (c ∷ cs) (dir_len (c ∷ cs)) inner list
      → Registered fuel (drop (dir_len (c ∷ cs) + 1) (c ∷ cs)) spec inner
      → Registered (suc fuel) (c ∷ cs) spec list'
  unfolding Registered
  put-Registered fuel c cs spec list child inner some_name deeper present same
        (full, opens, again) =
      let n = dir_len (c ∷ cs) in
      let (reached, kept) = child_of-put_child (c ∷ cs) n list inner present full in
      rw same (
        kept,
        Opens-within fuel c cs spec (put_child (c ∷ cs) n inner list) inner some_name deeper reached
            opens,
        Refuses-within fuel c cs (put_child (c ∷ cs) n inner list) inner some_name deeper reached
            again,
      )

  last-Registered :
      (fuel c : ℕ) (cs : List ℕ) (spec : Device S) (list : Devices S) {list' : Devices S}
      → IsFilePath (c ∷ cs)
      → (dir_len (c ∷ cs) == 0) ≡ false
      → goes_deeper (c ∷ cs) (dir_len (c ∷ cs)) ≡ false
      → create_last (c ∷ cs) spec list ≡ created list'
      → Registered (suc fuel) (c ∷ cs) spec list'
  unfolding open_from create_from create_last Opens Refuses Registered
  last-Registered fuel c cs spec list {list'} file some_name shallow made =
      let (full, found, again) = create_last-created (c ∷ cs) spec list file made in
      (
        full,
        (c ∷ cs, list', rw (some_name, shallow, dir_len-last (c ∷ cs) file shallow, found) refl),
        λ spec'. (list', rw (some_name, shallow, again) refl),
      )

  create_from-Registered :
      (fuel : ℕ) (path : List ℕ) (spec : Device S) (list : Devices S) {list' : Devices S}
      → IsFilePath path
      → create_from fuel path spec list ≡ some (created list')
      → Registered fuel path spec list'
  unfolding create_from
  create_from-Registered zero path spec list file e = absurd (cc)
  create_from-Registered (suc fuel) [] spec list file e = absurd (cc)
  create_from-Registered (suc fuel) (c ∷ cs) spec list {list'} file e =
      let n = dir_len (c ∷ cs) in
      let parent = take n (c ∷ cs) in
      elim (Bool-cases (n == 0)) [
        | inl empty ↦
            skip-Registered fuel c cs spec list' empty
              (create_from-Registered fuel cs spec list (tail-IsFilePath c cs file) (rw empty at e))
        | inr some_name ↦ elim (Bool-cases (goes_deeper (c ∷ cs) n)) [
          | inr shallow ↦ last-Registered fuel c cs spec list file some_name shallow (ground arith)
          | inl deeper ↦
              let behind = behind-IsFilePath (c ∷ cs) n deeper file in
              elim (Option-cases (child_of (c ∷ cs) n list)) [
                | inl missing ↦ elim (Bool-cases (is_duplicate parent list || is_end list)) [
                  | inl stuck ↦ absurd (ground arith)
                  | inr fresh ↦
                      let (inner, made, same) =
                        within-created (λ c'. append_device list (plain_device parent) true c')
                          (create_from fuel (drop (n + 1) (c ∷ cs)) spec allocate_dummy)
                          (rw (some_name, deeper, missing, fresh) at e) in
                      append-Registered fuel c cs spec list inner some_name deeper missing same (
                        create_from-Registered fuel (drop (n + 1) (c ∷ cs)) spec allocate_dummy
                          behind made)
                ]
                | inr (child, present) ↦
                    let (inner, made, same) =
                      within-created (λ c'. put_child (c ∷ cs) n c' list)
                        (create_from fuel (drop (n + 1) (c ∷ cs)) spec child)
                        (rw (some_name, deeper, present) at e) in
                    put-Registered fuel c cs spec list child inner some_name deeper present same
                      (create_from-Registered fuel (drop (n + 1) (c ∷ cs)) spec child behind made)
              ]
        ]
      ]

  -- A device that `device_create_at` has made, at a path that is not a directory's, is the one that
  -- `devfs_open` finds at the sanitised path: with the type, the callbacks and the access rights it was made with.
  pub devfs_open-device_create_at :
      (fuel len mode : ℕ) (path clean : List ℕ) (spec : Device S) (devices : Devices S) (s : S)
      {devices' : Devices S}
      → vfs_sanatise_path fuel path ≡ some (len, clean)
      → IsFilePath (skip_delimiter clean)
      → device_create_at fuel path spec devices ≡ some (created devices')
      → (name : List ℕ) × (after : Devices S) × (devfs_open fuel clean mode devices' s
          ≡ some (
            (open_device clean mode (allocate_device name spec) s).0,
            after,
            (open_device clean mode (allocate_device name spec) s).1,
          ))
  unfolding device_create_at devfs_open Registered Opens
  devfs_open-device_create_at fuel len mode path clean spec devices s sane file made =
      let (full, (name, after, opens), again) =
        create_from-Registered fuel (skip_delimiter clean) spec devices file
          (rw (device_create_at, sane) at made) in
      (name, after, rw (devfs_open, opens) refl)

  -- Where `device_create_at` has made a device, at a path that is not a directory's, every further call for
  -- the path is refused.
  pub device_create_at_once :
      (fuel len : ℕ) (path clean : List ℕ) (spec spec' : Device S) (devices : Devices S)
      {devices' : Devices S}
      → vfs_sanatise_path fuel path ≡ some (len, clean)
      → IsFilePath (skip_delimiter clean)
      → device_create_at fuel path spec devices ≡ some (created devices')
      → (after : Devices S) × (device_create_at fuel path spec' devices' ≡ some (refused after))
  unfolding device_create_at Registered Refuses
  device_create_at_once fuel len path clean spec spec' devices sane file made =
      let (full, opens, again) =
        create_from-Registered fuel (skip_delimiter clean) spec devices file
          (rw (device_create_at, sane) at made) in
      let (after, e) = again spec' in (after, rw (device_create_at, sane, e) refl)
