-- ===== src/Devices/Lists.antt =====
-- One list of the devices of kernel/src/devices/manager.c: search, change and extension.
use ga_os.Base.{
  ℕ, ◌≡◌, refl, arith, Bool, true, false, Bool-cases, inl, inr, Option, none, some, List, length,
}
use ga_os.Libc.Strings.{strncmp, is_zero}
use ga_os.Libc.Strings.Prefix.{is_zero-strncmp_sym, strncmp-same}
use ga_os.Devices.{
  Device, Devices, end, device, Created, created, refused, fault, text, is_named, allocate_device,
  or_dummy, child_of, put_child, append_device, is_duplicate, is_end, append_last, create_last,
  within, find_named,
}
use ga_os.Devices.Segments.{IsFilePath}

module _ {S : Type 0} where
  pub find_named-append :
      (path : List ℕ) (n : ℕ) (list : Devices S) (new : Device S) (l : Bool) (c : Devices S)
      → find_named path n list ≡ none
      → is_named path n new ≡ true
      → find_named path n (append_device list new l c) ≡ some new
  unfolding find_named append_device
  find_named-append path n end new l c none_before named = rw named refl
  find_named-append path n (device d l' c' next) new l c none_before named =
      elim (Bool-cases (is_named path n d)) [
        | inl yes_d ↦ absurd (cc)
        | inr no_d ↦ rw no_d (find_named-append path n next new l c (rw no_d at none_before) named)
      ]

  or_dummy-full : (c : Devices S) → is_end c ≡ false → or_dummy c ≡ c
  or_dummy-full end full = absurd (cc)
  or_dummy-full (device d l c next) full = refl

  pub child_of-append :
      (path : List ℕ) (n : ℕ) (list : Devices S) (new : Device S) (l : Bool) (c : Devices S)
      → child_of path n list ≡ none
      → is_named path n new ≡ true
      → is_end c ≡ false
      → child_of path n (append_device list new l c) ≡ some c
  unfolding child_of append_device
  child_of-append path n end new l c none_before named full = rw (named, or_dummy-full c full) refl
  child_of-append path n (device d l' e next) new l c none_before named full =
      elim (Bool-cases (is_named path n d)) [
        | inl yes_d ↦ absurd (cc)
        | inr no_d ↦
            rw no_d (child_of-append path n next new l c (rw no_d at none_before) named full)
      ]

  pub child_of-put_child :
      (path : List ℕ) (n : ℕ) (list : Devices S) {old : Devices S} (c : Devices S)
      → child_of path n list ≡ some old
      → is_end c ≡ false
      → (child_of path n (put_child path n c list) ≡ some c)
        × (is_end (put_child path n c list) ≡ false)
  unfolding child_of put_child
  child_of-put_child path n end c found full = absurd (cc)
  child_of-put_child path n (device d l e next) c found full =
      elim (Bool-cases (is_named path n d)) [
        | inl yes_d ↦ rw (yes_d, yes_d, or_dummy-full c full) (refl, refl)
        | inr no_d ↦
            rw (no_d, no_d) ((child_of-put_child path n next c (rw no_d at found) full).0, refl)
      ]

  pub append_device-full :
      (list : Devices S) (new : Device S) (l : Bool) (c : Devices S)
      → is_end (append_device list new l c) ≡ false
  unfolding append_device
  append_device-full end new l c = refl
  append_device-full (device _ _ _ _) new l c = refl

  pub within-created :
      (f : Devices S → Devices S) (r : Option (Created S)) {list : Devices S}
      → within f r ≡ some (created list)
      → (inner : Devices S) × (r ≡ some (created inner)) × (list ≡ f inner)
  unfolding within
  within-created f none e = absurd (cc)
  within-created f (some (created inner)) e = (inner, refl, cc)
  within-created f (some (refused inner)) e = absurd (cc)
  within-created f (some fault) e = absurd (cc)

  allocate_device-named :
      (path : List ℕ) (spec : Device S)
      → is_named path (length path) (allocate_device path spec) ≡ true
  unfolding is_named
  allocate_device-named path spec =
      ground (arith, strncmp-same (length path) (text path) (text path) (λ i lt. refl))

  pub is_duplicate-unnamed :
      (path : List ℕ) (list : Devices S)
      → is_duplicate path list ≡ false
      → find_named path (length path) list ≡ none
  unfolding is_duplicate find_named is_named
  is_duplicate-unnamed path end fresh = refl
  is_duplicate-unnamed path (device d l c next) fresh = ground (
    arith,
    is_zero-strncmp_sym (length path) (text path) (text d.name),
    is_duplicate-unnamed path next (ground arith),
  )

  pub is_duplicate-append :
      (path : List ℕ) (list : Devices S) (new : Device S) (l : Bool) (c : Devices S)
      → is_zero (strncmp (text new.name) (text path) (length path)) ≡ true
      → is_duplicate path (append_device list new l c) ≡ true
  unfolding is_duplicate append_device
  is_duplicate-append path end new l c same = ground arith
  is_duplicate-append path (device d l' c' next) new l c same =
      ground (arith, is_duplicate-append path next new l c same)

  pub create_last-created :
      (path : List ℕ) (spec : Device S) (list : Devices S) {list' : Devices S}
      → IsFilePath path
      → create_last path spec list ≡ created list'
      → (is_end list' ≡ false)
        × (find_named path (length path) list' ≡ some (allocate_device path spec))
        × (is_duplicate path list' ≡ true)
  unfolding create_last append_last
  create_last-created path spec list {list'} file e = elim (Bool-cases (is_duplicate path list)) [
    | inl dup ↦ absurd (cc)
    | inr fresh ↦ elim (Bool-cases (is_end list)) [
      | inl empty ↦ absurd (cc)
      | inr full ↦
          let same : list' ≡ append_device list (allocate_device path spec) false end =
            ground (arith, file.no_dir) in
          rw (same) (
            append_device-full list (allocate_device path spec) false end,
            find_named-append path (length path) list (allocate_device path spec) false end
                (is_duplicate-unnamed path list fresh) (allocate_device-named path spec),
            is_duplicate-append path list (allocate_device path spec) false end
                (strncmp-same (length path) (text path) (text path) (λ i lt. refl)),
          )
    ]
  ]
