-- ===== src/Filesystem/Vfs/Mounts.antt =====
-- `vfs_open` of vfs.c: which mount point opens a path.
use ga_os.Base.{
  ℕ, ◌≡◌, refl, Option, none, some, List, [], ◌∷◌, ◌++◌, arith, ◌==◌, if◌then◌else◌, Bool-cases,
  inl, inr, ◌&&◌, leb, ltb, ltb→le, ◌∙◌,
}
use ga_os.Libc.Strings.{CString, skip, HasLength}
use ga_os.Libc.Strings.Prefix.{starts, strncmp-starts}
use ga_os.Filesystem.Errors.{enoent}
use ga_os.Filesystem.Node.{Opened, error}
use ga_os.Filesystem.Vfs.{
  FsOps, Handle, MountPoint, Call, returned, panic, find_mount, with_fs, vfs_open, vfs_mount_fs,
}

module _ {S N : Type 0} where
  -- The first mount point whose whole name begins the path.
  abbrev pub first_prefix : CString → ℕ → List (MountPoint S N) → Option (MountPoint S N)
  first_prefix path n [] = none
  first_prefix path n (m ∷ ms) =
      let rest = first_prefix path n ms in
      if leb m.name_length n && starts path m.name m.name_length then some m else rest

  find_mount-first_prefix :
      (path : CString) (n : ℕ) (ms : List (MountPoint S N))
      → HasLength path n
      → find_mount path n ms ≡ first_prefix path n ms
  unfolding find_mount
  find_mount-first_prefix path n [] h = refl
  find_mount-first_prefix path n (m ∷ ms) h = elim (Bool-cases (ltb n m.name_length)) [
    | inl short ↦ ground (arith, find_mount-first_prefix path n ms h)
    | inr long ↦ ground (
      arith,
      strncmp-starts m.name_length n path m.name h (ltb→le _ _ long),
      find_mount-first_prefix path n ms h,
    )
  ]

  -- What opening a path does at the mount point that it leads to.
  abbrev pub open_at : CString → ℕ → S → Option (MountPoint S N) → Call (Opened (Handle S N) × S)
  open_at path mode s none = returned (error enoent, s)
  open_at path mode s (some m) = elim (m.fs.on_open) [
    | none ↦ panic
    | some callback ↦ returned (with_fs m.fs (callback (skip path m.name_length) mode s))
  ]

  -- A path of length `n` that does not begin with '/' gives ENOENT; any other is opened, with the
  -- mount point's name taken off, by the first mount point whose name begins it, gives ENOENT if
  -- there is none, and panics if that file system cannot open.
  pub vfs_open-open_at :
      (ms : List (MountPoint S N)) (path : CString) (n mode : ℕ) (s : S)
      → HasLength path n
      → vfs_open ms (some path) n mode s ≡ (
          if path 0 == b'/'
          then open_at path mode s (first_prefix path n ms)
          else returned (error enoent, s))
  unfolding vfs_open
  vfs_open-open_at ms path n mode s h = ground (arith, find_mount-first_prefix path n ms h)

  first_prefix-append :
      (path : CString) (n : ℕ) (ms : List (MountPoint S N)) (m : MountPoint S N)
      → first_prefix path n (ms ++ m ∷ []) ≡ elim (first_prefix path n ms) [
        | some first ↦ some first
        | none ↦ if leb m.name_length n && starts path m.name m.name_length then some m else none
      ]
  first_prefix-append path n [] m = refl
  first_prefix-append path n (x ∷ ms) m = ground (arith, first_prefix-append path n ms m)

  -- A file system that is mounted later opens a path only if no earlier mount point does.
  pub find_mount-vfs_mount_fs :
      (ms : List (MountPoint S N)) (name : CString) (name_len : ℕ) (fs : FsOps S N) (path : CString)
      (n : ℕ)
      → HasLength path n
      → find_mount path n (vfs_mount_fs name name_len fs ms) ≡ elim (first_prefix path n ms) [
        | some m ↦ some m
        | none ↦
            if leb name_len n && starts path name name_len
            then some (record { name = name; name_length = name_len; fs = fs })
            else none
      ]
  unfolding vfs_mount_fs
  find_mount-vfs_mount_fs ms name name_len fs path n h =
      find_mount-first_prefix path n _ h ∙ first_prefix-append path n ms _
