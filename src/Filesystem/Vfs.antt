-- ===== src/Filesystem/Vfs.antt =====
-- kernel/src/filesystem/vfs.c: mount points, and the dispatch to the callbacks of a file system.
-- A callback acts on a state `S` that is the file systems' own, and a null callback is `none`. The
-- list of mount points is kept without its dummy head, and the lock makes each walk one step.
pub mod Mounts
mod Tests
use ga_os.Base.{
  ℕ, zero, suc, ◌+◌, Bool, true, false, not, ◌&&◌, ◌||◌, Option, none, some, List, [], ◌∷◌, ◌++◌,
  ◌==◌, ltb, if◌then◌else◌,
}
use ga_os.Base.Int.{ℤ, pos}
use ga_os.Libc.Strings.{CString, skip, strncmp, is_zero}
use ga_os.Filesystem.Errors.{enoent, ebadf}
use ga_os.Filesystem.Node.{Opened, node, error}

-- `struct vfs_fs_ops`, over the file systems' state and nodes.
pub record FsOps (S N : Type 0) : Type 0 where
  pub name : List ℕ
  pub on_open : Option (CString → ℕ → S → Opened N × S)
  pub on_read : Option (N → ℕ → ℕ → S → ℤ × S)
  pub on_write : Option (N → ℕ → ℕ → S → ℤ × S)
  pub on_lseek : Option (N → ℕ → ℕ → S → ℤ × S)
  pub on_close : Option (N → S → S)
  pub on_dup : Option (N → S → N × S)
  pub async_task_register : Option (N → ℕ → S → S)
  pub async_task_update : Option (N → ℕ → S → S)
  pub async_task_unregister : Option (N → ℕ → S → S)

-- A `vfs_fs_node_t *`: the node and its `fs` pointer.
pub record Handle (S N : Type 0) : Type 0 where
  pub file : N
  pub fs : FsOps S N

-- `struct vfs_mount_point`; `name_length` bytes of the name count.
pub record MountPoint (S N : Type 0) : Type 0 where
  pub name : CString
  pub name_length : ℕ
  pub fs : FsOps S N

pub data Call (A : Type 0) : Type 0 where
  returned : A → Call A
  panic : Call A

module _ {S N : Type 0} where
  -- `vfs_mount_fs`: the new mount point goes to the end; `name_len` is `strlen(name)`.
  pub vfs_mount_fs : CString → ℕ → FsOps S N → List (MountPoint S N) → List (MountPoint S N)
  vfs_mount_fs name name_len fs mounts =
      mounts ++ record { name = name; name_length = name_len; fs = fs } ∷ []

  -- The loop of `vfs_open`; `path_len` is `strlen(path)`.
  pub find_mount : CString → ℕ → List (MountPoint S N) → Option (MountPoint S N)
  find_mount path path_len [] = none
  find_mount path path_len (m ∷ ms) =
      let rest = find_mount path path_len ms in
      if ltb path_len m.name_length
      then rest
      else if is_zero (strncmp path m.name m.name_length)
      then some m
      else rest

  -- The node that a callback returned, with the file system it belongs to.
  unfoldable pub with_fs : FsOps S N → Opened N × S → Opened (Handle S N) × S
  with_fs fs r = elim r.0 [
    | node n ↦ (node (record { file = n; fs = fs }), r.1)
    | error e ↦ (error e, r.1)
  ]

  -- `none` for the path is `nullptr`.
  pub vfs_open : List (MountPoint S N) → Option CString → ℕ → ℕ → S → Call (Opened (Handle S N) × S)
  vfs_open mounts none path_len mode s = returned (error enoent, s)
  vfs_open mounts (some path) path_len mode s =
      if not (path 0 == b'/')
      then returned (error enoent, s)
      else elim (find_mount path path_len mounts) [
        | none ↦ returned (error enoent, s)
        | some m ↦ elim (m.fs.on_open) [
          | none ↦ panic
          | some callback ↦ returned (with_fs m.fs (callback (skip path m.name_length) mode s))
        ]
      ]

  -- `vfs_read`, `vfs_write` and `vfs_lseek`: a null node panics and a null callback is EBADF.
  pub vfs_read : Option (Handle S N) → ℕ → ℕ → S → Call (ℤ × S)
  vfs_read none buffer size s = panic
  vfs_read (some h) buffer size s = elim (h.fs.on_read) [
    | none ↦ returned (ebadf, s)
    | some callback ↦ returned (callback h.file buffer size s)
  ]

  pub vfs_write : Option (Handle S N) → ℕ → ℕ → S → Call (ℤ × S)
  vfs_write none buffer size s = panic
  vfs_write (some h) buffer size s = elim (h.fs.on_write) [
    | none ↦ returned (ebadf, s)
    | some callback ↦ returned (callback h.file buffer size s)
  ]

  pub vfs_lseek : Option (Handle S N) → ℕ → ℕ → S → Call (ℤ × S)
  vfs_lseek none offset whence s = panic
  vfs_lseek (some h) offset whence s = elim (h.fs.on_lseek) [
    | none ↦ returned (ebadf, s)
    | some callback ↦ returned (callback h.file offset whence s)
  ]

  -- `vfs_close` and `vfs_dup`: a null callback panics too.
  unfoldable pub vfs_close : Option (Handle S N) → S → Call S
  vfs_close none s = panic
  vfs_close (some h) s = elim (h.fs.on_close) [
    | none ↦ panic
    | some callback ↦ returned (callback h.file s)
  ]

  unfoldable pub vfs_dup : Option (Handle S N) → S → Call (Handle S N × S)
  vfs_dup none s = panic
  vfs_dup (some h) s = elim (h.fs.on_dup) [
    | none ↦ panic
    | some callback ↦
        (let r = callback h.file s in returned (record { file = r.0; fs = h.fs }, r.1))
  ]

  -- The three callbacks of asynchronous transfers, if none of them is null.
  abbrev pub async_callbacks :
      FsOps S N → Option ((N → ℕ → S → S) × (N → ℕ → S → S) × (N → ℕ → S → S))
  async_callbacks fs = elim (fs.async_task_register) [
    | none ↦ none
    | some r ↦ elim (fs.async_task_unregister) [
      | none ↦ none
      | some u ↦ elim (fs.async_task_update) [ none ↦ none | some t ↦ some (r, u, t) ]
    ]
  ]

  pub vfs_async_task_register : Handle S N → ℕ → S → Bool × S
  vfs_async_task_register h task s = elim (async_callbacks h.fs) [
    | none ↦ (false, s)
    | some c ↦ (true, c.0 h.file task s)
  ]

  unfoldable pub vfs_async_task_update : Handle S N → ℕ → S → S
  vfs_async_task_update h task s = elim (async_callbacks h.fs) [
    | none ↦ s
    | some c ↦ c.2 h.file task s
  ]

  unfoldable pub vfs_async_task_unregister : Handle S N → ℕ → S → S
  vfs_async_task_unregister h task s = elim (async_callbacks h.fs) [
    | none ↦ s
    | some c ↦ c.1 h.file task s
  ]
