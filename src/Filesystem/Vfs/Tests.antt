-- ===== src/Filesystem/Vfs/Tests.antt =====
-- Two mounted file systems.
use ga_os.Base.{ℕ, ◌+◌, ◌≡◌, refl, ◌==◌, if◌then◌else◌, arith, some, none, [], ◌∷◌}
use ga_os.Libc.Strings.{CString, HasLength}
use ga_os.Filesystem.Errors.{enoent}
use ga_os.Filesystem.Node.{node, error}
use ga_os.Filesystem.Vfs.{FsOps, MountPoint, returned, vfs_open}
use ga_os.Filesystem.Vfs.Mounts.{first_prefix, open_at, vfs_open-open_at}

-- Opening counts in the state and gives the node 1.
abbrev counting : FsOps ℕ ℕ
counting = record {
  name = b'c' ∷ [];
  on_open = some (λ path mode s. (node 1, s + 1));
  on_read = none;
  on_write = none;
  on_lseek = none;
  on_close = none;
  on_dup = none;
  async_task_register = none;
  async_task_update = none;
  async_task_unregister = none;
}

abbrev slash : CString
slash i = if i == 0 then b'/' else 0

abbrev slash_a : CString
slash_a i = if i == 0 then b'/' else if i == 1 then b'a' else 0

slash_a-HasLength : HasLength slash_a 2
slash_a-HasLength = record { ends = refl; before = λ i lt. ground arith }

abbrev root : MountPoint ℕ ℕ
root = record { name = slash; name_length = 1; fs = counting }

vfs_open-open_at_example : vfs_open (root ∷ []) (some slash_a) 2 0 5 ≡ (
    if slash_a 0 == b'/'
    then open_at slash_a 0 5 (first_prefix slash_a 2 (root ∷ []))
    else returned (error enoent, 5))
vfs_open-open_at_example = vfs_open-open_at (root ∷ []) slash_a 2 0 5 slash_a-HasLength
