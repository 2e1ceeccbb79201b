-- ===== src/Filesystem/Node.antt =====
-- `struct vfs_fs_node` of kernel/src/filesystem/vfs.h, and what an operation on one returns.
use ga_os.Base.{ℕ, Bool, List}
use ga_os.Base.Int.{ℤ}

-- The node without its `fs` pointer: the path as the bytes that `path` and `path_length` give.
pub record Node : Type 0 where
  pub path : List ℕ
  pub mode : ℕ
  pub seek_position : ℕ
  pub max_seek_position : ℕ
  pub is_device : Bool

-- A pointer or a small negative error, as `is_error` tells them apart.
pub data Opened {ℓ} (A : Type ℓ) : Type ℓ where
  node : A → Opened A
  error : ℤ → Opened A
