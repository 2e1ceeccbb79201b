-- ===== src/Syscalls.antt =====
-- kernel/src/syscalls: the system calls on file descriptors. A process is the caller's task with what
-- its node pointers point to; 0 is `nullptr`. `IS_USER_MEMORY(address, caller)` is an argument, the
-- answer of the page tables. The traces to the serial port are left out.
pub mod Descriptors
pub mod Counts
pub mod Calls
pub mod Growth
pub mod Processes
pub mod Fork
mod Tests
use ga_os.Base.{
  ℕ, zero, suc, ◌+◌, ◌-◌, ◌*◌, ◌%◌, ◌^◌, Bool, true, false, not, ◌&&◌, ◌||◌, Option, none, some,
  List, [], ◌∷◌, ◌==◌, ltb, leb, if◌then◌else◌,
}
use ga_os.Base.Int.{ℤ, pos}
use ga_os.Libc.Strings.{CString}
use ga_os.Scheduler.{Task}
use ga_os.Filesystem.Errors.{eperm, ebadf}
use ga_os.Filesystem.Node.{Opened, node, error}
use ga_os.Filesystem.Vfs.{
  Handle, MountPoint, Call, returned, panic, vfs_open, vfs_read, vfs_write, vfs_lseek, vfs_close,
  vfs_dup,
}

-- Pointers in a page, `PAGE / sizeof(vfs_fs_node_t *)`.
abbrev pub slots_per_page : ℕ
slots_per_page = 512

pub record Process (S N : Type 0) : Type 0 where
  pub task : Task
  pub nodes : ℕ → Handle S N
  pub mounts : List (MountPoint S N)
  pub state : S

abbrev pub put_slot : (ℕ → ℕ) → ℕ → ℕ → ℕ → ℕ
put_slot t fd v i = if i == fd then v else t i

-- while (fd_translation[fd] != nullptr && fd <= fd_max) fd++; with the rounds left.
pub first_free : ℕ → (ℕ → ℕ) → ℕ → ℕ → ℕ
first_free zero t fd_max fd = fd
first_free (suc k) t fd_max fd =
    let rest = first_free k t fd_max (fd + 1) in
    if not (t fd == 0) && leb fd fd_max then rest else fd

-- The larger array of `page_reallocate`: the old pages are copied and the new one is clear; `beyond`
-- is what stands in memory behind it.
pub grow_table : (ℕ → ℕ) → Task → Task
grow_table beyond t = record t {
  fd_translation = λ i.
      if ltb i (t.fd_allocated_pages * slots_per_page)
      then t.fd_translation i
      else if ltb i ((t.fd_allocated_pages + 1) * slots_per_page)
      then 0
      else beyond i;
  fd_allocated_pages = t.fd_allocated_pages + 1 + 1;
  fd_max = t.fd_max + slots_per_page;
}

-- The end of `sys_open`, from `try_again` on: the descriptor and the task, or `none` without fuel.
pub install : ℕ → (ℕ → ℕ) → ℕ → Task → Option (ℕ × Task)
install zero beyond pointer t = none
install (suc fuel) beyond pointer t =
    let fd = first_free (t.fd_max + 2) t.fd_translation t.fd_max 0 in
    let again = install fuel beyond pointer (grow_table beyond t) in
    if fd == t.fd_max
    then again
    else some (
      fd,
      record t { fd_translation = put_slot t.fd_translation fd pointer; fd_count = t.fd_count + 1 },
    )

abbrev pub Result : Type 0 → Type 0 → Type 0
Result S N = Call (ℤ × Process S N)

module _ {S N : Type 0} where
  abbrev pub put_node : (ℕ → Handle S N) → ℕ → Handle S N → ℕ → Handle S N
  put_node nodes p v a = if a == p then v else nodes a

  -- `fresh` is the pointer that the file system allocates for the node. The loop of `install` gets
  -- two rounds; `none` is a third one.
  pub sys_open :
      (beyond : ℕ → ℕ) (is_user : Bool) (path : CString) (path_len oflag fresh : ℕ)
      → Process S N
      → Option (Result S N)
  sys_open beyond is_user path path_len oflag fresh p =
      if not is_user
      then some (returned (eperm, p))
      else elim (vfs_open p.mounts (some path) path_len oflag p.state) [
        | panic ↦ some panic
        | returned (error e, s) ↦ some (returned (e, record p { state = s }))
        | returned (node h, s) ↦ elim (install 2 beyond fresh p.task) [
          | none ↦ none
          | some (fd, t) ↦ some (
              returned (pos fd, record p { task = t; nodes = put_node p.nodes fresh h; state = s }))
        ]
      ]

  pub sys_close : ℕ → Process S N → Result S N
  sys_close fd p =
      if leb p.task.fd_max fd || (p.task.fd_translation fd == 0)
      then returned (ebadf, p)
      else elim (vfs_close (some (p.nodes (p.task.fd_translation fd))) p.state) [
        | panic ↦ panic
        | returned s ↦ returned (
          pos 0,
          record p {
            task = record (p.task) {
              fd_count = (p.task.fd_count + (2 ^ 64 - 1)) % 2 ^ 64;
              fd_translation = put_slot p.task.fd_translation fd 0;
            };
            state = s;
          },
        )
      ]

  -- The node of a descriptor, as `sys_read`, `sys_write` and `sys_lseek` look it up.
  pub lookup_fd : Process S N → ℕ → Option (Handle S N)
  lookup_fd p fd =
      if leb p.task.fd_count fd
      then none
      else if p.task.fd_translation fd == 0
      then none
      else some (p.nodes (p.task.fd_translation fd))

  abbrev finish : Process S N → Call (ℤ × S) → Result S N
  finish p panic = panic
  finish p (returned (n, s)) = returned (n, record p { state = s })

  pub sys_read : (is_user : Bool) (fd buffer size : ℕ) → Process S N → Result S N
  sys_read is_user fd buffer size p =
      if not is_user then returned (eperm, p) else elim (lookup_fd p fd) [
        | none ↦ returned (ebadf, p)
        | some h ↦ finish p (vfs_read (some h) buffer size p.state)
      ]

  pub sys_write : (is_user : Bool) (fd buffer size : ℕ) → Process S N → Result S N
  sys_write is_user fd buffer size p =
      if not is_user then returned (eperm, p) else elim (lookup_fd p fd) [
        | none ↦ returned (ebadf, p)
        | some h ↦ finish p (vfs_write (some h) buffer size p.state)
      ]

  -- `node->fs->lseek` is called with no test for null, which is a fault here.
  pub sys_lseek : (fd offset whence : ℕ) → Process S N → Result S N
  sys_lseek fd offset whence p = elim (lookup_fd p fd) [
    | none ↦ returned (ebadf, p)
    | some h ↦ elim (h.fs.on_lseek) [
      | none ↦ panic
      | some callback ↦ finish p (returned (callback h.file offset whence p.state))
    ]
  ]

  -- The loop over the descriptors in `sys_fork`, with the rounds left: the child's slots, and the
  -- nodes and state after each `vfs_dup`. `fresh i` is the pointer of the copy for descriptor `i`.
  pub copy_fds :
      ℕ
      → ℕ
      → (fresh : ℕ → ℕ) → (parent child : ℕ → ℕ) → (ℕ → Handle S N)
      → S
      → Call ((ℕ → ℕ) × (ℕ → Handle S N) × S)
  copy_fds zero i fresh parent child nodes s = returned (child, nodes, s)
  copy_fds (suc k) i fresh parent child nodes s =
      let skipped = copy_fds k (i + 1) fresh parent child nodes s in
      if parent i == 0 then skipped else elim (vfs_dup (some (nodes (parent i))) s) [
        | panic ↦ panic
        | returned (h, s') ↦
            copy_fds k (i + 1) fresh parent (put_slot child i (fresh i))
              (put_node nodes (fresh i) h) s'
      ]
