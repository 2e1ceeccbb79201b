-- ===== src/Syscalls/Tests.antt =====
-- Descriptors of a small process.
use ga_os.Scheduler.{Heap, Task, Context}
use ga_os.Syscalls.Processes.{waitpid_begin}
use ga_os.Syscalls.Processes.Ancestors.{IsAged, Verdict, waitpid_begin-Verdict}
use ga_os.Base.{
  ℕ, ◌+◌, ◌-◌, ◌<◌, ◌≡◌, refl, ◌≢◌, ◌==◌, if◌then◌else◌, ltb, arith, true, false, inl, some, none,
  List, [], ◌∷◌,
}
use ga_os.Base.Int.{pos}
use ga_os.Libc.Strings.{CString, HasLength}
use ga_os.Filesystem.Errors.{ebadf}
use ga_os.Filesystem.Node.{node}
use ga_os.Filesystem.Vfs.{FsOps, Handle, returned, vfs_open, vfs_close, with_fs}
use ga_os.Filesystem.Vfs.Mounts.{vfs_open-open_at}
use ga_os.Syscalls.{Process, sys_open, sys_close, sys_read, lookup_fd, slots_per_page}
use ga_os.Syscalls.Descriptors.{IsFirst, slots}
use ga_os.Syscalls.Counts.{IsCounted, open_below}
use ga_os.Syscalls.Calls.{sys_open_readable, sys_close-sys_open, sys_read_after_close}
use ga_os.Syscalls.Growth.{sys_open_grows}

-- Opening and closing count in the state.
abbrev counting : FsOps ℕ ℕ
counting = record {
  name = b'c' ∷ [];
  on_open = some (λ path mode s. (node 1, s + 1));
  on_read = none;
  on_write = none;
  on_lseek = none;
  on_close = some (λ file s. s - 1);
  on_dup = none;
  async_task_register = none;
  async_task_update = none;
  async_task_unregister = none;
}

abbrev slash : CString
slash i = if i == 0 then b'/' else 0

slash-HasLength : HasLength slash 1
slash-HasLength = record { ends = refl; before = λ i lt. ground arith }

abbrev handle : Handle ℕ ℕ
handle = record { file = 1; fs = counting }

-- A process with the descriptors below `count` open, and `fd_max` slots in one page.
abbrev process : ℕ → ℕ → Process ℕ ℕ
process count fd_max = record {
  task = record {
    id = 1;
    name = [];
    empty = false;
    ppid = 0;
    exit_code = 0;
    run_mode = 0;
    is_waited = false;
    fd_count = count + 1;
    fd_max = fd_max;
    fd_translation = λ i. if ltb i count then 9 else 0;
    fd_allocated_pages = 1;
    parent_queue = 4096;
    next = 0;
  };
  nodes = λ a. handle;
  mounts = record { name = slash; name_length = 1; fs = counting } ∷ [];
  state = 5;
}

opens :
    (count fd_max : ℕ)
    → vfs_open (process count fd_max).mounts (some slash) 1 0 5 ≡ returned (node handle, 6)
unfolding with_fs
opens count fd_max = vfs_open-open_at (process count fd_max).mounts slash 1 0 5 slash-HasLength

closes : (s : ℕ) → vfs_close (some handle) s ≡ returned (s - 1)
unfolding vfs_close
closes s = refl

three-IsCounted : IsCounted (process 3 6).task
unfolding open_below
three-IsCounted = record { counted = refl; bounded = omega arith }

three-IsFirst : IsFirst (slots (process 3 6)) 6 3
three-IsFirst = record { below = λ j lt. ground arith; near = omega arith; stops = inl refl }

sys_open_readable_example :
    (q : Process ℕ ℕ) × (sys_open (λ i. 0) true slash 1 0 7 (process 3 6)
      ≡ some (returned (pos 3, q)))
    × IsCounted q.task
    × (lookup_fd q 3 ≡ some handle)
sys_open_readable_example =
    sys_open_readable (λ i. 0) slash 1 0 7 (process 3 6) 3 handle 6 (opens 3 6) three-IsCounted
      three-IsFirst (omega arith) (omega arith)

sys_close-sys_open_example :
    (q : Process ℕ ℕ) × (r : Process ℕ ℕ) × (sys_open (λ i. 0) true slash 1 0 7 (process 3 6)
      ≡ some (returned (pos 3, q)))
    × (sys_close 3 q ≡ returned (pos 0, r))
    × (r.task.fd_count ≡ 4)
    × ((i : ℕ) → slots r i ≡ slots (process 3 6) i)
sys_close-sys_open_example =
    sys_close-sys_open (λ i. 0) slash 1 0 7 (process 3 6) 3 handle 6 5 (opens 3 6) (closes 6)
      three-IsFirst (omega arith) (omega arith) (omega arith)

sys_read_after_close_example :
    (q : Process ℕ ℕ) × (r : Process ℕ ℕ) × (sys_close 0 (process 3 6) ≡ returned (pos 0, q))
    × (sys_close 1 q ≡ returned (pos 0, r))
    × (sys_read true 2 4096 8 r ≡ returned (ebadf, r))
    × (0 ≢ slots r 2)
sys_read_after_close_example =
    sys_read_after_close (process 3 6) 0 1 2 4096 8 4 3 three-IsCounted (omega arith)
      (λ j lt. ground arith) (λ j le lt. ground arith) (omega arith) (omega arith) (closes 5)
      (closes 4)

sys_open_grows_example :
    (q : Process ℕ ℕ) × (sys_open (λ i. 0) true slash 1 0 7 (process 512 512)
      ≡ some (returned (pos 512, q)))
    × (slots q 512 ≡ 7)
    × ((j : ℕ) → j < 512 → slots q j ≡ slots (process 512 512) j)
    × (q.task.fd_max ≡ 512 + slots_per_page)
    × (q.task.fd_allocated_pages ≡ 1 + 2)
sys_open_grows_example =
    sys_open_grows (λ i. 0) slash 1 0 7 (process 512 512) handle 6 (opens 512 512)
      (λ j lt. ground arith) refl refl

abbrev tasks : Heap
tasks a = (process 3 6).task

-- The tasks 1, its child 2 and its grandchild 3, in one queue.
abbrev related : ℕ → ℕ → ℕ → Task
related id ppid next = record (process 3 6).task { id = id; ppid = ppid; next = next }

abbrev family : Heap
family a =
    if a == 4096
    then related 1 0 8192
    else if a == 8192
    then related 2 1 12288
    else if a == 12288
    then related 3 2 0
    else related 0 0 0

abbrev cores : List Context
cores =
    record { cpu_id = 0; running = record { current = 4096; head = 4096; last = 12288; count = 3 } }
    ∷ []

family-IsAged : IsAged family
family-IsAged a real = ground arith

waitpid_begin-Verdict_example :
    Verdict family cores true 4096 (pos 3) (waitpid_begin 4 true 4096 (pos 3) cores family)
waitpid_begin-Verdict_example =
    waitpid_begin-Verdict 4 family cores true 4096 (pos 3) family-IsAged (λ p e. ground (arith, e))
