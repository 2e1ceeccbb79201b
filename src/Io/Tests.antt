-- ===== src/Io/Tests.antt =====
-- A transfer is queued behind another one. The state counts the callbacks, and the transfers are done from 7 on.
use ga_os.Base.{ℕ, ◌+◌, leb, ◌≡◌, refl, arith, Bool, false, some, none, [], ◌∷◌}
use ga_os.Filesystem.Vfs.{FsOps, Handle}
use ga_os.Io.{Queue, io_queue_task, update_tasks}
use ga_os.Io.Order.{IsQueue, Pass, io_queue_task-update_tasks}

abbrev plain_fs : FsOps ℕ ℕ
plain_fs = record {
  name = [];
  on_open = none;
  on_read = none;
  on_write = none;
  on_lseek = none;
  on_close = none;
  on_dup = none;
  async_task_register = some (λ file task s. s);
  async_task_update = some (λ file task s. s + 1);
  async_task_unregister = some (λ file task s. s + 10);
}

abbrev file : Handle ℕ ℕ
file = record { file = 0; fs = plain_fs }

abbrev seven_done : ℕ → ℕ → Bool
seven_done s task = leb 7 s

abbrev keep_done : ℕ → ℕ → ℕ
keep_done task s = s

abbrev one_task : Queue ℕ ℕ
one_task = record {
  tasks = λ a. record {
    node = file;
    operation = 0;
    buffer = 0;
    size = 0;
    offset = 0;
    is_async = false;
    next = 0;
    prev = 0;
  };
  queue_start = 16;
  queue_last = 16;
  state = 0;
}

one_task-IsQueue : IsQueue one_task (16 ∷ [])
one_task-IsQueue = record { linked = (refl, omega arith, refl); apart = (tt, tt); last = refl }

abbrev two_tasks : Queue ℕ ℕ
two_tasks = io_queue_task seven_done keep_done 32 file 0 4096 64 0 one_task

io_queue_task-update_tasks_example :
    IsQueue two_tasks (16 ∷ 32 ∷ [])
    × ((s' : ℕ) × (update_tasks seven_done keep_done 3 two_tasks.tasks two_tasks.queue_start 5
          ≡ some s')
        × Pass seven_done keep_done two_tasks.tasks (16 ∷ 32 ∷ []) 5 s')
io_queue_task-update_tasks_example =
    io_queue_task-update_tasks seven_done keep_done 3 32 file 0 4096 64 0 one_task two_tasks
      (16 ∷ []) 5 one_task-IsQueue (omega arith, tt) (omega arith) refl (omega arith)
