-- ===== src/Io.antt =====
-- kernel/src/io/queue.c: the list of asynchronous transfers. Tasks are known by their addresses, with
-- 0 for `nullptr`; `fresh` is the address that `block_allocate` gives for a new one. The list is
-- changed under its lock.
pub mod Order
mod Tests
use ga_os.Base.{ℕ, Bool, ◌==◌, if◌then◌else◌, zero, suc, Option, none, some}
use ga_os.Filesystem.Vfs.{
  Handle, vfs_async_task_register, vfs_async_task_update, vfs_async_task_unregister,
}

-- `io_task_t`
pub record IoTask (S N : Type 0) : Type 0 where
  pub node : Handle S N
  pub operation : ℕ
  pub buffer : ℕ
  pub size : ℕ
  pub offset : ℕ
  pub is_async : Bool
  pub next : ℕ
  pub prev : ℕ

-- The state of the file systems also has `done` of each task, which they set and which is read by
-- `is_done` and cleared by `clear_done`.
pub record Queue (S N : Type 0) : Type 0 where
  pub tasks : ℕ → IoTask S N
  pub queue_start : ℕ
  pub queue_last : ℕ
  pub state : S

abbrev pub put_task : {S N : Type 0} → (ℕ → IoTask S N) → ℕ → IoTask S N → ℕ → IoTask S N
put_task tasks p t a = if a == p then t else tasks a

-- A new task goes to the end of the list.
pub append_task : {S N : Type 0} → (fresh : ℕ) → Queue S N → Queue S N
append_task fresh q =
    if q.queue_start == 0 then record q { queue_start = fresh; queue_last = fresh } else record q {
      tasks = put_task q.tasks q.queue_last (record (q.tasks q.queue_last) { next = fresh });
      queue_last = fresh;
    }

module _ {S N : Type 0} (is_done : S → ℕ → Bool) (clear_done : ℕ → S → S) where
  pub io_queue_task :
      (fresh : ℕ) (node : Handle S N) (operation buffer size offset : ℕ) → Queue S N → Queue S N
  io_queue_task fresh handle operation buffer size offset q =
      let registered = vfs_async_task_register handle fresh (clear_done fresh q.state) in
      let task : IoTask S N = record {
        node = handle;
        operation = operation;
        buffer = buffer;
        size = size;
        offset = offset;
        is_async = registered.0;
        next = 0;
        prev = if q.queue_start == 0 then 0 else q.queue_last;
      } in
      append_task fresh (record q { tasks = put_task q.tasks fresh task; state = registered.1 })

  -- A round of the loop of `io_executor_task`.
  pub update_task : (ℕ → IoTask S N) → ℕ → S → S
  update_task tasks task s =
      let updated = vfs_async_task_update (tasks task).node task s in
      if is_done s task
      then s
      else if is_done updated task
      then vfs_async_task_unregister (tasks task).node task updated
      else updated

  -- One pass of `io_executor_task` over the list, from a task on, with fuel.
  pub update_tasks : ℕ → (ℕ → IoTask S N) → (task : ℕ) → S → Option S
  update_tasks zero tasks task s = none
  update_tasks (suc fuel) tasks task s =
      let rest = update_tasks fuel tasks (tasks task).next (update_task tasks task s) in
      if task == 0 then some s else rest
