-- ===== src/Scheduler.antt =====
-- kernel/src/schedulers/task/round_robin: tasks, the run queue of a processor, and the choice of the
-- next task. Tasks live on a heap at their addresses, and a queue links them by `next`, with 0 for
-- `nullptr`. Each queue operation holds the queue's lock, so it is one step.
pub mod Links
pub mod Queue
pub mod Choice
pub mod Lookup
pub mod Create
pub mod Cores
pub mod Appended
pub mod Created
mod Tests
use ga_os.Base.{
  ℕ, zero, suc, ◌+◌, ◌-◌, ◌/◌, ◌^◌, Bool, true, false, not, ◌&&◌, ◌||◌, Option, none, some, List,
  [], ◌∷◌, ◌==◌, ltb, leb, if◌then◌else◌,
}

-- `struct scheduler_task`, without the saved registers and the SIMD area. The file descriptors are
-- the nodes that the array `fd_translation` points to, by index; 0 is `nullptr`.
pub record Task : Type 0 where
  pub id : ℕ
  pub name : List ℕ
  pub empty : Bool
  pub ppid : ℕ
  pub exit_code : ℕ
  pub run_mode : ℕ
  pub is_waited : Bool
  pub fd_count : ℕ
  pub fd_max : ℕ
  pub fd_translation : ℕ → ℕ
  pub fd_allocated_pages : ℕ
  pub parent_queue : ℕ
  pub next : ℕ

abbrev pub run_mode_running : ℕ
run_mode_running = 0

abbrev pub run_mode_zombie : ℕ
run_mode_zombie = 1

abbrev pub Heap : Type 0
Heap = ℕ → Task

abbrev pub put : Heap → ℕ → Task → Heap
put h p t a = if a == p then t else h a

-- `p->next = q`
abbrev pub set_next : Heap → ℕ → ℕ → Heap
set_next h p q = put h p (record (h p) { next = q })

-- `struct scheduler_task_queue`
pub record TaskQueue : Type 0 where
  pub current : ℕ
  pub head : ℕ
  pub last : ℕ
  pub count : ℕ

-- `task_scheduler_round_robin_pop_from_queue`; `none` is the panic on an empty queue.
pub pop_from_queue : Heap → TaskQueue → Option (ℕ × Heap × TaskQueue)
pop_from_queue h q =
    if q.head == 0
    then none
    else if ltb 1 q.count
    then (let second : ℕ = (h q.head).next in
        some (
          q.head,
          set_next (set_next h q.last q.head) q.head second,
          record q { head = second; last = q.head; current = q.head },
        ))
    else some (q.head, h, q)

-- `task_scheduler_round_robin_push_to_queue`; `self` is the queue's own address.
pub push_to_queue : ℕ → Heap → TaskQueue → ℕ → Heap × TaskQueue
push_to_queue self h q task =
    let owned : Heap = put h task (record (h task) { parent_queue = self }) in
    if ltb 0 q.count
    then (set_next owned q.last task, record q { last = task; count = q.count + 1 })
    else (owned, record { current = task; head = task; last = task; count = q.count + 1 })

-- A task that `reschedule` passes over.
pub is_blocked : Task → Bool
is_blocked t = t.empty || (t.run_mode == run_mode_zombie)

-- The choice in `task_scheduler_round_robin_reschedule`: pop until a task can run, with fuel.
pub next_task : ℕ → Heap → TaskQueue → Option (ℕ × Heap × TaskQueue)
next_task zero h q = none
next_task (suc fuel) h q = elim (pop_from_queue h q) [
  | none ↦ none
  | some r ↦ (let rest = next_task fuel r.1 r.2 in if is_blocked (r.1 r.0) then rest else some r)
]

-- The walk over one queue in `task_scheduler_round_robin_get_pid`, from `task`, with fuel.
unfoldable pub find_pid : ℕ → Heap → ℕ → ℕ → ℕ → Option ℕ
find_pid zero h head pid task = none
find_pid (suc fuel) h head pid task =
    let next : ℕ = (h task).next in
    let rest = find_pid fuel h head pid next in
    if (h task).id == pid
    then some task
    else if not (next == 0) && not (next == head)
    then rest
    else none

-- `struct scheduler_context`, the newest first, as `last_context` and `previous` link them.
pub record Context : Type 0 where
  pub cpu_id : ℕ
  pub running : TaskQueue

unfoldable pub find_in_contexts : Heap → ℕ → List Context → Option ℕ
find_in_contexts h pid [] = none
find_in_contexts h pid (c ∷ cs) =
    let rest = find_in_contexts h pid cs in
    elim (find_pid c.running.count h c.running.head pid c.running.head) [
      | some t ↦ some t
      | none ↦ rest
    ]

-- `task_scheduler_round_robin_get_pid`; `none` is `nullptr`.
unfoldable pub get_pid : Heap → List Context → ℕ → Option ℕ
get_pid h contexts pid = if pid == 0 then none else find_in_contexts h pid contexts

-- The search for the least busy core in `task_scheduler_round_robin_create`: the position of the
-- first context whose queue is the shortest so far, beginning from the current core and UINT64_MAX.
pub least_busy : List Context → ℕ → ℕ → ℕ → ℕ
least_busy [] i min free = free
least_busy (c ∷ cs) i min free =
    least_busy cs (i + 1) (if ltb c.running.count min then c.running.count else min)
      (if ltb c.running.count min then i else free)
