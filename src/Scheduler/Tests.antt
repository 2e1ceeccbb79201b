-- ===== src/Scheduler/Tests.antt =====
-- The run queue on three tasks.
use ga_os.Base.{ℕ, ◌≡◌, refl, ◌==◌, if◌then◌else◌, List, [], ◌∷◌, arith, false, inl, some}
use ga_os.Scheduler.{Task, Heap, TaskQueue, Context, is_blocked, next_task}
use ga_os.Scheduler.Queue.{IsQueue}
use ga_os.Scheduler.Choice.{
  Runnable, Blocked, IsChoice, RunsWithin, next_task-IsChoice, next_task-RunsWithin,
}

abbrev task : ℕ → ℕ → ℕ → Task
task id run_mode next = record {
  id = id;
  name = [];
  empty = false;
  ppid = 0;
  exit_code = 0;
  run_mode = run_mode;
  is_waited = false;
  fd_count = 1;
  fd_max = 512;
  fd_translation = λ i. 0;
  fd_allocated_pages = 1;
  parent_queue = 4096;
  next = next;
}

-- The tasks 10, 20 and 30, of which the first is a zombie, and a task 40 that is in no queue.
abbrev three : Heap
three a =
    if a == 10
    then task 1 1 20
    else if a == 20
    then task 2 0 30
    else if a == 30
    then task 3 0 0
    else task 4 0 0

abbrev queue : TaskQueue
queue = record { current = 10; head = 10; last = 30; count = 3 }

queue-IsQueue : IsQueue three queue (10 ∷ 20 ∷ 30 ∷ [])
queue-IsQueue = record {
  count = refl;
  distinct = ((omega arith, (omega arith, tt)), ((omega arith, tt), (tt, tt)));
  nonnull = (omega arith, (omega arith, (omega arith, tt)));
  shape = record {
    head = refl;
    links = (refl, (refl, refl));
    ends = inl refl;
    single = λ e. absurd (cc);
  };
}

Runnable-20 : Runnable three 20
unfolding is_blocked
Runnable-20 = refl

Blocked-10 : Blocked three 10
unfolding is_blocked
Blocked-10 = refl

next_task-IsChoice_example :
    (h' : Heap) × (q' : TaskQueue) × (next_task 3 three queue ≡ some (20, h', q'))
    × IsChoice three (10 ∷ []) 20 (30 ∷ []) h' q'
next_task-IsChoice_example =
    next_task-IsChoice 3 three queue (10 ∷ []) 20 (30 ∷ []) queue-IsQueue (Blocked-10, tt)
      Runnable-20 (omega arith)

next_task-RunsWithin_example : RunsWithin 20 2 three queue
next_task-RunsWithin_example =
    next_task-RunsWithin three queue (10 ∷ []) 20 (30 ∷ []) queue-IsQueue Runnable-20

abbrev core : Context
core = record { cpu_id = 0; running = queue }

abbrev cores : List Context
cores = core ∷ []
