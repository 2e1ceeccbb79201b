-- ===== src/Scheduler/Created.antt =====
-- A task that `task_scheduler_round_robin_create` made, among the tasks of all cores.
use ga_os.Base.{ℕ, ◌+◌, ◌≤◌, ◌≢◌, List}
use ga_os.Scheduler.{Heap, put, Context}
use ga_os.Scheduler.Create.{new_task, push_at}
use ga_os.Scheduler.Lookup.{AllQueues}
use ga_os.Scheduler.Cores.{EachTask, Separate}

-- The queues of the cores `cs` are well formed and share no task, and no identifier is above the last one given.
pub record IsSystem (h : Heap) (cs : List Context) (last_id : ℕ) (xss : List (ℕ × List ℕ))
    : Type 0 where
  pub queues : AllQueues h cs xss
  pub separate : Separate xss
  pub numbered : EachTask (λ a. (h a).id ≤ last_id) xss

-- The system with the task `fresh` at the end of queue `n`, and what is found in it.
module _ (address : ℕ → ℕ) (name : List ℕ) (fresh last_id n : ℕ) (h : Heap) (cs : List Context)
    (xss : List (ℕ × List ℕ)) (v : IsSystem h cs last_id xss) (out : EachTask (λ a. fresh ≢ a) xss)
    (real : 0 ≢ fresh) where
  abbrev created : Heap
  created = put h fresh (new_task name (last_id + 1))

  abbrev pushed : Heap × List Context
  pushed = push_at address n created cs fresh
