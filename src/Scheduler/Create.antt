-- ===== src/Scheduler/Create.antt =====
-- `task_scheduler_round_robin_create`: a new task on the least busy core. `fresh` is the
-- page that `page_allocate` gives for the task; the page of its descriptors is clear. The
-- SIMD state and the stack for system calls are left out.
use ga_os.Base.{ℕ, zero, suc, ◌+◌, ◌-◌, ◌%◌, ◌^◌, ltb, if◌then◌else◌, true, false, List, [], ◌∷◌}
use ga_os.Scheduler.{Task, Heap, put, Context, push_to_queue, least_busy, run_mode_running}

-- The descriptors of a page, `PAGE / sizeof(vfs_fs_node_t *)`.
abbrev pub slots_per_page : ℕ
slots_per_page = 512

unfoldable pub new_task : (name : List ℕ) (id : ℕ) → Task
new_task name id = record {
  id = id;
  name = name;
  empty = true;
  ppid = 0;
  exit_code = 0;
  run_mode = run_mode_running;
  is_waited = false;
  fd_count = 1;
  fd_max = slots_per_page;
  fd_translation = λ i. 0;
  fd_allocated_pages = 1;
  parent_queue = 0;
  next = 0;
}

-- Pushing on the queue of the context at position `n` of the list; `address` gives the address of the
-- queue of a core.
unfoldable pub push_at : (address : ℕ → ℕ) → ℕ → Heap → List Context → ℕ → Heap × List Context
push_at address n h [] task = (h, [])
push_at address zero h (c ∷ cs) task =
    let r = push_to_queue (address c.cpu_id) h c.running task in
    (r.0, record c { running = r.1 } ∷ cs)
push_at address (suc n) h (c ∷ cs) task = let r = push_at address n h cs task in (r.0, c ∷ r.1)

-- `++last_id` on the word of an `int`; a signed overflow wraps around, as the processor does it.
unfoldable pub next_id : (last_id : ℕ) → ℕ
next_id last_id = (last_id + 1) % 2 ^ 32

-- The conversion of an `int` to `uint64_t`, which extends its sign.
unfoldable pub sign_extend : ℕ → ℕ
sign_extend word = if ltb word (2 ^ 31) then word else word + (2 ^ 64 - 2 ^ 32)

-- `current` is the position of the caller's own context, and `last_id` the word of the counter. The task, its
-- identifier, the counter, the heap and the contexts.
unfoldable pub create :
    (address : ℕ → ℕ) (name : List ℕ) (fresh current last_id : ℕ)
    → Heap
    → List Context
    → ℕ × ℕ × ℕ × Heap × List Context
create address name fresh current last_id h contexts =
    let last_id' : ℕ = next_id last_id in
    let id : ℕ = sign_extend last_id' in
    let created = put h fresh (new_task name id) in
    let r = push_at address (least_busy contexts 0 (2 ^ 64 - 1) current) created contexts fresh in
    (fresh, id, last_id', r.0, r.1)
