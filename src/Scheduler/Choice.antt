-- ===== src/Scheduler/Choice.antt =====
-- Which task `reschedule` runs next, and when a given task is run.
use mathlib.Core.List.{append_assoc}
use ga_os.Base.{
  ℕ, zero, suc, ◌<◌, ◌≡◌, refl, List, [], ◌∷◌, ◌++◌, arith, length, length-append, some, true,
  false, Bool-cases, inl, inr, ◌⊎◌, ap, ◌∙◌,
}
use ga_os.Scheduler.{Task, run_mode_zombie, Heap, TaskQueue, is_blocked, next_task}
use ga_os.Scheduler.Queue.{IsQueue, SameTasks, pop_from_queue-IsPop}

-- The task at `a` is passed over, or is not.
abbrev pub Blocked : Heap → ℕ → Type 0
Blocked h a = is_blocked (h a) ≡ true

abbrev pub Runnable : Heap → ℕ → Type 0
Runnable h a = is_blocked (h a) ≡ false

abbrev pub AllBlocked : Heap → List ℕ → Type 0
AllBlocked h [] = Unit {0}
AllBlocked h (x ∷ xs) = Blocked h x × AllBlocked h xs

is_blocked_same : (h h' : Heap) (a : ℕ) → SameTasks h h' → is_blocked (h' a) ≡ is_blocked (h a)
unfolding is_blocked
is_blocked_same h h' a same = ap is_blocked (same a)

AllBlocked-same : (h h' : Heap) (xs : List ℕ) → SameTasks h h' → AllBlocked h xs → AllBlocked h' xs
AllBlocked-same h h' [] same b = tt
AllBlocked-same h h' (x ∷ xs) same b =
    (is_blocked_same h h' x same ∙ b.0, AllBlocked-same h h' xs same b.1)

-- What a reschedule that ran `t` left of a queue that held `pre`, `t` and `post`.
pub record IsChoice (h : Heap) (pre : List ℕ) (t : ℕ) (post : List ℕ) (h' : Heap) (q' : TaskQueue)
    : Type 0 where
  pub queue : IsQueue h' q' (post ++ (pre ++ t ∷ []))
  pub current : q'.current ≡ t
  pub same : SameTasks h h'

-- `reschedule` runs the first task of the queue that is neither empty nor a zombie, makes it
-- current, and leaves it at the back, behind the tasks that it passed over; as many pops as tasks
-- are enough.
pub next_task-IsChoice :
    (fuel : ℕ) (h : Heap) (q : TaskQueue) (pre : List ℕ) (t : ℕ) (post : List ℕ)
    → IsQueue h q (pre ++ t ∷ post)
    → AllBlocked h pre
    → Runnable h t
    → length pre < fuel
    → (h' : Heap) × (q' : TaskQueue) × (next_task fuel h q ≡ some (t, h', q'))
      × IsChoice h pre t post h' q'
unfolding next_task
next_task-IsChoice zero h q pre t post v b r lt = absurd (omega arith)
next_task-IsChoice (suc fuel) h q [] t post v b r lt =
    let (h', q', e, pop) = pop_from_queue-IsPop h q t post v in
    (
      h',
      q',
      ground (arith, e, is_blocked_same h h' t pop.same),
      record { queue = pop.rotated; current = pop.current; same = pop.same },
    )
next_task-IsChoice (suc fuel) h q (p ∷ pre) t post v b r lt =
    let (h1, q1, e, pop) = pop_from_queue-IsPop h q p (pre ++ t ∷ post) v in
    let v1 : IsQueue h1 q1 (pre ++ t ∷ (post ++ p ∷ [])) =
      rw (append_assoc pre (t ∷ post) (p ∷ [])) at pop.rotated in
    let (h', q', e', c) =
      next_task-IsChoice fuel h1 q1 pre t (post ++ p ∷ []) v1
        (AllBlocked-same h h1 pre pop.same b.1) (is_blocked_same h h1 t pop.same ∙ r)
        (omega arith) in
    (
      h',
      q',
      ground (arith, e, is_blocked_same h h1 p pop.same, e'),
      record {
        queue = rw (append_assoc post (p ∷ []) (pre ++ t ∷ [])) at c.queue;
        current = c.current;
        same = λ a. c.same a ∙ pop.same a;
      },
    )

-- `t` is run by one of the next `n` reschedules, if nothing else changes the queue.
pub data RunsWithin (t : ℕ) : ℕ → Heap → TaskQueue → Type 0 where
  now :
      {n : ℕ} {h h' : Heap} {q q' : TaskQueue}
      → next_task q.count h q ≡ some (t, h', q')
      → RunsWithin t (suc n) h q
  later :
      {n : ℕ} {h h' : Heap} {q q' : TaskQueue} (u : ℕ)
      → next_task q.count h q ≡ some (u, h', q')
      → RunsWithin t n h' q'
      → RunsWithin t (suc n) h q

-- The first runnable task of a list, with what stands before and behind it.
record Split (h : Heap) (xs : List ℕ) : Type 0 where
  pre : List ℕ
  first : ℕ
  post : List ℕ
  whole : xs ≡ pre ++ first ∷ post
  passed : AllBlocked h pre
  runs : Runnable h first

split : (h : Heap) (xs : List ℕ) → AllBlocked h xs ⊎ Split h xs
split h [] = inl tt
split h (x ∷ xs) = elim (Bool-cases (is_blocked (h x))) [
  | inr r ↦ inr (record { pre = []; first = x; post = xs; whole = refl; passed = tt; runs = r })
  | inl b ↦ elim (split h xs) [
    | inl all ↦ inl (b, all)
    | inr s ↦ inr (record {
      pre = x ∷ s.pre;
      first = s.first;
      post = s.post;
      whole = ap (λ l. x ∷ l) s.whole;
      passed = (b, s.passed);
      runs = s.runs;
    })
  ]
]

count-pre :
    (h : Heap) (q : TaskQueue) (pre : List ℕ) (t : ℕ) (post : List ℕ)
    → IsQueue h q (pre ++ t ∷ post)
    → length pre < q.count
count-pre h q pre t post v = omega (arith, v.count, length-append pre (t ∷ post))

runs_within :
    (n : ℕ) (h : Heap) (q : TaskQueue) (pre : List ℕ) (t : ℕ) (post : List ℕ)
    → IsQueue h q (pre ++ t ∷ post)
    → Runnable h t
    → length pre < n
    → RunsWithin t n h q
runs_within zero h q pre t post v r lt = absurd (omega arith)
runs_within (suc n) h q pre t post v r lt = elim (split h pre) [
  | inl all ↦
      let (h', q', e, c) =
        next_task-IsChoice q.count h q pre t post v all r (count-pre h q pre t post v) in
      now e
  | inr s ↦
      let regroup : pre ++ t ∷ post ≡ s.pre ++ s.first ∷ (s.post ++ t ∷ post) =
        ap (λ l. l ++ t ∷ post) s.whole ∙ append_assoc s.pre (s.first ∷ s.post) (t ∷ post) in
      let v' : IsQueue h q (s.pre ++ s.first ∷ (s.post ++ t ∷ post)) = rw regroup at v in
      let (h', q', e, c) =
        next_task-IsChoice q.count h q s.pre s.first (s.post ++ t ∷ post) v' s.passed s.runs
          (count-pre h q s.pre s.first (s.post ++ t ∷ post) v') in
      later s.first e (
        runs_within n h' q' s.post t (post ++ (s.pre ++ s.first ∷ []))
          (rw (append_assoc s.post (t ∷ post) (s.pre ++ s.first ∷ [])) at c.queue)
          (is_blocked_same h h' t c.same ∙ r)
          (omega (arith, ap length s.whole, length-append s.pre (s.first ∷ s.post))))
]

-- A runnable task with `length pre` tasks before it in the queue is run by one of the next
-- `length pre + 1` reschedules, if nothing else changes the queue or the tasks.
pub next_task-RunsWithin :
    (h : Heap) (q : TaskQueue) (pre : List ℕ) (t : ℕ) (post : List ℕ)
    → IsQueue h q (pre ++ t ∷ post)
    → Runnable h t
    → RunsWithin t (suc (length pre)) h q
next_task-RunsWithin h q pre t post v r =
    runs_within (suc (length pre)) h q pre t post v r (omega arith)

-- A zombie is passed over.
pub is_blocked-zombie : (t : Task) → t.run_mode ≡ run_mode_zombie → is_blocked t ≡ true
unfolding is_blocked
is_blocked-zombie t e = ground arith
