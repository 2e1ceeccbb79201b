-- ===== src/Scheduler/Cores.antt =====
-- The queues of all cores together: what a push to one of them leaves of the others.
use ga_os.Base.{ℕ, zero, suc, ◌≡◌, ◌≢◌, refl, arith, List, [], ◌∷◌, ◌++◌, sym}
use ga_os.Scheduler.{Heap, TaskQueue, Context, push_to_queue}
use ga_os.Scheduler.Links.{NotIn, Links}
use ga_os.Scheduler.Queue.{IsQueue, push_to_queue-IsQueue}
use ga_os.Scheduler.Lookup.{AllQueues}
use ga_os.Scheduler.Create.{push_at}

abbrev pub All : (ℕ → Type 0) → List ℕ → Type 0
All P [] = Unit {0}
All P (x ∷ xs) = P x × All P xs

-- Of each task of each queue.
abbrev pub EachTask : (ℕ → Type 0) → List (ℕ × List ℕ) → Type 0
EachTask P [] = Unit {0}
EachTask P ((p, rest) ∷ xss) = All P (p ∷ rest) × EachTask P xss

-- No task is in two queues.
abbrev pub Separate : List (ℕ × List ℕ) → Type 0
Separate [] = Unit {0}
Separate ((p, rest) ∷ xss) = All (λ a. EachTask (λ b. a ≢ b) xss) (p ∷ rest) × Separate xss

-- The queues with a task at the end of queue `n`.
abbrev pub append_at : ℕ → ℕ → List (ℕ × List ℕ) → List (ℕ × List ℕ)
append_at n task [] = []
append_at zero task ((p, rest) ∷ xss) = (p, rest ++ task ∷ []) ∷ xss
append_at (suc n) task (ps ∷ xss) = ps ∷ append_at n task xss

pub All-map : (P Q : ℕ → Type 0) (xs : List ℕ) → ((a : ℕ) → P a → Q a) → All P xs → All Q xs
All-map P Q [] f all = tt
All-map P Q (x ∷ xs) f all = (f x all.0, All-map P Q xs f all.1)

pub EachTask-map :
    (P Q : ℕ → Type 0) (xss : List (ℕ × List ℕ))
    → ((a : ℕ) → P a → Q a)
    → EachTask P xss
    → EachTask Q xss
EachTask-map P Q [] f all = tt
EachTask-map P Q ((p, rest) ∷ xss) f all =
    (All-map P Q (p ∷ rest) f all.0, EachTask-map P Q xss f all.1)

All-both : (P Q : ℕ → Type 0) (xs : List ℕ) → All P xs → All Q xs → All (λ a. P a × Q a) xs
All-both P Q [] l r = tt
All-both P Q (x ∷ xs) l r = ((l.0, r.0), All-both P Q xs l.1 r.1)

pub EachTask-both :
    (P Q : ℕ → Type 0) (xss : List (ℕ × List ℕ))
    → EachTask P xss
    → EachTask Q xss
    → EachTask (λ a. P a × Q a) xss
EachTask-both P Q [] all all' = tt
EachTask-both P Q ((p, rest) ∷ xss) all all' =
    (All-both P Q (p ∷ rest) all.0 all'.0, EachTask-both P Q xss all.1 all'.1)

All-NotIn : (a : ℕ) (xs : List ℕ) → All (λ b. a ≢ b) xs → NotIn a xs
All-NotIn a [] all = tt
All-NotIn a (x ∷ xs) all = (all.0, All-NotIn a xs all.1)

-- The last task of a chain is one of its tasks.
All-last :
    (P : ℕ → Type 0) (h : Heap) (p : ℕ) (rest : List ℕ) (last : ℕ)
    → Links h p rest last
    → All P (p ∷ rest)
    → P last
All-last P h p [] last l all = rw l at all.0
All-last P h p (x ∷ xs) last l all = All-last P h x xs last l.1 all.1

Links-agree :
    (h h' : Heap) (p : ℕ) (rest : List ℕ) (last : ℕ)
    → All (λ a. h' a ≡ h a) (p ∷ rest)
    → Links h p rest last
    → Links h' p rest last
Links-agree h h' p [] last same l = l
Links-agree h h' p (x ∷ xs) last same l = (rw (same.0) l.0, Links-agree h h' x xs last same.1 l.1)

-- A queue is the same on a heap that agrees on its tasks.
IsQueue-agree :
    (h h' : Heap) (q : TaskQueue) (p : ℕ) (rest : List ℕ)
    → All (λ a. h' a ≡ h a) (p ∷ rest)
    → IsQueue h q (p ∷ rest)
    → IsQueue h' q (p ∷ rest)
IsQueue-agree h h' q p rest same v = record {
  count = v.count;
  distinct = v.distinct;
  nonnull = v.nonnull;
  shape = record {
    head = v.shape.head;
    links = Links-agree h h' p rest q.last same v.shape.links;
    ends =
        (let e : h' q.last ≡ h q.last =
            All-last (λ a. h' a ≡ h a) h p rest q.last v.shape.links same in
          rw e v.shape.ends);
    single = v.shape.single;
  };
}

pub AllQueues-agree :
    (h h' : Heap) (cs : List Context) (xss : List (ℕ × List ℕ))
    → EachTask (λ a. h' a ≡ h a) xss
    → AllQueues h cs xss
    → AllQueues h' cs xss
AllQueues-agree h h' [] [] same v = tt
AllQueues-agree h h' [] (x ∷ xss) same v = elim v [ ]
AllQueues-agree h h' (c ∷ cs) [] same v = elim v [ ]
AllQueues-agree h h' (c ∷ cs) ((p, rest) ∷ xss) same v =
    (IsQueue-agree h h' c.running p rest same.0 v.0, AllQueues-agree h h' cs xss same.1 v.1)

-- A push changes the task and the last one of the queue.
push_to_queue-frame :
    (self a task : ℕ) (h : Heap) (q : TaskQueue)
    → a ≢ task
    → a ≢ q.last
    → (push_to_queue self h q task).0 a ≡ h a
unfolding push_to_queue
push_to_queue-frame self a task h q ne out = ground (arith)

push_to_queue-id :
    (self a task : ℕ) (h : Heap) (q : TaskQueue) → ((push_to_queue self h q task).0 a).id ≡ (h a).id
unfolding push_to_queue
push_to_queue-id self a task h q = ground arith

module _ (address : ℕ → ℕ) (task : ℕ) where
  pub push_at-id :
      (n a : ℕ) (h : Heap) (cs : List Context) → ((push_at address n h cs task).0 a).id ≡ (h a).id
  unfolding push_at
  push_at-id n a h [] = refl
  push_at-id zero a h (c ∷ cs) = push_to_queue-id (address c.cpu_id) a task h c.running
  push_at-id (suc n) a h (c ∷ cs) = push_at-id n a h cs

  -- A task of no queue, and not the new one, is not changed.
  push_at-frame :
      (n a : ℕ) (h : Heap) (cs : List Context) (xss : List (ℕ × List ℕ))
      → AllQueues h cs xss
      → EachTask (λ b. a ≢ b) xss
      → a ≢ task
      → (push_at address n h cs task).0 a ≡ h a
  unfolding push_at
  push_at-frame n a h [] xss v out ne = refl
  push_at-frame n a h (c ∷ cs) [] v out ne = elim v [ ]
  push_at-frame zero a h (c ∷ cs) ((p, rest) ∷ xss) v out ne =
      push_to_queue-frame (address c.cpu_id) a task h c.running ne
        (All-last (λ b. a ≢ b) h p rest c.running.last v.0.shape.links out.0)
  push_at-frame (suc n) a h (c ∷ cs) ((p, rest) ∷ xss) v out ne =
      push_at-frame n a h cs xss v.1 out.1 ne

  -- Pushing a new task keeps every queue, and puts the task at the end of one.
  pub push_at-AllQueues :
      (n : ℕ) (h : Heap) (cs : List Context) (xss : List (ℕ × List ℕ))
      → AllQueues h cs xss
      → Separate xss
      → EachTask (λ a. task ≢ a) xss
      → 0 ≢ task
      → (h task).next ≡ 0
      → AllQueues
          (push_at address n h cs task).0
          (push_at address n h cs task).1
          (append_at n task xss)
  unfolding push_at
  push_at-AllQueues n h [] [] v apart out ne fresh = tt
  push_at-AllQueues n h [] (x ∷ xss) v apart out ne fresh = elim v [ ]
  push_at-AllQueues n h (c ∷ cs) [] v apart out ne fresh = elim v [ ]
  push_at-AllQueues zero h (c ∷ cs) ((p, rest) ∷ xss) v apart out ne fresh =
      let self = address c.cpu_id in
      let others : EachTask (λ b. c.running.last ≢ b) xss =
        All-last (λ a. EachTask (λ b. a ≢ b) xss) h p rest c.running.last v.0.shape.links apart.0 in
      let both : EachTask (λ b. (c.running.last ≢ b) × (task ≢ b)) xss =
        EachTask-both (λ b. c.running.last ≢ b) (λ b. task ≢ b) xss others out.1 in
      (
        push_to_queue-IsQueue self h c.running (p ∷ rest) task v.0 (All-NotIn task (p ∷ rest) out.0)
            ne fresh,
        AllQueues-agree h (push_to_queue self h c.running task).0 cs xss
            (EachTask-map (λ b. (c.running.last ≢ b) × (task ≢ b))
              (λ b. (push_to_queue self h c.running task).0 b ≡ h b) xss
              (λ b ne'.
                push_to_queue-frame self b task h c.running (λ e. ne'.1 (sym e))
                  (λ e. ne'.0 (sym e)))
              both)
            v.1,
      )
  push_at-AllQueues (suc n) h (c ∷ cs) ((p, rest) ∷ xss) v apart out ne fresh = (
    IsQueue-agree h (push_at address n h cs task).0 c.running p rest
        (All-map (λ a. EachTask (λ b. a ≢ b) xss × (task ≢ a))
          (λ a. (push_at address n h cs task).0 a ≡ h a) (p ∷ rest)
          (λ a away. push_at-frame n a h cs xss v.1 away.0 (λ e. away.1 (sym e)))
          (All-both (λ a. EachTask (λ b. a ≢ b) xss) (λ a. task ≢ a) (p ∷ rest) apart.0 out.0))
        v.0,
    push_at-AllQueues n h cs xss v.1 apart.1 out.1 ne fresh,
  )
