-- ===== src/Io/Order.antt =====
-- The list of transfers of kernel/src/io/queue.c, in the order in which they were queued.
use ga_os.Base.{
  if_then, if_else, if◌then◌else◌, length-append, ℕ, zero, suc, ◌+◌, ◌<◌, ◌≡◌, ◌≢◌, refl, sym, ◌∙◌,
  ap, arith, Bool, true, false, Bool-cases, Option-cases, inl, inr, none, some, List, [], ◌∷◌, ◌++◌,
  ne→==, eq→==, length,
}
use mathlib.Core.Path.{subst}
use ga_os.Filesystem.Vfs.{Handle, vfs_async_task_update, vfs_async_task_unregister}
use ga_os.Io.{IoTask, Queue, put_task, append_task, io_queue_task, update_tasks, update_task}

abbrev pub NotIn : ℕ → List ℕ → Type 0
NotIn p [] = Unit {0}
NotIn p (x ∷ xs) = (x ≢ p) × NotIn p xs

abbrev pub AllApart : List ℕ → Type 0
AllApart [] = Unit {0}
AllApart (x ∷ xs) = NotIn x xs × AllApart xs

abbrev pub last_of : ℕ → List ℕ → ℕ
last_of p [] = p
last_of p (x ∷ xs) = last_of x xs

last_of-append : (x fresh : ℕ) (xs : List ℕ) → last_of x (xs ++ fresh ∷ []) ≡ fresh
last_of-append x fresh [] = refl
last_of-append x fresh (y ∷ ys) = last_of-append y fresh ys

last_of-ne : (x y : ℕ) (ys : List ℕ) → NotIn x (y ∷ ys) → x ≢ last_of y ys
last_of-ne x y [] (ne, out) e = ne (sym e)
last_of-ne x y (z ∷ zs) (ne, out) e = last_of-ne x z zs out e

NotIn-append : (x fresh : ℕ) (xs : List ℕ) → NotIn x xs → fresh ≢ x → NotIn x (xs ++ fresh ∷ [])
NotIn-append x fresh [] out ne = (ne, tt)
NotIn-append x fresh (y ∷ ys) (other, out) ne = (other, NotIn-append x fresh ys out ne)

AllApart-append :
    (fresh : ℕ) (xs : List ℕ) → AllApart xs → NotIn fresh xs → AllApart (xs ++ fresh ∷ [])
AllApart-append fresh [] apart out = (tt, tt)
AllApart-append fresh (x ∷ xs) (first, apart) (ne, out) =
    (NotIn-append x fresh xs first (λ e. ne (sym e)), AllApart-append fresh xs apart out)

-- `queue_last` is the last one, if there is one.
abbrev pub IsLast : ℕ → List ℕ → Type 0
IsLast p [] = Unit {0}
IsLast p (x ∷ xs) = p ≡ last_of x xs

module _ {S N : Type 0} where
  -- From `p` on the tasks are linked by `next` in this order.
  abbrev pub Linked : (ℕ → IoTask S N) → ℕ → List ℕ → Type 0
  Linked tasks p [] = p ≡ 0
  Linked tasks p (x ∷ xs) = (p ≡ x) × (x ≢ 0) × Linked tasks (tasks x).next xs

  -- The queue stands for the tasks in this order.
  pub record IsQueue (q : Queue S N) (xs : List ℕ) : Type 0 where
    pub linked : Linked q.tasks q.queue_start xs
    pub apart : AllApart xs
    pub last : IsLast q.queue_last xs

  -- A task outside the list may change.
  Linked-put :
      (tasks : ℕ → IoTask S N) (p : ℕ) (xs : List ℕ) (a : ℕ) (t : IoTask S N)
      → NotIn a xs
      → Linked tasks p xs
      → Linked (put_task tasks a t) p xs
  Linked-put tasks p [] a t out l = l
  Linked-put tasks p (x ∷ xs) a t (ne, out) (at, nonzero, l) =
      (at, nonzero, rw (ne→== x a ne) (Linked-put tasks (tasks x).next xs a t out l))

  -- A task is linked behind the last one.
  Linked-append :
      (tasks : ℕ → IoTask S N) (p x fresh : ℕ) (xs : List ℕ)
      → Linked tasks p (x ∷ xs)
      → AllApart (x ∷ xs)
      → NotIn fresh (x ∷ xs)
      → fresh ≢ 0
      → (tasks fresh).next ≡ 0
      → Linked
          (put_task tasks (last_of x xs) (record (tasks (last_of x xs)) { next = fresh }))
          p
          (x ∷ xs ++ fresh ∷ [])
  Linked-append tasks p x fresh [] (at, nonzero, l) apart (ne, out) some_task ends = (
    at,
    nonzero,
    rw (eq→== x x refl) (refl, some_task, rw (ne→== fresh x (λ e. ne (sym e))) ends),
  )
  Linked-append tasks p x fresh (y ∷ ys) (at, nonzero, l) (first, apart) (ne, out) some_task ends =
      (
        at,
        nonzero,
        rw (ne→== x (last_of y ys) (last_of-ne x y ys first))
            (Linked-append tasks (tasks x).next y fresh ys l apart out some_task ends),
      )

  append_task-IsQueue :
      (fresh : ℕ) (q : Queue S N) (xs : List ℕ)
      → IsQueue q xs
      → NotIn fresh xs
      → fresh ≢ 0
      → (q.tasks fresh).next ≡ 0
      → IsQueue (append_task fresh q) (xs ++ fresh ∷ [])
  unfolding append_task
  append_task-IsQueue fresh q [] k out some_task ends =
      subst (λ q'. IsQueue q' (fresh ∷ [])) (sym (if_then _ (eq→== q.queue_start 0 k.linked)))
        (record { linked = (refl, some_task, ends); apart = (tt, tt); last = refl })
  append_task-IsQueue fresh q (x ∷ xs) k out some_task ends =
      let (at, nonzero, l) = k.linked in
      subst (λ q'. IsQueue q' (x ∷ xs ++ fresh ∷ []))
        (sym (if_else _ (ne→== q.queue_start 0 (λ e. nonzero (sym at ∙ e)))))
        (record {
          linked =
              subst
                (λ r.
                  Linked (put_task q.tasks r (record (q.tasks r) { next = fresh })) q.queue_start
                    (x ∷ xs ++ fresh ∷ []))
                (sym k.last)
                (Linked-append q.tasks q.queue_start x fresh xs k.linked k.apart out some_task
                  ends);
          apart = AllApart-append fresh (x ∷ xs) k.apart out;
          last = sym (last_of-append x fresh xs);
        })

-- The two calls of the file system, by its three callbacks.
module _ {S N : Type 0} (h : Handle S N) (task : ℕ) where
  callbacks_none_register :
      h.fs.async_task_register ≡ none → (s : S) → vfs_async_task_update h task s ≡ s
  unfolding vfs_async_task_update
  callbacks_none_register a s = rw (vfs_async_task_update, a) refl

  callbacks_none_unregister :
      (r : N → ℕ → S → S)
      → h.fs.async_task_register ≡ some r
      → h.fs.async_task_unregister ≡ none
      → (s : S) → vfs_async_task_update h task s ≡ s
  unfolding vfs_async_task_update
  callbacks_none_unregister r a b s = rw (vfs_async_task_update, a, b) refl

  callbacks_none_update :
      (r u : N → ℕ → S → S)
      → h.fs.async_task_register ≡ some r
      → h.fs.async_task_unregister ≡ some u
      → h.fs.async_task_update ≡ none
      → (s : S) → vfs_async_task_update h task s ≡ s
  unfolding vfs_async_task_update
  callbacks_none_update r u a b c s = rw (vfs_async_task_update, a, b, c) refl

  callbacks_all :
      (r u t : N → ℕ → S → S)
      → h.fs.async_task_register ≡ some r
      → h.fs.async_task_unregister ≡ some u
      → h.fs.async_task_update ≡ some t
      → (s : S)
      → (vfs_async_task_update h task s ≡ t h.file task s)
        × (vfs_async_task_unregister h task s ≡ u h.file task s)
  unfolding vfs_async_task_update vfs_async_task_unregister
  callbacks_all r u t a b c s =
      (rw (vfs_async_task_update, a, b, c) refl, rw (vfs_async_task_unregister, a, b, c) refl)

module _ {S N : Type 0} (is_done : S → ℕ → Bool) (clear_done : ℕ → S → S) where
  io_queue_task-IsQueue :
      (fresh : ℕ) (handle : Handle S N) (operation buffer size offset : ℕ) (q : Queue S N)
      (xs : List ℕ)
      → IsQueue q xs
      → NotIn fresh xs
      → fresh ≢ 0
      → IsQueue
          (io_queue_task is_done clear_done fresh handle operation buffer size offset q)
          (xs ++ fresh ∷ [])
  unfolding io_queue_task
  io_queue_task-IsQueue fresh handle operation buffer size offset q xs k out some_task =
      append_task-IsQueue fresh _ xs
        (record {
          linked = Linked-put q.tasks q.queue_start xs fresh _ out k.linked;
          apart = k.apart;
          last = k.last;
        })
        out some_task (ap (λ (t : IoTask S N). t.next) (if_then _ (eq→== fresh fresh refl)))

  -- What a pass does to one transfer: nothing where it is done, or where its file system lacks a callback for
  -- transfers; else the callback that updates it runs once, and the one that unregisters it if it is done then.
  pub data Updated (tasks : ℕ → IoTask S N) (task : ℕ) : S → S → Type 0 where
    done_before : {s : S} → is_done s task ≡ true → Updated tasks task s s
    no_register :
        {s : S}
        → is_done s task ≡ false
        → (tasks task).node.fs.async_task_register ≡ none
        → Updated tasks task s s
    no_unregister :
        {s : S}
        → is_done s task ≡ false
        → (tasks task).node.fs.async_task_unregister ≡ none
        → Updated tasks task s s
    no_update :
        {s : S}
        → is_done s task ≡ false
        → (tasks task).node.fs.async_task_update ≡ none
        → Updated tasks task s s
    unfinished :
        {s : S} (register unregister update : N → ℕ → S → S)
        → is_done s task ≡ false
        → (tasks task).node.fs.async_task_register ≡ some register
        → (tasks task).node.fs.async_task_unregister ≡ some unregister
        → (tasks task).node.fs.async_task_update ≡ some update
        → is_done (update (tasks task).node.file task s) task ≡ false
        → Updated tasks task s (update (tasks task).node.file task s)
    finished :
        {s : S} (register unregister update : N → ℕ → S → S)
        → is_done s task ≡ false
        → (tasks task).node.fs.async_task_register ≡ some register
        → (tasks task).node.fs.async_task_unregister ≡ some unregister
        → (tasks task).node.fs.async_task_update ≡ some update
        → is_done (update (tasks task).node.file task s) task ≡ true
        → Updated tasks task s
            (unregister (tasks task).node.file task (update (tasks task).node.file task s))

  -- The transfers of a list one after the other.
  pub data Pass (tasks : ℕ → IoTask S N) : List ℕ → S → S → Type 0 where
    ended : {s : S} → Pass tasks [] s s
    then_rest :
        {s t u : S} (x : ℕ) (xs : List ℕ)
        → Updated tasks x s t
        → Pass tasks xs t u
        → Pass tasks (x ∷ xs) s u

  -- `update_task` with what the two calls of the file system give put in.
  update_task_by :
      (tasks : ℕ → IoTask S N) (task : ℕ) (s updated unregistered : S)
      → vfs_async_task_update (tasks task).node task s ≡ updated
      → vfs_async_task_unregister (tasks task).node task updated ≡ unregistered
      → is_done s task ≡ false
      → update_task is_done clear_done tasks task s
        ≡ (if is_done updated task then unregistered else updated)
  unfolding update_task
  update_task_by tasks task s updated unregistered e e' waits = rw (update_task, waits, e, e') refl

  kept_by :
      (tasks : ℕ → IoTask S N) (task : ℕ) (s : S)
      → is_done s task ≡ false
      → ((s' : S) → vfs_async_task_update (tasks task).node task s' ≡ s')
      → update_task is_done clear_done tasks task s ≡ s
  unfolding update_task
  kept_by tasks task s waits same = rw (update_task, waits, same s, waits) refl

  update_task-Updated :
      (tasks : ℕ → IoTask S N) (task : ℕ) (s : S)
      → Updated tasks task s (update_task is_done clear_done tasks task s)
  unfolding update_task
  update_task-Updated tasks task s =
      let file = (tasks task).node.file in
      let fs = (tasks task).node.fs in
      elim (Bool-cases (is_done s task)) [
        | inl done ↦ subst (Updated tasks task s) (sym (if_then _ done)) (done_before done)
        | inr waits ↦ elim (Option-cases fs.async_task_register) [
          | inl gap ↦
              subst (Updated tasks task s)
                (sym
                  (kept_by tasks task s waits (callbacks_none_register (tasks task).node task gap)))
                (no_register waits gap)
          | inr (register, a) ↦ elim (Option-cases fs.async_task_unregister) [
            | inl gap ↦
                subst (Updated tasks task s)
                  (sym (
                    kept_by tasks task s waits
                      (callbacks_none_unregister (tasks task).node task register a gap)))
                  (no_unregister waits gap)
            | inr (unregister, b) ↦ elim (Option-cases fs.async_task_update) [
              | inl gap ↦
                  subst (Updated tasks task s)
                    (sym (
                      kept_by tasks task s waits
                        (callbacks_none_update (tasks task).node task register unregister a b gap)))
                    (no_update waits gap)
              | inr (update, c) ↦
                  let (e, e') =
                    callbacks_all (tasks task).node task register unregister update a b c s in
                  let (f, f') =
                    callbacks_all (tasks task).node task register unregister update a b c
                      (update file task s) in
                  elim (Bool-cases (is_done (update file task s) task)) [
                    | inl now ↦
                        subst (Updated tasks task s)
                          (sym (
                            update_task_by tasks task s (update file task s)
                              (unregister file task (update file task s)) e f' waits
                            ∙ if_then _ now))
                          (finished register unregister update waits a b c now)
                    | inr later ↦
                        subst (Updated tasks task s)
                          (sym (
                            update_task_by tasks task s (update file task s)
                              (unregister file task (update file task s)) e f' waits
                            ∙ if_else _ later))
                          (unfinished register unregister update waits a b c later)
                  ]
            ]
          ]
        ]
      ]

  update_tasks-Pass :
      (fuel : ℕ) (tasks : ℕ → IoTask S N) (p : ℕ) (xs : List ℕ) (s : S)
      → Linked tasks p xs
      → length xs < fuel
      → (s' : S) × (update_tasks is_done clear_done fuel tasks p s ≡ some s') × Pass tasks xs s s'
  unfolding update_tasks
  update_tasks-Pass zero tasks p xs s l lt = absurd (omega arith)
  update_tasks-Pass (suc fuel) tasks p [] s l lt = (s, if_then _ (eq→== p 0 l), ended)
  update_tasks-Pass (suc fuel) tasks p (x ∷ xs) s (at, nonzero, l) lt =
      let (s', e, pass) =
        update_tasks-Pass fuel tasks (tasks x).next xs (update_task is_done clear_done tasks x s) l
          (omega arith) in
      (
        s',
        if_else _ (ne→== p 0 (λ e. nonzero (sym at ∙ e))) ∙ rw at e,
        then_rest x xs (update_task-Updated tasks x s) pass,
      )

  -- A transfer that is queued goes behind those that are there, and a pass of the executor with a round for each of
  -- them and one more ends: it goes over every transfer once, in the order in which they were queued. One that is
  -- done stays as it is, and so does one whose file system lacks one of the three callbacks; any other is updated
  -- once by its file system's callback, and then unregistered if that finished it.
  pub io_queue_task-update_tasks :
      (fuel fresh : ℕ) (handle : Handle S N) (operation buffer size offset : ℕ) (q q' : Queue S N)
      (xs : List ℕ) (s : S)
      → IsQueue q xs
      → NotIn fresh xs
      → fresh ≢ 0
      → q' ≡ io_queue_task is_done clear_done fresh handle operation buffer size offset q
      → length xs + 1 < fuel
      → IsQueue q' (xs ++ fresh ∷ [])
        × ((s' : S) × (update_tasks is_done clear_done fuel q'.tasks q'.queue_start s ≡ some s')
            × Pass q'.tasks (xs ++ fresh ∷ []) s s')
  io_queue_task-update_tasks fuel fresh handle operation buffer size offset q q' xs s k out
        some_task e lt =
      let k' : IsQueue q' (xs ++ fresh ∷ []) =
        subst (λ r. IsQueue r (xs ++ fresh ∷ [])) (sym e)
          (io_queue_task-IsQueue fresh handle operation buffer size offset q xs k out some_task) in
      (
        k',
        update_tasks-Pass fuel q'.tasks q'.queue_start (xs ++ fresh ∷ []) s k'.linked
            (omega (arith, length-append xs (fresh ∷ []))),
      )
