-- ===== src/Syscalls/Processes/Ancestors.antt =====
-- The walk over the parents in `sys_waitpid`, and the answers before the wait.
use ga_os.Base.{
  ℕ, zero, suc, ◌<◌, ◌≡◌, ◌≢◌, refl, arith, inl, inr, Bool, true, false, Bool-cases, Option-cases,
  Option, none, some, List, [], ◌∷◌, ◌==◌, ==→eq, ==→ne, ◌∙◌, sym,
}
use ga_os.Base.Int.{ℤ, pos, negsuc}
use ga_os.Scheduler.{Heap, put, Context, find_pid, find_in_contexts, get_pid}
use ga_os.Filesystem.Errors.{echild, efault}
use ga_os.Syscalls.Processes.{Wait, refused, waiting, out_of_fuel, is_descendant, waitpid_begin}

find_pid-id :
    (fuel : ℕ) (h : Heap) (head pid task : ℕ) (found : ℕ)
    → find_pid fuel h head pid task ≡ some found
    → (h found).id ≡ pid
unfolding find_pid
find_pid-id zero h head pid task found e = absurd (cc)
find_pid-id (suc fuel) h head pid task found e = elim (Bool-cases ((h task).id == pid)) [
  | inl here ↦
      let one : task ≡ found = ground (arith, e, here) in rw one at (==→eq (h task).id pid here)
  | inr past ↦ find_pid-id fuel h head pid (h task).next found (ground (arith, e, past))
]

find_in_contexts-id :
    (h : Heap) (pid : ℕ) (cs : List Context) (found : ℕ)
    → find_in_contexts h pid cs ≡ some found
    → (h found).id ≡ pid
unfolding find_in_contexts
find_in_contexts-id h pid [] found e = absurd (cc)
find_in_contexts-id h pid (c ∷ cs) found e =
    elim (Option-cases (find_pid c.running.count h c.running.head pid c.running.head)) [
      | inl missing ↦ find_in_contexts-id h pid cs found (ground (arith, e, missing))
      | inr (t, here) ↦
          let one : t ≡ found = ground (arith, e, here) in
          rw one at (find_pid-id c.running.count h c.running.head pid c.running.head t here)
    ]

-- What a lookup finds has the identifier, which is not 0.
get_pid-id :
    (h : Heap) (pid : ℕ) (cs : List Context) (found : ℕ)
    → get_pid h cs pid ≡ some found
    → ((h found).id ≡ pid) × (pid ≢ 0)
unfolding get_pid
get_pid-id h pid cs found e = elim (Bool-cases (pid == 0)) [
  | inl null ↦ absurd (ground (arith, e, null))
  | inr real ↦ (find_in_contexts-id h pid cs found (ground (arith, e, real)), ==→ne pid 0 real)
]

-- The caller is the parent of the task, or of a parent of its.
pub data Descends (h : Heap) (contexts : List Context) (caller_id : ℕ) : ℕ → Type 0 where
  child : (task : ℕ) → (h task).ppid ≡ caller_id → Descends h contexts caller_id task
  further :
      (task parent : ℕ)
      → get_pid h contexts (h task).ppid ≡ some parent
      → Descends h contexts caller_id parent
      → Descends h contexts caller_id task

-- Parents have lower identifiers than their children, as `sys_fork` makes them.
abbrev pub IsAged : Heap → Type 0
IsAged h = (a : ℕ) → (h a).id ≢ 0 → (h a).ppid < (h a).id

pub data Answer (h : Heap) (contexts : List Context) (caller_id task : ℕ)
    : Option Bool → Type 0 where
  descendant : Descends h contexts caller_id task → Answer h contexts caller_id task (some true)
  stranger :
      (Descends h contexts caller_id task → ⊥) → Answer h contexts caller_id task (some false)

no_further :
    (h : Heap) (contexts : List Context) (caller_id task : ℕ)
    → (h task).ppid ≢ caller_id
    → get_pid h contexts (h task).ppid ≡ none
    → Descends h contexts caller_id task
    → ⊥
no_further h contexts caller_id task ne e (child _ is) = ne is
no_further h contexts caller_id task ne e (further _ parent at d) = cc (e, at)

only_further :
    (h : Heap) (contexts : List Context) (caller_id task parent : ℕ)
    → (h task).ppid ≢ caller_id
    → get_pid h contexts (h task).ppid ≡ some parent
    → Descends h contexts caller_id task
    → Descends h contexts caller_id parent
only_further h contexts caller_id task parent ne e (child _ is) = absurd (ne is)
only_further h contexts caller_id task parent ne e (further _ other at d) =
    let one : other ≡ parent = cc (e, at) in rw one at d

not_child :
    (h : Heap) (contexts : List Context) (caller_id task : ℕ)
    → (h task).ppid ≢ caller_id
    → get_pid h contexts (h task).ppid ≡ none
    → Answer h contexts caller_id task (some false)
not_child h contexts caller_id task ne e = stranger (no_further h contexts caller_id task ne e)

-- The answer about a task that is not a child is the answer about its parent.
lift :
    (h : Heap) (contexts : List Context) (caller_id task parent : ℕ) (r : Option Bool)
    → (h task).ppid ≢ caller_id
    → get_pid h contexts (h task).ppid ≡ some parent
    → Answer h contexts caller_id parent r
    → Answer h contexts caller_id task r
lift h contexts caller_id task parent _ ne e (descendant d) = descendant (further task parent e d)
lift h contexts caller_id task parent _ ne e (stranger no_way) =
    stranger (λ d. no_way (only_further h contexts caller_id task parent ne e d))

-- The walk ends, with the truth, when parents have lower identifiers.
pub is_descendant-Answer :
    (fuel : ℕ) (h : Heap) (contexts : List Context) (caller_id task : ℕ)
    → IsAged h
    → (h task).id ≢ 0
    → (h task).id < fuel
    → Answer h contexts caller_id task (is_descendant fuel h contexts caller_id task)
unfolding is_descendant
is_descendant-Answer zero h contexts caller_id task aged real lt = absurd (omega arith)
is_descendant-Answer (suc fuel) h contexts caller_id task aged real lt =
    elim (Bool-cases ((h task).ppid == caller_id)) [
      | inl own ↦ rw own (descendant (child task (==→eq (h task).ppid caller_id own)))
      | inr other ↦
          let ne : (h task).ppid ≢ caller_id = ==→ne (h task).ppid caller_id other in
          elim (Option-cases (get_pid h contexts (h task).ppid)) [
            | inl missing ↦ rw (other, missing) (not_child h contexts caller_id task ne missing)
            | inr (parent, e) ↦
                let known : ((h parent).id ≡ (h task).ppid) × ((h task).ppid ≢ 0) =
                  get_pid-id h (h task).ppid contexts parent e in
                let older : (h task).ppid < (h task).id = aged task real in
                rw (other, e)
                  (lift h contexts caller_id task parent
                    (is_descendant fuel h contexts caller_id parent) ne e
                    (is_descendant-Answer fuel h contexts caller_id parent aged
                      (λ z. known.1 (sym known.0 ∙ z)) (omega arith)))
          ]
    ]

-- The answers of `sys_waitpid` before it waits.
pub data Verdict (h : Heap) (contexts : List Context) (is_user : Bool) (caller : ℕ)
    : ℤ → Wait → Type 0 where
  negative : (n : ℕ) → Verdict h contexts is_user caller (negsuc n) (refused echild)
  absent :
      (pid : ℕ)
      → get_pid h contexts pid ≡ none
      → Verdict h contexts is_user caller (pos pid) (refused echild)
  taken :
      (pid task : ℕ)
      → get_pid h contexts pid ≡ some task
      → (h task).is_waited ≡ true
      → Verdict h contexts is_user caller (pos pid) (refused echild)
  bad_pointer :
      (pid task : ℕ)
      → get_pid h contexts pid ≡ some task
      → (h task).is_waited ≡ false
      → is_user ≡ false
      → Verdict h contexts is_user caller (pos pid) (refused efault)
  unrelated :
      (pid task : ℕ)
      → get_pid h contexts pid ≡ some task
      → (h task).is_waited ≡ false
      → is_user ≡ true
      → (Descends h contexts (h caller).id task → ⊥)
      → Verdict h contexts is_user caller (pos pid) (refused echild)
  admitted :
      (pid task : ℕ)
      → get_pid h contexts pid ≡ some task
      → (h task).is_waited ≡ false
      → is_user ≡ true
      → Descends h contexts (h caller).id task
      → Verdict h contexts is_user caller
          (pos pid)
          (waiting task (put h task (record (h task) { is_waited = true })))

-- The end of the checks, after the walk.
concluded : Heap → ℕ → Option Bool → Wait
concluded h task r = elim r [
  | none ↦ out_of_fuel
  | some false ↦ refused echild
  | some true ↦ waiting task (put h task (record (h task) { is_waited = true }))
]

concluded-Verdict :
    (h : Heap) (contexts : List Context) (caller pid task : ℕ) (r : Option Bool)
    → get_pid h contexts pid ≡ some task
    → (h task).is_waited ≡ false
    → Answer h contexts (h caller).id task r
    → Verdict h contexts true caller (pos pid) (concluded h task r)
unfolding concluded
concluded-Verdict h contexts caller pid task _ e free (descendant d) =
    admitted pid task e free refl d
concluded-Verdict h contexts caller pid task _ e free (stranger no_way) =
    unrelated pid task e free refl no_way

-- On a heap where parents have lower identifiers, and with fuel above the identifier, `sys_waitpid`
-- reaches an answer: it refuses a negative identifier, a missing task, a task that is waited for and
-- a task that does not descend from the caller with ECHILD, and a pointer outside user memory with
-- EFAULT; otherwise it marks the task as waited for and waits for it.
pub waitpid_begin-Verdict :
    (fuel : ℕ) (h : Heap) (contexts : List Context) (is_user : Bool) (caller : ℕ) (pid : ℤ)
    → IsAged h
    → ((p : ℕ) → pid ≡ pos p → p < fuel)
    → Verdict h contexts is_user caller pid (waitpid_begin fuel is_user caller pid contexts h)
unfolding waitpid_begin concluded
waitpid_begin-Verdict fuel h contexts is_user caller (negsuc n) aged lt = negative n
waitpid_begin-Verdict fuel h contexts is_user caller (pos pid) aged lt =
    elim (Option-cases (get_pid h contexts pid)) [
      | inl missing ↦ rw (waitpid_begin, missing) (absent pid missing)
      | inr (task, e) ↦ elim (Bool-cases (h task).is_waited) [
        | inl used ↦ rw (waitpid_begin, e, used) (taken pid task e used)
        | inr free ↦ elim (Bool-cases is_user) [
          | inl fine ↦
              let known : ((h task).id ≡ pid) × (pid ≢ 0) = get_pid-id h pid contexts task e in
              let enough : pid < fuel = lt pid refl in
              rw (waitpid_begin, e, free, fine)
                (concluded-Verdict h contexts caller pid task
                  (is_descendant fuel h contexts (h caller).id task) e free
                  (is_descendant-Answer fuel h contexts (h caller).id task aged
                    (λ z. known.1 (sym known.0 ∙ z)) (omega arith)))
          | inr bad ↦ rw (waitpid_begin, e, free, bad) (bad_pointer pid task e free refl)
        ]
      ]
    ]
