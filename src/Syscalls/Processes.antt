-- ===== src/Syscalls/Processes.antt =====
-- sys_exit.c and sys_waitpid.c: the end of a process and the wait for it. Tasks are on the scheduler's
-- heap; a round of the loop around `task_scheduler_yield` is one call of `waitpid_poll`.
pub mod Ancestors
use ga_os.Base.{
  ℕ, zero, suc, ◌<◌, ◌≡◌, refl, bit_and, Bool, true, false, not, Option, none, some, List, ◌==◌,
  if◌then◌else◌, arith, eq→==,
}
use ga_os.Base.Bits.{bit_and-lt}
use ga_os.Base.Int.{ℤ, pos, negsuc}
use ga_os.Scheduler.{Heap, put, Context, get_pid, is_blocked, run_mode_zombie}
use ga_os.Scheduler.Choice.{is_blocked-zombie}
use ga_os.Filesystem.Errors.{echild, efault}

-- `sys_exit` up to its endless loop of yields.
pub sys_exit : ℕ → ℕ → Heap → Heap
sys_exit code caller h =
    put h caller (record (h caller) { exit_code = code; run_mode = run_mode_zombie })

-- The walk over the parents: whether one is the caller, with fuel.
pub is_descendant : ℕ → Heap → List Context → (caller_id task : ℕ) → Option Bool
is_descendant zero h contexts caller_id task = none
is_descendant (suc fuel) h contexts caller_id task =
    if (h task).ppid == caller_id then some true else elim (get_pid h contexts (h task).ppid) [
      | none ↦ some false
      | some parent ↦ is_descendant fuel h contexts caller_id parent
    ]

-- What `sys_waitpid` does before it waits: an error, or the task to wait for, which is marked.
pub data Wait : Type 0 where
  refused : ℤ → Wait
  waiting : ℕ → Heap → Wait
  out_of_fuel : Wait

-- `pid` is below 0, or at its absolute value.
pub waitpid_begin : ℕ → (is_user : Bool) (caller : ℕ) → ℤ → List Context → Heap → Wait
waitpid_begin fuel is_user caller (negsuc n) contexts h = refused echild
waitpid_begin fuel is_user caller (pos pid) contexts h = elim (get_pid h contexts pid) [
  | none ↦ refused echild
  | some task ↦
      if (h task).is_waited
      then refused echild
      else if not is_user
      then refused efault
      else elim (is_descendant fuel h contexts (h caller).id task) [
        | none ↦ out_of_fuel
        | some false ↦ refused echild
        | some true ↦ waiting task (put h task (record (h task) { is_waited = true }))
      ]
]

-- One round of the wait: `none` is another yield, and a zombie gives the value for `*stat_loc`.
pub waitpid_poll : ℕ → Heap → Option ℕ
waitpid_poll task h =
    if (h task).run_mode == run_mode_zombie then some (bit_and (h task).exit_code 0xFF) else none

-- A task that exits is never chosen by the scheduler again, a wait for it ends in the next round with
-- the low byte of its exit code, and no other task changes.
pub waitpid_poll-sys_exit :
    (code caller : ℕ) (h : Heap)
    → (waitpid_poll caller (sys_exit code caller h) ≡ some (bit_and code 0xFF))
      × (bit_and code 0xFF < 256)
      × (is_blocked (sys_exit code caller h caller) ≡ true)
      × ((a : ℕ) → (a == caller) ≡ false → sys_exit code caller h a ≡ h a)
unfolding waitpid_poll sys_exit
waitpid_poll-sys_exit code caller h =
    let here : (caller == caller) ≡ true = eq→== caller caller refl in
    (
      rw here refl,
      bit_and-lt 8 code 0xFF (omega arith),
      rw here (
          is_blocked-zombie (record (h caller) { exit_code = code; run_mode = run_mode_zombie })
            refl),
      λ a other. rw other refl,
    )
