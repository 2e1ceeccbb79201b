-- ===== src/Syscalls/Descriptors.antt =====
-- The descriptor table of a process over `sys_open` and `sys_close`: sys_open.c, sys_close.c,
-- sys_read.c.
use ga_os.Base.{
  ℕ, zero, suc, ◌+◌, ◌≤◌, ◌<◌, ◌≡◌, ◌≢◌, refl, ◌==◌, Bool-cases, inl, inr, ◌⊎◌, arith, true, false,
  some, ==→eq, ==→ne, ne→==,
}
use ga_os.Base.Int.{pos}
use ga_os.Libc.Strings.{CString}
use ga_os.Scheduler.{Task}
use ga_os.Filesystem.Node.{node}
use ga_os.Filesystem.Vfs.{Handle, returned, vfs_open}
use ga_os.Syscalls.{Process, put_slot, first_free, install, sys_open, put_node}

-- `f` is the first slot that the loop stops at.
pub record IsFirst (t : ℕ → ℕ) (fd_max f : ℕ) : Type 0 where
  pub below : (j : ℕ) → j < f → 0 ≢ t j
  pub near : f ≤ fd_max + 1
  pub stops : (t f ≡ 0) ⊎ (fd_max < f)

first_free-from :
    (k : ℕ) (t : ℕ → ℕ) (m fd f : ℕ) → IsFirst t m f → fd ≤ f → f < fd + k → first_free k t m fd ≡ f
unfolding first_free
first_free-from zero t m fd f i le lt = absurd (omega arith)
first_free-from (suc k) t m fd f i le lt = elim (Bool-cases (fd == f)) [
  | inl same ↦
      let at : fd ≡ f = ==→eq fd f same in
      elim (i.stops) [
        | inl free ↦ let free' : t fd ≡ 0 = rw at free in ground arith
        | inr out ↦ ground arith
      ]
  | inr other ↦
      let ne : fd ≢ f = ==→ne fd f other in
      let used = i.below fd (omega arith) in
      let rec : first_free k t m (fd + 1) ≡ f =
        first_free-from k t m (fd + 1) f i (omega arith) (omega arith) in
      let near = i.near in ground arith
]

pub first_free_lem : (t : ℕ → ℕ) (m f : ℕ) → IsFirst t m f → first_free (m + 2) t m 0 ≡ f
first_free_lem t m f i =
    let near = i.near in first_free-from (m + 2) t m 0 f i (omega arith) (omega arith)

-- A slot that is free or the one behind the last: the node goes there.
pub install-first :
    (k : ℕ) (beyond : ℕ → ℕ) (v : ℕ) (t : Task) (f : ℕ)
    → IsFirst t.fd_translation t.fd_max f
    → f ≢ t.fd_max
    → install (suc k) beyond v t
      ≡ some (
        f,
        record t { fd_translation = put_slot t.fd_translation f v; fd_count = t.fd_count + 1 },
      )
unfolding install
install-first k beyond v t f i ne =
    let first = first_free_lem t.fd_translation t.fd_max f i in
    let no : (f == t.fd_max) ≡ false = ne→== f t.fd_max ne in rw (first, no) refl

module _ {S N : Type 0} where
  abbrev pub slots : Process S N → ℕ → ℕ
  slots p = p.task.fd_translation

  -- The process after `sys_open` has put the node `h` at `fresh` into descriptor `f`.
  abbrev pub opened : Process S N → ℕ → ℕ → Handle S N → S → Process S N
  opened p f fresh h s = record p {
    task = record (p.task) {
      fd_translation = put_slot p.task.fd_translation f fresh;
      fd_count = p.task.fd_count + 1;
    };
    nodes = put_node p.nodes fresh h;
    state = s;
  }

  pub sys_open-opened :
      (beyond : ℕ → ℕ) (path : CString) (path_len oflag fresh : ℕ) (p : Process S N) (f : ℕ)
      (h : Handle S N) (s : S)
      → vfs_open p.mounts (some path) path_len oflag p.state ≡ returned (node h, s)
      → IsFirst (slots p) p.task.fd_max f
      → f ≢ p.task.fd_max
      → sys_open beyond true path path_len oflag fresh p
        ≡ some (returned (pos f, opened p f fresh h s))
  unfolding sys_open
  sys_open-opened beyond path path_len oflag fresh p f h s e i ne =
      rw (e, install-first 1 beyond fresh p.task f i ne) refl
