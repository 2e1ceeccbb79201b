-- ===== src/Syscalls/Calls.antt =====
-- Sequences of system calls on descriptors: sys_open.c, sys_close.c, sys_read.c.
use ga_os.Base.{
  ℕ, ◌+◌, ◌-◌, ◌%◌, ◌^◌, ◌≤◌, ◌<◌, ◌≡◌, ◌≢◌, refl, ◌∙◌, ◌==◌, leb, Bool-cases, inl, inr, arith,
  true, false, some, ==→eq, eq→==,
}
use ga_os.Base.Int.{pos}
use ga_os.Libc.Strings.{CString}
use ga_os.Filesystem.Errors.{ebadf}
use ga_os.Filesystem.Node.{node}
use ga_os.Filesystem.Vfs.{Handle, returned, vfs_open, vfs_close}
use ga_os.Syscalls.{Process, put_slot, sys_open, sys_close, sys_read, lookup_fd, put_node}
use ga_os.Syscalls.Descriptors.{IsFirst, slots, opened, sys_open-opened}
use ga_os.Syscalls.Counts.{
  IsCounted, open_below_le, put_slot_same, put_slot_at, open_below-open, open_below-close,
  open_below-full, open_below-short,
}

module _ {S N : Type 0} where
  -- The process after `sys_close` of `fd`, the callback of the file system having left `s`.
  abbrev pub closed : Process S N → ℕ → S → Process S N
  closed p fd s = record p {
    task = record (p.task) {
      fd_count = (p.task.fd_count + (2 ^ 64 - 1)) % 2 ^ 64;
      fd_translation = put_slot p.task.fd_translation fd 0;
    };
    state = s;
  }

  sys_close-closed :
      (fd : ℕ) (p : Process S N) (s : S)
      → fd < p.task.fd_max
      → 0 ≢ slots p fd
      → vfs_close (some (p.nodes (slots p fd))) p.state ≡ returned s
      → sys_close fd p ≡ returned (pos 0, closed p fd s)
  unfolding sys_close
  sys_close-closed fd p s lt used e =
      let inside : leb p.task.fd_max fd ≡ false = ground arith in
      let full : (slots p fd == 0) ≡ false = ground arith in rw (inside, full, e) refl

  opened-IsCounted :
      (p : Process S N) (f fresh : ℕ) (h : Handle S N) (s : S)
      → IsCounted p.task
      → f < p.task.fd_max
      → slots p f ≡ 0
      → 0 ≢ fresh
      → IsCounted (opened p f fresh h s).task
  opened-IsCounted p f fresh h s c lt free ne = record {
    counted =
        let more = open_below-open (slots p) f fresh p.task.fd_max lt free ne in
        let count = c.counted in omega arith;
    bounded = c.bounded;
  }

  closed-IsCounted :
      (p : Process S N) (fd : ℕ) (s : S)
      → IsCounted p.task
      → fd < p.task.fd_max
      → 0 ≢ slots p fd
      → IsCounted (closed p fd s).task
  closed-IsCounted p fd s c lt used = record {
    counted =
        let fewer = open_below-close (slots p) fd p.task.fd_max lt used in
        let most = open_below_le (slots p) p.task.fd_max in
        let count = c.counted in let bound = c.bounded in omega arith;
    bounded = c.bounded;
  }

  -- A process whose count is right, and whose first free descriptor `f` is in the table, gets `f` from
  -- `sys_open` when the file system opens the path. The count is right again, and reading from `f`
  -- reads from the opened node.
  pub sys_open_readable :
      (beyond : ℕ → ℕ) (path : CString) (path_len oflag fresh : ℕ) (p : Process S N) (f : ℕ)
      (h : Handle S N) (s : S)
      → vfs_open p.mounts (some path) path_len oflag p.state ≡ returned (node h, s)
      → IsCounted p.task
      → IsFirst (slots p) p.task.fd_max f
      → f < p.task.fd_max
      → 0 ≢ fresh
      → (q : Process S N) × (sys_open beyond true path path_len oflag fresh p
          ≡ some (returned (pos f, q)))
        × IsCounted q.task
        × (lookup_fd q f ≡ some h)
  unfolding lookup_fd
  sys_open_readable beyond path path_len oflag fresh p f h s e c i lt ne =
      let free : slots p f ≡ 0 = elim (i.stops) [ inl z ↦ z | inr out ↦ absurd (omega arith) ] in
      let full = open_below-full (slots p) f p.task.fd_max i.below (omega arith) in
      let count = c.counted in
      let small : leb (p.task.fd_count + 1) f ≡ false = ground arith in
      let at : put_slot (slots p) f fresh f ≡ fresh = put_slot_at (slots p) f fresh in
      let live : (fresh == 0) ≡ false = ground arith in
      let there : put_node p.nodes fresh h fresh ≡ h = rw (eq→== fresh fresh refl) refl in
      (
        opened p f fresh h s,
        sys_open-opened beyond path path_len oflag fresh p f h s e i (ground arith),
        opened-IsCounted p f fresh h s c lt free ne,
        rw (small, at, live, there) refl,
      )

  -- What `sys_open` opened, `sys_close` closes: it returns 0, with the count and every descriptor as
  -- before the opening, when the file system has a callback for closing.
  pub sys_close-sys_open :
      (beyond : ℕ → ℕ) (path : CString) (path_len oflag fresh : ℕ) (p : Process S N) (f : ℕ)
      (h : Handle S N) (s s' : S)
      → vfs_open p.mounts (some path) path_len oflag p.state ≡ returned (node h, s)
      → vfs_close (some h) s ≡ returned s'
      → IsFirst (slots p) p.task.fd_max f
      → f < p.task.fd_max
      → 0 ≢ fresh
      → p.task.fd_count < 2 ^ 64 - 1
      → (q : Process S N) × (r : Process S N) × (sys_open beyond true path path_len oflag fresh p
          ≡ some (returned (pos f, q)))
        × (sys_close f q ≡ returned (pos 0, r))
        × (r.task.fd_count ≡ p.task.fd_count)
        × ((i : ℕ) → slots r i ≡ slots p i)
  sys_close-sys_open beyond path path_len oflag fresh p f h s s' e e' i lt ne small =
      let free : slots p f ≡ 0 = elim (i.stops) [ inl z ↦ z | inr out ↦ absurd (omega arith) ] in
      let q = opened p f fresh h s in
      let at : slots q f ≡ fresh = put_slot_at (slots p) f fresh in
      let there : put_node p.nodes fresh h fresh ≡ h = rw (eq→== fresh fresh refl) refl in
      let close : vfs_close (some (q.nodes (slots q f))) q.state ≡ returned s' =
        rw (at, there) e' in
      (
        q,
        closed q f s',
        sys_open-opened beyond path path_len oflag fresh p f h s e i (ground arith),
        sys_close-closed f q s' lt (rw at ne) close,
        omega arith,
        λ j. elim (Bool-cases (j == f)) [
          | inl same ↦ let at' : slots p j ≡ 0 = rw (==→eq j f same) free in rw (same, at') refl
          | inr other ↦ rw other refl
        ],
      )

  -- A process with exactly the descriptors up to `fd` open closes two below `fd`. Reading from `fd` is
  -- then refused as a bad descriptor, though `fd` still has its node: the test is on the count.
  pub sys_read_after_close :
      (p : Process S N) (a b fd buffer size : ℕ) (s s' : S)
      → IsCounted p.task
      → fd < p.task.fd_max
      → ((j : ℕ) → j < fd + 1 → 0 ≢ slots p j)
      → ((j : ℕ) → fd + 1 ≤ j → j < p.task.fd_max → slots p j ≡ 0)
      → a < b
      → b < fd
      → vfs_close (some (p.nodes (slots p a))) p.state ≡ returned s
      → vfs_close (some (p.nodes (slots p b))) s ≡ returned s'
      → (q : Process S N) × (r : Process S N) × (sys_close a p ≡ returned (pos 0, q))
        × (sys_close b q ≡ returned (pos 0, r))
        × (sys_read true fd buffer size r ≡ returned (ebadf, r))
        × (0 ≢ slots r fd)
  unfolding sys_read lookup_fd
  sys_read_after_close p a b fd buffer size s s' c lt used free ab bf ea eb =
      let q = closed p a s in
      let at : slots q b ≡ slots p b = put_slot_same (slots p) a 0 b (omega arith) in
      let most = open_below-short (slots p) (fd + 1) p.task.fd_max free in
      let least = open_below-full (slots p) (fd + 1) p.task.fd_max used (omega arith) in
      let count = c.counted in
      let r = closed q b s' in
      let few : r.task.fd_count ≡ fd = omega arith in
      let at_fd : slots r fd ≡ slots p fd =
        put_slot_same (slots q) b 0 fd (omega arith)
        ∙ put_slot_same (slots p) a 0 fd (omega arith) in
      let bad : leb r.task.fd_count fd ≡ true = rw few (ground arith) in
      (
        q,
        r,
        sys_close-closed a p s (omega arith) (used a (omega arith)) ea,
        sys_close-closed b q s' (omega arith) (rw at (used b (omega arith))) (rw at eb),
        rw bad refl,
        rw at_fd (used fd (omega arith)),
      )
