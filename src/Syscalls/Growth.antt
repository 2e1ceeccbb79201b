-- ===== src/Syscalls/Growth.antt =====
-- A full descriptor table: the part of sys_open.c from `try_again` on.
use ga_os.Base.{
  ℕ, suc, ◌+◌, ◌*◌, ◌<◌, ◌≡◌, ◌≢◌, refl, ◌∙◌, ◌==◌, leb, ltb, inl, inr, arith, true, false, some,
  eq→==,
}
use ga_os.Base.Int.{pos}
use ga_os.Libc.Strings.{CString}
use ga_os.Scheduler.{Task}
use ga_os.Filesystem.Errors.{ebadf}
use ga_os.Filesystem.Node.{node}
use ga_os.Filesystem.Vfs.{Handle, returned, vfs_open}
use ga_os.Syscalls.{
  Process, put_slot, grow_table, install, sys_open, sys_close, put_node, slots_per_page,
}
use ga_os.Syscalls.Descriptors.{
  IsFirst, install-first, slots, opened, sys_open-opened, first_free_lem,
}
use ga_os.Syscalls.Counts.{put_slot_same, put_slot_at}

-- With a full table and nothing in memory behind it, the node goes to the first slot of the new page.
install-grown :
    (k : ℕ) (beyond : ℕ → ℕ) (v : ℕ) (t : Task)
    → ((j : ℕ) → j < t.fd_max → 0 ≢ t.fd_translation j)
    → t.fd_translation t.fd_max ≡ 0
    → t.fd_max ≡ t.fd_allocated_pages * slots_per_page
    → install (suc (suc k)) beyond v t ≡ (
        let u = grow_table beyond t in
        some (
          t.fd_max,
          record u {
            fd_translation = put_slot u.fd_translation t.fd_max v;
            fd_count = u.fd_count + 1;
          },
        ))
unfolding install grow_table
install-grown k beyond v t full free size =
    let u = grow_table beyond t in
    let i : IsFirst t.fd_translation t.fd_max t.fd_max = record {
      below = full;
      near = omega arith;
      stops = inl free;
    } in
    let i' : IsFirst u.fd_translation u.fd_max t.fd_max = record {
      below = λ j lt.
          (let used = full j lt in
            let old : ltb j (t.fd_allocated_pages * slots_per_page) ≡ true = ground arith in
            rw old used);
      near = omega arith;
      stops = inl (
          let new : ltb t.fd_max (t.fd_allocated_pages * slots_per_page) ≡ false = ground arith in
          let page : ltb t.fd_max ((t.fd_allocated_pages + 1) * slots_per_page) ≡ true =
            ground arith in
          rw (new, page) refl);
    } in
    let first = first_free_lem t.fd_translation t.fd_max t.fd_max i in
    let yes : (t.fd_max == t.fd_max) ≡ true = eq→== t.fd_max t.fd_max refl in
    rw (first, yes) (install-first k beyond v u t.fd_max i' (omega arith))

module _ {S N : Type 0} where
  -- `sys_open` on a full table with nothing in memory behind it returns `fd_max`, puts the node there,
  -- keeps every older descriptor and adds the slots of one page. It adds two to the number of pages,
  -- though it asked for one.
  pub sys_open_grows :
      (beyond : ℕ → ℕ) (path : CString) (path_len oflag fresh : ℕ) (p : Process S N)
      (h : Handle S N) (s : S)
      → vfs_open p.mounts (some path) path_len oflag p.state ≡ returned (node h, s)
      → ((j : ℕ) → j < p.task.fd_max → 0 ≢ slots p j)
      → slots p p.task.fd_max ≡ 0
      → p.task.fd_max ≡ p.task.fd_allocated_pages * slots_per_page
      → (q : Process S N) × (sys_open beyond true path path_len oflag fresh p
          ≡ some (returned (pos p.task.fd_max, q)))
        × (slots q p.task.fd_max ≡ fresh)
        × ((j : ℕ) → j < p.task.fd_max → slots q j ≡ slots p j)
        × (q.task.fd_max ≡ p.task.fd_max + slots_per_page)
        × (q.task.fd_allocated_pages ≡ p.task.fd_allocated_pages + 2)
  unfolding sys_open grow_table
  sys_open_grows beyond path path_len oflag fresh p h s e full free size =
      let u = grow_table beyond p.task in
      (
        record p {
          task = record u {
            fd_translation = put_slot u.fd_translation p.task.fd_max fresh;
            fd_count = u.fd_count + 1;
          };
          nodes = put_node p.nodes fresh h;
          state = s;
        },
        rw (e, install-grown 0 beyond fresh p.task full free size) refl,
        put_slot_at u.fd_translation p.task.fd_max fresh,
        λ j lt.
            (let old : ltb j (p.task.fd_allocated_pages * slots_per_page) ≡ true = ground arith in
              put_slot_same u.fd_translation p.task.fd_max fresh j (ground arith) ∙ rw old refl),
        refl,
        omega arith,
      )

  -- `sys_open` on a full table with something in memory behind it writes the node outside
  -- the table, in slot `fd_max + 1`, and returns that number, which `sys_close` then refuses.
  pub sys_open_past_table :
      (beyond : ℕ → ℕ) (path : CString) (path_len oflag fresh : ℕ) (p : Process S N)
      (h : Handle S N) (s : S)
      → vfs_open p.mounts (some path) path_len oflag p.state ≡ returned (node h, s)
      → ((j : ℕ) → j < p.task.fd_max + 1 → 0 ≢ slots p j)
      → (q : Process S N) × (sys_open beyond true path path_len oflag fresh p
          ≡ some (returned (pos (p.task.fd_max + 1), q)))
        × (slots q (p.task.fd_max + 1) ≡ fresh)
        × (sys_close (p.task.fd_max + 1) q ≡ returned (ebadf, q))
  unfolding sys_close
  sys_open_past_table beyond path path_len oflag fresh p h s e full =
      let f = p.task.fd_max + 1 in
      let i : IsFirst (slots p) p.task.fd_max f = record {
        below = full;
        near = omega arith;
        stops = inr (omega arith);
      } in
      let out : leb p.task.fd_max f ≡ true = ground arith in
      (
        opened p f fresh h s,
        sys_open-opened beyond path path_len oflag fresh p f h s e i (omega arith),
        put_slot_at (slots p) f fresh,
        rw out refl,
      )
