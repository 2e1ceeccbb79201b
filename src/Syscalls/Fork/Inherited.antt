-- ===== src/Syscalls/Fork/Inherited.antt =====
-- The descriptors that a child of `sys_fork` inherits: the loop at the end of kernel/src/syscalls/sys_fork.c.
use ga_os.Base.{
  ℕ, zero, suc, ◌+◌, ◌-◌, fun_ext, sym, if_else, if◌then◌else◌, ◌≤◌, ◌<◌, ◌≡◌, ◌≢◌, ◌⊎◌, refl,
  arith, ◌==◌, ◌∙◌, inl, inr, Option, none, some, ap, Bool-cases, ==→eq, ==→ne, eq→==, ne→==,
}
use ga_os.Filesystem.Vfs.{Handle, Call, returned, panic, vfs_dup}
use ga_os.Syscalls.{copy_fds, put_slot, put_node}

-- What the loop is given: new pointers, and file systems that can copy nodes, for the descriptors of
-- `rounds` rounds from `i` on.
pub record CanCopy {S N : Type 0} (rounds i : ℕ) (fresh parent : ℕ → ℕ) (nodes : ℕ → Handle S N)
    : Type 0 where
  pub distinct : (j k : ℕ) → fresh j ≡ fresh k → j ≡ k
  pub apart : (j k : ℕ) → parent j ≢ fresh k
  pub dup :
      (j : ℕ)
      → i ≤ j
      → j < i + rounds
      → parent j ≢ 0
      → (callback : N → S → N × S) × (((nodes (parent j)).fs).on_dup ≡ some callback)

-- The node that the file system's own callback gives for a node, and the state after it.
abbrev pub duplicate : {S N : Type 0} → Handle S N → S → N × S
duplicate h s = elim (h.fs.on_dup) [ none ↦ (h.file, s) | some callback ↦ callback h.file s ]

-- The state after the copies of the descriptors of `rounds` rounds from `i` on, whose nodes are `files`.
abbrev pub state_after :
    {S N : Type 0} → (rounds i : ℕ) → (parent : ℕ → ℕ) → (files : ℕ → Handle S N) → S → S
state_after zero i parent files s = s
state_after (suc rounds) i parent files s =
    let skipped = state_after rounds (i + 1) parent files s in
    let copied = state_after rounds (i + 1) parent files (duplicate (files i) s).1 in
    if parent i == 0 then skipped else copied

-- What the loop leaves in the child's slots and in the store of nodes: each copy is what the callback gave
-- for the parent's node, in the state that the copies before it left.
pub record IsInherited {S N : Type 0} (rounds i : ℕ) (fresh parent child child' : ℕ → ℕ)
    (nodes nodes' : ℕ → Handle S N) (s s' : S) : Type 0 where
  pub copied :
      (j : ℕ)
      → i ≤ j
      → j < i + rounds
      → parent j ≢ 0
      → (child' j ≡ fresh j)
        × ((nodes' (fresh j)).fs ≡ (nodes (parent j)).fs)
        × ((nodes' (fresh j)).file
            ≡ (duplicate
                (nodes (parent j))
                (state_after (j - i) i parent (λ k. nodes (parent k)) s)).0)
  pub skipped : (j : ℕ) → (parent j ≡ 0) ⊎ ((j < i) ⊎ (i + rounds ≤ j)) → child' j ≡ child j
  pub kept : (p : ℕ) → ((j : ℕ) → i ≤ j → j < i + rounds → p ≢ fresh j) → nodes' p ≡ nodes p
  pub ended : s' ≡ state_after rounds i parent (λ k. nodes (parent k)) s

module _ {S N : Type 0} (rounds i : ℕ) (fresh parent : ℕ → ℕ) (nodes : ℕ → Handle S N) where
  CanCopy-skip :
      CanCopy (suc rounds) i fresh parent nodes → CanCopy rounds (i + 1) fresh parent nodes
  CanCopy-skip can = record {
    distinct = can.distinct;
    apart = can.apart;
    dup = λ j ge lt at. can.dup j (omega arith) (omega arith) at;
  }

  CanCopy-put :
      (h : Handle S N)
      → CanCopy (suc rounds) i fresh parent nodes
      → CanCopy rounds (i + 1) fresh parent (put_node nodes (fresh i) h)
  CanCopy-put h can = record {
    distinct = can.distinct;
    apart = can.apart;
    dup = λ j ge lt at.
        rw (ne→== (parent j) (fresh i) (can.apart j i)) (can.dup j (omega arith) (omega arith) at);
  }

  IsInherited-skip :
      (child child' : ℕ → ℕ) (nodes' : ℕ → Handle S N) (s s' : S)
      → parent i ≡ 0
      → IsInherited rounds (i + 1) fresh parent child child' nodes nodes' s s'
      → IsInherited (suc rounds) i fresh parent child child' nodes nodes' s s'
  IsInherited-skip child child' nodes' s s' none_here rest = record {
    copied = λ j ge lt at. elim (Bool-cases (j == i)) [
      | inl here ↦ absurd (at (rw (==→eq j i here) none_here))
      | inr past ↦
          let (slot, fs, file) = rest.copied j (ground arith) (omega arith) at in
          let step : j - i ≡ suc (j - (i + 1)) = ground arith in
          (slot, fs, rw (step, eq→== (parent i) 0 none_here) file)
    ];
    ended = rw (eq→== (parent i) 0 none_here) rest.ended;
    skipped = λ j out. elim out [
      | inl empty ↦ rest.skipped j (inl empty)
      | inr outside ↦ rest.skipped j (inr (ground arith))
    ];
    kept = λ p away. rest.kept p (λ j ge lt. away j (omega arith) (omega arith));
  }

  -- A round that copies.
  module _ (h : Handle S N) (child child' : ℕ → ℕ) (nodes' : ℕ → Handle S N) (s s1 s' : S)
      (can : CanCopy (suc rounds) i fresh parent nodes) (open_here : parent i ≢ 0)
      (rest : IsInherited rounds
        (i + 1)
        fresh
        parent
        (put_slot child i (fresh i))
        child'
        (put_node nodes (fresh i) h)
        nodes'
        s1
        s') where
    slot_here : child' i ≡ fresh i
    slot_here = let e = rest.skipped i (inr (inl (omega arith))) in e ∙ rw (eq→== i i refl) refl

    node_here : nodes' (fresh i) ≡ h
    node_here =
        let e =
          rest.kept (fresh i) (λ k ge lt same. absurd (ground (arith, can.distinct i k same))) in
        e ∙ rw (eq→== (fresh i) (fresh i) refl) refl

    slot_past : (j : ℕ) → j ≢ i → put_slot child i (fresh i) j ≡ child j
    slot_past j ne = rw (ne→== j i ne) refl

    node_past : (p : ℕ) → p ≢ fresh i → put_node nodes (fresh i) h p ≡ nodes p
    node_past p ne = rw (ne→== p (fresh i) ne) refl

    -- The parent's nodes are those of before.
    same_files :
        ◌≡◌ {A = ℕ → Handle S N}
          (λ k. put_node nodes (fresh i) h (parent k))
          (λ k. nodes (parent k))
    same_files = fun_ext (λ k. node_past (parent k) (can.apart k i))

    state_put :
        (k : ℕ)
        → (h.file, s1) ≡ duplicate (nodes (parent i)) s
        → state_after k (i + 1) parent (λ j. put_node nodes (fresh i) h (parent j)) s1
          ≡ state_after (suc k) i parent (λ j. nodes (parent j)) s
    state_put k made =
        ap (λ files. state_after k (i + 1) parent files s1) same_files
        ∙ ap (state_after k (i + 1) parent (λ j. nodes (parent j))) (ap (λ r. r.1) made)
        ∙ sym (if_else _ (ne→== (parent i) 0 open_here))

    file_here :
        (h.file, s1) ≡ duplicate (nodes (parent i)) s
        → (nodes' (fresh i)).file
          ≡ (duplicate
              (nodes (parent i))
              (state_after (i - i) i parent (λ k. nodes (parent k)) s)).0
    file_here made =
        let start : i - i ≡ 0 = omega arith in
        ap (λ (n : Handle S N). n.file) node_here
        ∙ ap (λ r. r.0) made
        ∙ ap
            (λ k.
              (duplicate (nodes (parent i)) (state_after k i parent (λ j. nodes (parent j)) s)).0)
            (sym start)

    file_past :
        (j : ℕ)
        → i ≤ j
        → j ≢ i
        → (h.file, s1) ≡ duplicate (nodes (parent i)) s
        → (duplicate (put_node nodes (fresh i) h (parent j)) (
            state_after
              (j - (i + 1))
              (i + 1)
              parent
              (λ k. put_node nodes (fresh i) h (parent k))
              s1)).0
          ≡ (duplicate
              (nodes (parent j))
              (state_after (j - i) i parent (λ k. nodes (parent k)) s)).0
    file_past j ge ne made =
        let step : suc (j - (i + 1)) ≡ j - i = omega (arith, ge, ne) in
        ap
          (λ file.
            (duplicate file (
              state_after (j - (i + 1)) (i + 1) parent (λ k. put_node nodes (fresh i) h (parent k))
                s1)).0)
          (node_past (parent j) (can.apart j i))
        ∙ ap (λ state. (duplicate (nodes (parent j)) state).0)
            (state_put (j - (i + 1)) made
              ∙ ap (λ k. state_after k i parent (λ n. nodes (parent n)) s) step)

    IsInherited-put :
        h.fs ≡ (nodes (parent i)).fs
        → (h.file, s1) ≡ duplicate (nodes (parent i)) s
        → IsInherited (suc rounds) i fresh parent child child' nodes nodes' s s'
    IsInherited-put same_fs made = record {
      copied = λ j ge lt at. elim (Bool-cases (j == i)) [
        | inl here ↦ rw (==→eq j i here) (slot_here, rw node_here same_fs, file_here made)
        | inr past ↦
            let (slot, fs, file) = rest.copied j (ground arith) (omega arith) at in
            (
              slot,
              fs ∙ rw (node_past (parent j) (can.apart j i)) refl,
              file ∙ file_past j ge (==→ne j i past) made,
            )
      ];
      ended = rest.ended ∙ state_put rounds made;
      skipped = λ j out. elim out [
        | inl empty ↦
            rest.skipped j (inl empty) ∙ slot_past j (λ same. open_here (rw (← same) empty))
        | inr outside ↦ rest.skipped j (inr (ground arith)) ∙ slot_past j (ground arith)
      ];
      kept = λ p away.
          rest.kept p (λ j ge lt. away j (omega arith) (omega arith))
          ∙ node_past p (away i (omega arith) (omega arith));
    }

vfs_dup-callback :
    {S N : Type 0} (h : Handle S N) (s : S) (callback : N → S → N × S)
    → (h.fs).on_dup ≡ some callback
    → vfs_dup (some h) s
      ≡ (let r = callback h.file s in returned (record { file = r.0; fs = h.fs }, r.1))
unfolding vfs_dup
vfs_dup-callback {S} {N} h s callback e =
    ap
      (λ (on_dup : Option (N → S → N × S)). elim on_dup as (λ _. Call (Handle S N × S)) [
        | none ↦ panic
        | some c ↦ (let r = c h.file s in returned (record { file = r.0; fs = h.fs }, r.1))
      ])
      e

duplicate-callback :
    {S N : Type 0} (h : Handle S N) (s : S) (callback : N → S → N × S)
    → (h.fs).on_dup ≡ some callback
    → callback h.file s ≡ duplicate h s
duplicate-callback {S} {N} h s callback e =
    ap
      (λ (on_dup : Option (N → S → N × S)). elim on_dup as (λ _. N × S) [
        | none ↦ (h.file, s)
        | some c ↦ c h.file s
      ])
      (sym e)

module _ {S N : Type 0} (fresh parent : ℕ → ℕ) where
  copy_fds-skip :
      (rounds i : ℕ) (child : ℕ → ℕ) (nodes : ℕ → Handle S N) (s : S)
      → parent i ≡ 0
      → copy_fds (suc rounds) i fresh parent child nodes s
        ≡ copy_fds rounds (i + 1) fresh parent child nodes s
  unfolding copy_fds
  copy_fds-skip rounds i child nodes s e = rw (eq→== (parent i) 0 e) refl

  copy_fds-put :
      (rounds i : ℕ) (child : ℕ → ℕ) (nodes : ℕ → Handle S N) (s : S) (callback : N → S → N × S)
      → parent i ≢ 0
      → ((nodes (parent i)).fs).on_dup ≡ some callback
      → copy_fds (suc rounds) i fresh parent child nodes s ≡ (
          let r = callback (nodes (parent i)).file s in
          copy_fds rounds
            (i + 1)
            fresh
            parent
            (put_slot child i (fresh i))
            (put_node nodes (fresh i) (record { file = r.0; fs = (nodes (parent i)).fs }))
            r.1)
  unfolding copy_fds
  copy_fds-put rounds i child nodes s callback open_here dup =
      rw (ne→== (parent i) 0 open_here, vfs_dup-callback (nodes (parent i)) s callback dup) refl

  -- With new pointers and file systems that can copy nodes the loop of fork ends without a panic: the child has,
  -- under each open descriptor of the loop's rounds, a new node of the same file system, which is what the file
  -- system's callback gave for the parent's node in the state that the copies before it left. The child's other
  -- slots are as they were, and so are all nodes but the new ones, the parent's among them; the state is the one
  -- that the callbacks left.
  pub copy_fds-IsInherited :
      (rounds i : ℕ) (child : ℕ → ℕ) (nodes : ℕ → Handle S N) (s : S)
      → CanCopy rounds i fresh parent nodes
      → (child' : ℕ → ℕ) × (nodes' : ℕ → Handle S N) × (s' : S) × (copy_fds rounds i fresh parent
            child nodes s
          ≡ returned (child', nodes', s'))
        × IsInherited rounds i fresh parent child child' nodes nodes' s s'
  unfolding copy_fds
  copy_fds-IsInherited zero i child nodes s can = (
    child,
    nodes,
    s,
    refl,
    record {
      copied = λ j ge lt at. absurd (omega arith);
      skipped = λ j out. refl;
      kept = λ p away. refl;
      ended = refl;
    },
  )
  copy_fds-IsInherited (suc rounds) i child nodes s can = elim (Bool-cases (parent i == 0)) [
    | inl closed ↦
        let none_here = ==→eq (parent i) 0 closed in
        let (child', nodes', s', e, rest) =
          copy_fds-IsInherited rounds (i + 1) child nodes s
            (CanCopy-skip rounds i fresh parent nodes can) in
        (
          child',
          nodes',
          s',
          copy_fds-skip rounds i child nodes s none_here ∙ e,
          IsInherited-skip rounds i fresh parent nodes child child' nodes' s s' none_here rest,
        )
    | inr busy ↦
        let open_here = ==→ne (parent i) 0 busy in
        let (callback, dup) = can.dup i (omega arith) (omega arith) open_here in
        let r : N × S = callback (nodes (parent i)).file s in
        let h : Handle S N = record { file = r.0; fs = (nodes (parent i)).fs } in
        let (child', nodes', s', e, rest) =
          copy_fds-IsInherited rounds (i + 1) (put_slot child i (fresh i))
            (put_node nodes (fresh i) h) r.1 (CanCopy-put rounds i fresh parent nodes h can) in
        (
          child',
          nodes',
          s',
          copy_fds-put rounds i child nodes s callback open_here dup ∙ e,
          IsInherited-put rounds i fresh parent nodes h child child' nodes' s r.1 s' can open_here
              rest refl (duplicate-callback (nodes (parent i)) s callback dup),
        )
  ]
