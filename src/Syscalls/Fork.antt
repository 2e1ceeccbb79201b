-- ===== src/Syscalls/Fork.antt =====
-- kernel/src/syscalls/sys_fork.c: the child's registers, its descriptors and its copy of the parent's address
-- space. Pages come as for the loader of executables; the task of `task_scheduler_create` is an argument, and the
-- vector registers and the pages of the child's table of descriptors are left out.
pub mod Pages
pub mod Inherited
mod Tests
use ga_os.Base.{
  ℕ, zero, suc, ◌+◌, ◌*◌, ◌%◌, ◌^◌, Option, none, some, bit_and, bit_or, if◌then◌else◌, true, false,
}
use ga_os.Scheduler.{Task}
use ga_os.Libc.Memory.{Memory, memcpy}
use ga_os.PageTables.{Tables, map, get_address, is_present, layer_of, wrap}
use ga_os.Elf.{Image, page, take_page, physical, with_higher_half}
use ga_os.Filesystem.Vfs.{Handle, Call, returned, panic}
use ga_os.Syscalls.{copy_fds}

-- The registers of `arch_cpu_state_t` that `sys_fork` reads or changes.
pub record CpuState : Type 0 where
  pub rax : ℕ
  pub rcx : ℕ
  pub r11 : ℕ
  pub rip : ℕ
  pub cs : ℕ
  pub rflags : ℕ
  pub rsp : ℕ
  pub ss : ℕ
  pub cr3 : ℕ

-- i4 << 12 | i3 << 21 | i2 << 30 | i1 << 39
pub virtual_address : (i1 i2 i3 i4 : ℕ) → ℕ
virtual_address i1 i2 i3 i4 =
    bit_or (bit_or (bit_or (i4 * 2 ^ 12) (i3 * 2 ^ 21)) (i2 * 2 ^ 30)) (i1 * 2 ^ 39)

-- A loop over the entries of a layer from `i` on, with the rounds left, that goes through those present.
pub walk_layer :
    (inner : (index entry : ℕ) → Image → Option Image) → (rounds i layer : ℕ) → Image → Option Image
walk_layer inner zero i layer s = some s
walk_layer inner (suc rounds) i layer s =
    let entry = s.tables.entries layer i in
    elim (if is_present entry then inner i entry s else some s) [
      | none ↦ none
      | some s' ↦ walk_layer inner rounds (i + 1) layer s'
    ]

module _ (hhdm_offset : ℕ) where
  -- The innermost part of the loops: the page of an entry is copied to a new one, which is mapped.
  pub copy_page : (child_pt virtual entry : ℕ) → Image → Option Image
  copy_page child_pt virtual entry s = elim (take_page s) [
    | none ↦ none
    | some (new, s') ↦
        elim (map hhdm_offset s'.tables child_pt virtual (physical hhdm_offset new)
          (bit_and entry 0xFFF0000000000FFF)) [
            | none ↦ none
            | some tables ↦ some (record {
              tables = tables;
              memory = memcpy new (layer_of hhdm_offset entry) page s'.memory;
            })
          ]
  ]

  -- The four loops.
  pub copy_working_set : (child_pt parent_pt : ℕ) → Image → Option Image
  copy_working_set child_pt parent_pt =
      walk_layer
        (λ i1 e1.
          walk_layer
            (λ i2 e2.
              walk_layer
                (λ i3 e3.
                  walk_layer (λ i4 e4. copy_page child_pt (virtual_address i1 i2 i3 i4) e4) 0x200 0
                    (layer_of hhdm_offset e3))
                0x200 0 (layer_of hhdm_offset e2))
            0x200 0 (layer_of hhdm_offset e1))
        0x100 0 parent_pt

  pub child_state : CpuState → (userspace_stack_top child_pt : ℕ) → CpuState
  child_state state userspace_stack_top child_pt = record {
    rax = 0;
    rcx = 0;
    r11 = 0;
    rip = state.rcx;
    cs = bit_or (8 * 4) 3;
    rflags = bit_or state.r11 0x200;
    rsp = userspace_stack_top;
    ss = bit_or (8 * 3) 3;
    cr3 = physical hhdm_offset child_pt;
  }

  -- The child's task, which `created` is before; its descriptors are `fd_translation`.
  pub child_task : (parent created : Task) → (fd_translation : ℕ → ℕ) → Task
  child_task parent created fd_translation = record created {
    ppid = parent.id;
    fd_count = parent.fd_count;
    fd_max = parent.fd_max;
    fd_allocated_pages = parent.fd_allocated_pages;
    fd_translation = fd_translation;
    empty = false;
  }

  -- `sys_fork`, once `task_scheduler_create` has given `created`: the child's registers and task, the pages, and
  -- the nodes and the state of the file systems. `none` and `panic` are both panics.
  pub sys_fork :
      {S N : Type 0}
      → (fresh : ℕ → ℕ) → (state : CpuState) → (userspace_stack_top bootstrap : ℕ)
      → (parent created : Task) → Image
      → (ℕ → Handle S N)
      → S
      → Option (CpuState × Task × Image × (ℕ → Handle S N) × S)
  sys_fork fresh state userspace_stack_top bootstrap parent created s nodes fs_state =
      elim (take_page s) [
        | none ↦ none
        | some (child_pt, s') ↦
            elim (copy_working_set child_pt (wrap (state.cr3 + hhdm_offset))
              (with_higher_half hhdm_offset bootstrap child_pt s')) [
                | none ↦ none
                | some copied ↦
                    elim (copy_fds parent.fd_count 0 fresh parent.fd_translation (λ i. 0) nodes
                      fs_state) [
                        | panic ↦ none
                        | returned (fds, nodes', fs_state') ↦ some (
                          child_state state userspace_stack_top child_pt,
                          child_task parent created fds,
                          copied,
                          nodes',
                          fs_state',
                        )
                      ]
              ]
      ]
