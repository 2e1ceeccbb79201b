-- ===== src/Interrupts.antt =====
-- kernel/src/arch/x86_64/idt/idt.c: the gates of the interrupt vectors, and the handler of exceptions, which gives a
-- task a new page of its stack. The task that `arch_get_task_context` gives is an argument; pages come as for
-- the loader of executables.
pub mod Stack
pub mod Fatal
pub mod Gates
mod Tests
use ga_os.Base.{
  ℕ, zero, suc, ◌+◌, ◌-◌, ◌*◌, ◌/◌, ◌%◌, ◌^◌, bit_and, Bool, not, ◌==◌, ◌&&◌, ◌||◌, ltb, leb,
  if◌then◌else◌, Option, none, some,
}
use ga_os.PageTables.{map, wrap}
use ga_os.PageTables.Pages.{page_of}
use ga_os.Elf.{Image, take_page, physical, page_flags}

-- What `arch_isr_handler` reads: the saved registers, the vector and cr2.
pub record Interrupt : Type 0 where
  pub interrupt_number : ℕ
  pub cs : ℕ
  pub rip : ℕ
  pub error : ℕ
  pub cr2 : ℕ

-- The fields of the task that the handler reads.
pub record StackOwner : Type 0 where
  pub cr3 : ℕ
  pub virtual_stack_top : ℕ

-- How the handler ends. All but `resumed` do not return to what was interrupted.
pub data Ending : Type 0 where
  halted : Ending
  null_dereference : (rip : ℕ) → Ending
  page_fault : (error cr2 rip : ℕ) → Ending
  exception : (interrupt_number rip : ℕ) → Ending
  out_of_memory : Ending
  resumed : Image → Ending

-- if (state->cs & 3) if (cr2 >= 0x1000 && cr2 < task->virtual_stack_top)
pub in_stack : StackOwner → Interrupt → Bool
in_stack task i =
    not (bit_and i.cs 3 == 0) && (leb 0x1000 i.cr2 && ltb i.cr2 task.virtual_stack_top)

module _ (hhdm_offset : ℕ) where
  -- A new page for the stack.
  pub grow_stack : StackOwner → (cr2 : ℕ) → Image → Ending
  grow_stack task cr2 s = elim (take_page s) [
    | none ↦ out_of_memory
    | some (new, s') ↦
        elim (map hhdm_offset s'.tables (wrap (task.cr3 + hhdm_offset)) (page_of cr2)
          (physical hhdm_offset new) page_flags) [
            | none ↦ out_of_memory
            | some tables ↦ resumed (record s' { tables = tables })
          ]
  ]

  pub handle_page_fault : StackOwner → Interrupt → Image → Ending
  handle_page_fault task i s =
      if in_stack task i
      then grow_stack task i.cr2 s
      else if ltb i.cr2 0x1000
      then null_dereference i.rip
      else page_fault i.error i.cr2 i.rip

  pub isr_handler : StackOwner → Interrupt → Image → Ending
  isr_handler task i s =
      if (i.interrupt_number == 2) || (i.interrupt_number == 8)
      then halted
      else if ltb i.interrupt_number 0x20
      then (if i.interrupt_number == 0xE
          then handle_page_fault task i s
          else exception i.interrupt_number i.rip)
      else resumed s

-- `arch_idt_gate_descriptor_t`
pub record Gate : Type 0 where
  pub offset : ℕ
  pub segment_selector : ℕ
  pub ist : ℕ
  pub attributes : ℕ
  pub offset2 : ℕ
  pub offset3 : ℕ

-- The gates, the size in the register of the table, and the next vector that is free.
pub record Vectors : Type 0 where
  pub gates : ℕ → Gate
  pub size : ℕ
  pub vector_base : ℕ

pub gate_to : (handler : ℕ) → Gate
gate_to handler = record {
  offset = handler % 2 ^ 16;
  segment_selector = 8 * 1;
  ist = 1;
  attributes = 0xEE;
  offset2 = handler / 2 ^ 16 % 2 ^ 16;
  offset3 = handler / 2 ^ 32 % 2 ^ 32;
}

pub map_vector : (vector handler : ℕ) → (ℕ → Gate) → ℕ → Gate
map_vector vector handler gates v = if v == vector then gate_to handler else gates v

-- The loop of `arch_interrupts_init`, with the rounds left.
pub map_handlers : (rounds i : ℕ) → (handlers : ℕ → ℕ) → (ℕ → Gate) → ℕ → Gate
map_handlers zero i handlers gates = gates
map_handlers (suc rounds) i handlers gates =
    map_handlers rounds (i + 1) handlers (map_vector i (handlers i) gates)

pub interrupts_init : (handlers : ℕ → ℕ) → Vectors → Vectors
interrupts_init handlers s = record s {
  gates = map_handlers 0xFF 0 handlers s.gates;
  size = 0xFF * 16 - 1;
}

pub reserve_kernel_vector : Vectors → ℕ × Vectors
reserve_kernel_vector s = (s.vector_base, record s { vector_base = (s.vector_base + 1) % 2 ^ 16 })
