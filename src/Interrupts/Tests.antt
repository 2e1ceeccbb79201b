-- ===== src/Interrupts/Tests.antt =====
-- A task with an empty page table faults at 0x5008 of a stack below 0x8000; a handler is mapped behind the others.
use ga_os.Base.{ℕ, ◌≡◌, ◌≢◌, refl, arith, [], ◌∷◌}
use ga_os.PageTables.Sample.{level, empty_table, empty_table-IsTree}
use ga_os.Elf.{Image}
use ga_os.Interrupts.{
  Interrupt, StackOwner, resumed, isr_handler, Vectors, map_vector, interrupts_init,
  reserve_kernel_vector,
}
use ga_os.Interrupts.Stack.{IsStackFault, IsGrown, isr_handler-IsGrown}
use ga_os.Interrupts.Fatal.{Fatal, isr_handler-Fatal}
use ga_os.Interrupts.Gates.{LeadsTo, interrupts_init-entry_point}

abbrev task : StackOwner
task = record { cr3 = 4096; virtual_stack_top = 0x8000 }

abbrev fault_at : (cr2 : ℕ) → Interrupt
fault_at cr2 = record { interrupt_number = 0xE; cs = 0x23; rip = 0x400000; error = 6; cr2 = cr2 }

abbrev image : Image
image = record { tables = empty_table; memory = λ a. 1 }

stack_fault : IsStackFault task (fault_at 0x5008)
stack_fault = record { vector = refl; user = omega arith; above = omega arith; below = omega arith }

isr_handler-IsGrown_example :
    (s' : Image) × (isr_handler 4096 task (fault_at 0x5008) image ≡ resumed s')
    × IsGrown 4096 level 8192 0x5008 12288 image s'
isr_handler-IsGrown_example =
    isr_handler-IsGrown 4096 level task (fault_at 0x5008) image 12288 (16384 ∷ 20480 ∷ 24576 ∷ [])
      stack_fault empty_table-IsTree refl refl (omega arith)

isr_handler-Fatal_example : Fatal (fault_at 0x10) (isr_handler 4096 task (fault_at 0x10) image)
isr_handler-Fatal_example =
    isr_handler-Fatal 4096 task (fault_at 0x10) image (omega arith) (λ f. omega (arith, f.above))

abbrev vectors : Vectors
vectors = record {
  gates = λ v. record {
    offset = 0;
    segment_selector = 0;
    ist = 0;
    attributes = 0;
    offset2 = 0;
    offset3 = 0;
  };
  size = 0;
  vector_base = 0x20;
}

abbrev handlers : ℕ → ℕ
handlers i = 0x80000000

size : (interrupts_init handlers vectors).size ≡ 4079
unfolding interrupts_init
size = refl

interrupts_init-entry_point_example :
    let (vector, t) = reserve_kernel_vector (interrupts_init handlers vectors) in
    LeadsTo (t.gates 14) (handlers 14)
    × (vector ≡ 0x20)
    × LeadsTo (map_vector vector 0xFFFFFFFF80001234 t.gates vector) 0xFFFFFFFF80001234
    × (14 ≢ vector → LeadsTo (map_vector vector 0xFFFFFFFF80001234 t.gates 14) (handlers 14))
interrupts_init-entry_point_example =
    interrupts_init-entry_point handlers vectors 0xFFFFFFFF80001234 14 (λ i. omega arith)
      (omega arith) (rw size (omega arith))
