-- ===== src/Context.antt =====
-- kernel/src/arch/x86_64/context/context.c: the context of a processor and of its task, of which one is in
-- GS_BASE and the other in KERNEL_GS_BASE. A context is known by its address and told apart by its first word,
-- which is `context_type` of a processor and the identifier of a task. Writes to the two registers are `wrmsr`.
pub mod Refine
mod Tests
use ga_os.Base.{ℕ, ◌==◌, ◌||◌, not, Option, none, some, List, [], ◌∷◌, if◌then◌else◌}

abbrev pub context_type_cpu : ℕ
context_type_cpu = 0x55555555

-- The registers, the first words, and `scheduler_context` of `arch_cpu_context_t`.
pub record Gs : Type 0 where
  pub gs_base : ℕ
  pub kernel_gs_base : ℕ
  pub context_type : ℕ → ℕ
  pub scheduler_context : ℕ → ℕ

abbrev pub put : (ℕ → ℕ) → ℕ → ℕ → ℕ → ℕ
put f p v a = if a == p then v else f a

abbrev pub swapgs : Gs → Gs
swapgs s = record s { gs_base = s.kernel_gs_base; kernel_gs_base = s.gs_base }

pub get_cpu_context : Gs → ℕ × Gs
get_cpu_context s =
    let s' =
      if (s.gs_base == 0) || not (s.context_type s.gs_base == context_type_cpu)
      then swapgs s
      else s in
    (s'.gs_base, s')

-- `arch_context_install` with the page that `page_allocate` gives, which is clear.
pub context_install : ℕ → Gs → ℕ × Gs
context_install context s = (
  context,
  record {
    gs_base = context;
    kernel_gs_base = 0;
    context_type = put s.context_type context context_type_cpu;
    scheduler_context = put s.scheduler_context context 0;
  },
)

pub install_scheduler_context : ℕ → Gs → ℕ × Gs
install_scheduler_context context s =
    let (cpu, s') = get_cpu_context s in
    (context, record s' { scheduler_context = put s'.scheduler_context cpu context })

pub get_scheduler_context : Gs → ℕ × Gs
get_scheduler_context s = let (cpu, s') = get_cpu_context s in (s'.scheduler_context cpu, s')

-- `none` is a read through a null pointer.
pub get_task_context : Gs → Option (ℕ × Gs)
get_task_context s =
    if s.gs_base == 0
    then none
    else (let s' = if s.context_type s.gs_base == context_type_cpu then swapgs s else s in
        some (s'.gs_base, s'))

pub install_task_context : ℕ → Gs → Option (ℕ × Gs)
install_task_context context s = elim (get_task_context s) [
  | none ↦ none
  | some (old, s') ↦ some (context, record s' { gs_base = context })
]

-- The calls of the other parts of the kernel.
pub data Request : Type 0 where
  get_cpu : Request
  get_scheduler : Request
  set_scheduler : ℕ → Request
  get_task : Request
  set_task : ℕ → Request

pub run : Request → Gs → Option (ℕ × Gs)
run get_cpu s = some (get_cpu_context s)
run get_scheduler s = some (get_scheduler_context s)
run (set_scheduler context) s = some (install_scheduler_context context s)
run get_task s = get_task_context s
run (set_task context) s = install_task_context context s

-- What a sequence of calls returns.
pub run_all : List Request → Gs → Option (List ℕ)
run_all [] s = some []
run_all (c ∷ cs) s = elim (run c s) [
  | none ↦ none
  | some (r, s') ↦ elim (run_all cs s') [ none ↦ none | some rs ↦ some (r ∷ rs) ]
]
