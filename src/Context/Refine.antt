-- ===== src/Context/Refine.antt =====
-- The two registers of context.c stand for a processor with its task and its scheduler.
use ga_os.Base.{ℕ, ◌≡◌, ◌≢◌, ◌⊎◌, inl, inr, refl, arith, List, [], ◌∷◌, some, eq→==}
use ga_os.Context.{
  put, context_install, Gs, Request, get_cpu, get_scheduler, set_scheduler, get_task, set_task, run,
  run_all, context_type_cpu, get_cpu_context, get_task_context, install_scheduler_context,
  get_scheduler_context, install_task_context,
}

pub record Processor : Type 0 where
  pub cpu : ℕ
  pub task : ℕ
  pub scheduler : ℕ

-- A call returns a field, and sets one at most.
abbrev pub result : Request → Processor → ℕ
result get_cpu p = p.cpu
result get_scheduler p = p.scheduler
result (set_scheduler context) p = context
result get_task p = p.task
result (set_task context) p = context

abbrev pub after : Request → Processor → Processor
after (set_scheduler context) p = record p { scheduler = context }
after (set_task context) p = record p { task = context }
after get_cpu p = p
after get_scheduler p = p
after get_task p = p

abbrev pub results : List Request → Processor → List ℕ
results [] p = []
results (c ∷ cs) p = result c p ∷ results cs (after c p)

-- A task is asked for once there is one, and only tasks are installed; `types` gives the first words.
abbrev pub Allowed : (types : ℕ → ℕ) → Processor → Request → Type 0
Allowed types p get_task = p.task ≢ 0
Allowed types p (set_task context) = (context ≢ 0) × (types context ≢ context_type_cpu)
Allowed types p get_cpu = Unit {0}
Allowed types p get_scheduler = Unit {0}
Allowed types p (set_scheduler context) = Unit {0}

abbrev pub AllAllowed : (types : ℕ → ℕ) → Processor → List Request → Type 0
AllAllowed types p [] = Unit {0}
AllAllowed types p (c ∷ cs) = Allowed types p c × AllAllowed types (after c p) cs

-- The registers hold the processor and the task in either order; without a task the processor comes first.
pub record Represents (types : ℕ → ℕ) (p : Processor) (s : Gs) : Type 0 where
  pub words : (a : ℕ) → s.context_type a ≡ types a
  pub is_cpu : types p.cpu ≡ context_type_cpu
  pub nonnull : p.cpu ≢ 0
  pub is_task : (p.task ≡ 0) ⊎ (types p.task ≢ context_type_cpu)
  pub scheduler : s.scheduler_context p.cpu ≡ p.scheduler
  pub place :
      ((s.gs_base ≡ p.cpu) × (s.kernel_gs_base ≡ p.task))
      ⊎ ((s.gs_base ≡ p.task) × (s.kernel_gs_base ≡ p.cpu) × (p.task ≢ 0))

module _ (types : ℕ → ℕ) (p : Processor) (s : Gs) (v : Represents types p s) where
  abbrev in_cpu : Gs
  in_cpu = record s { gs_base = p.cpu; kernel_gs_base = p.task }

  abbrev in_task : ℕ → Gs
  in_task task = record s { gs_base = task; kernel_gs_base = p.cpu }

  get_cpu_context-in_cpu : get_cpu_context s ≡ (p.cpu, in_cpu)
  unfolding get_cpu_context
  get_cpu_context-in_cpu =
      ground (arith, v.words p.cpu, v.words p.task, v.is_cpu, v.nonnull, v.is_task, v.place)

  get_task_context-in_task : p.task ≢ 0 → get_task_context s ≡ some (p.task, in_task p.task)
  unfolding get_task_context
  get_task_context-in_task ne =
      ground (arith, v.words p.cpu, v.words p.task, v.is_cpu, v.nonnull, v.is_task, v.place)

  install_task_context-in_task :
      (task : ℕ) → install_task_context task s ≡ some (task, in_task task)
  unfolding install_task_context get_task_context
  install_task_context-in_task task =
      ground (arith, v.words p.cpu, v.words p.task, v.is_cpu, v.nonnull, v.is_task, v.place)

  in_cpu-Represents : Represents types p in_cpu
  in_cpu-Represents = record {
    words = v.words;
    is_cpu = v.is_cpu;
    nonnull = v.nonnull;
    is_task = v.is_task;
    scheduler = v.scheduler;
    place = inl (refl, refl);
  }

  in_task-Represents :
      (task : ℕ)
      → task ≢ 0
      → types task ≢ context_type_cpu
      → Represents types (record p { task = task }) (in_task task)
  in_task-Represents task ne is_task = record {
    words = v.words;
    is_cpu = v.is_cpu;
    nonnull = v.nonnull;
    is_task = inr is_task;
    scheduler = v.scheduler;
    place = inr (refl, refl, ne);
  }

  scheduler-Represents :
      (context : ℕ)
      → Represents types
          (record p { scheduler = context })
          (record in_cpu { scheduler_context = put s.scheduler_context p.cpu context })
  scheduler-Represents context = record {
    words = v.words;
    is_cpu = v.is_cpu;
    nonnull = v.nonnull;
    is_task = v.is_task;
    scheduler = rw (eq→== p.cpu p.cpu refl) refl;
    place = inl (refl, refl);
  }

-- Each call returns the field of the processor that it is about, and leaves the others.
run-Represents :
    (types : ℕ → ℕ) (p : Processor) (s : Gs) (c : Request)
    → Represents types p s
    → Allowed types p c
    → (s' : Gs) × (run c s ≡ some (result c p, s')) × Represents types (after c p) s'
unfolding run install_scheduler_context get_scheduler_context
run-Represents types p s get_cpu v ok = (
  in_cpu types p s v,
  rw (get_cpu_context-in_cpu types p s v) refl,
  in_cpu-Represents types p s v,
)
run-Represents types p s get_scheduler v ok = (
  in_cpu types p s v,
  rw (get_cpu_context-in_cpu types p s v, v.scheduler) refl,
  in_cpu-Represents types p s v,
)
run-Represents types p s (set_scheduler context) v ok = (
  record (in_cpu types p s v) { scheduler_context = put s.scheduler_context p.cpu context },
  rw (get_cpu_context-in_cpu types p s v) refl,
  scheduler-Represents types p s v context,
)
run-Represents types p s get_task v ok = (
  in_task types p s v p.task,
  get_task_context-in_task types p s v ok,
  in_task-Represents types p s v p.task ok (ground (arith, v.is_task)),
)
run-Represents types p s (set_task context) v ok = (
  in_task types p s v context,
  install_task_context-in_task types p s v context,
  in_task-Represents types p s v context ok.0 ok.1,
)

-- The same for a sequence of calls.
run_all-results :
    (types : ℕ → ℕ) (cs : List Request) (p : Processor) (s : Gs)
    → Represents types p s
    → AllAllowed types p cs
    → run_all cs s ≡ some (results cs p)
unfolding run_all
run_all-results types [] p s v ok = refl
run_all-results types (c ∷ cs) p s v ok =
    let (s', e, v') = run-Represents types p s c v ok.0 in
    rw (run_all, e, run_all-results types cs (after c p) s' v' ok.1) refl

-- A processor whose context was just installed has no task and no scheduler.
context_install-Represents :
    (context : ℕ) (s : Gs)
    → context ≢ 0
    → Represents
        (put s.context_type context context_type_cpu)
        (record { cpu = context; task = 0; scheduler = 0 })
        (context_install context s).1
unfolding context_install
context_install-Represents context s ne = record {
  words = λ a. refl;
  is_cpu = rw (eq→== context context refl) refl;
  nonnull = ne;
  is_task = inl refl;
  scheduler = rw (eq→== context context refl) refl;
  place = inl (refl, refl);
}

-- After a context was installed, any calls in any order return what an abstract processor with a task and a
-- scheduler returns, as long as a task is asked for only once one was installed, and no task has the first word
-- of a processor: swapping the registers never mixes the contexts up.
pub context_install-results :
    (context : ℕ) (s : Gs) (cs : List Request)
    → context ≢ 0
    → AllAllowed
        (put s.context_type context context_type_cpu)
        (record { cpu = context; task = 0; scheduler = 0 })
        cs
    → run_all cs (context_install context s).1
      ≡ some (results cs (record { cpu = context; task = 0; scheduler = 0 }))
context_install-results context s cs ne ok =
    run_all-results (put s.context_type context context_type_cpu) cs
      (record { cpu = context; task = 0; scheduler = 0 }) (context_install context s).1
      (context_install-Represents context s ne) ok
