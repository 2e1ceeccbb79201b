-- ===== src/Context/Tests.antt =====
-- A processor whose context is at 4096, and a task at 8192.
use ga_os.Base.{◌≡◌, refl, arith, List, [], ◌∷◌, some, none}
use ga_os.Context.{
  Gs, Request, get_cpu, get_scheduler, set_scheduler, get_task, set_task, run_all, run,
  context_install, get_task_context,
}
use ga_os.Context.Refine.{results, context_install-results}

abbrev start : Gs
start = record {
  gs_base = 0;
  kernel_gs_base = 0;
  context_type = λ a. 2;
  scheduler_context = λ a. 0;
}

abbrev calls : List Request
calls = set_scheduler 500 ∷ set_task 8192 ∷ get_cpu ∷ get_task ∷ get_scheduler ∷ get_task ∷ []

context_install-results_example :
    run_all calls (context_install 4096 start).1
    ≡ some (results calls (record { cpu = 4096; task = 0; scheduler = 0 }))
context_install-results_example =
    context_install-results 4096 start calls (omega arith)
      (tt, ((omega arith, omega arith), (tt, (omega arith, (tt, (omega arith, tt))))))

-- Asking for the task twice before there is one reads through a null pointer.
twice_without_task : run_all (get_task ∷ get_task ∷ []) (context_install 4096 start).1 ≡ none
unfolding run_all run context_install get_task_context
twice_without_task = refl
