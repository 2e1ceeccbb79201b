-- ===== src/Clock/Tests.antt =====
-- Two sources are registered over timers that do nothing.
use ga_os.Base.{ℕ, Bool, true, false, [], ◌∷◌}
use ga_os.Clock.{TimeSource, Clocks}
use ga_os.Clock.Finest.{register_all, AllCoarser, IsChosen, register_all-finest}

abbrev source : ℕ → Bool → Bool → TimeSource
source ticks keeps once = record {
  name = [];
  ticks_per_second = ticks;
  time_keeping_capable = keeps;
  read_nanoseconds = 0;
  sleep_nanoseconds = 0;
  one_shot_capable = once;
  schedule_one_shot = 0;
  interrupt_now = 0;
}

abbrev idle : Clocks
idle = record { system_timer = source 0 false false; preemption_timer = source 0 false false }

register_all-finest_example :
    AllCoarser
      (source 1000 true true ∷ source 3579545 true false ∷ [])
      (register_all (source 1000 true true ∷ source 3579545 true false ∷ []) idle)
    × IsChosen
        (source 1000 true true ∷ source 3579545 true false ∷ [])
        idle
        (register_all (source 1000 true true ∷ source 3579545 true false ∷ []) idle)
register_all-finest_example =
    register_all-finest (source 1000 true true ∷ source 3579545 true false ∷ []) idle
