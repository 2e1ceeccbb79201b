-- ===== src/Clock.antt =====
-- kernel/src/clock: the choice of the two timers among the time sources that are registered.
pub mod Finest
mod Tests
use ga_os.Base.{ℕ, Bool, List, ◌&&◌, if◌then◌else◌, ltb}

-- `clock_time_source_t`, its callbacks by their addresses.
pub record TimeSource : Type 0 where
  pub name : List ℕ
  pub ticks_per_second : ℕ
  pub time_keeping_capable : Bool
  pub read_nanoseconds : ℕ
  pub sleep_nanoseconds : ℕ
  pub one_shot_capable : Bool
  pub schedule_one_shot : ℕ
  pub interrupt_now : ℕ

-- `clock_system_timer` and `clock_preemption_timer`
pub record Clocks : Type 0 where
  pub system_timer : TimeSource
  pub preemption_timer : TimeSource

pub register_time_source : TimeSource → Clocks → Clocks
register_time_source source s =
    let t : Clocks =
      if source.one_shot_capable && ltb s.preemption_timer.ticks_per_second source.ticks_per_second
      then record s { preemption_timer = source }
      else s in
    if source.time_keeping_capable && ltb t.system_timer.ticks_per_second source.ticks_per_second
    then record t { system_timer = source }
    else t
