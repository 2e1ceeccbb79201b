-- ===== src/Timers/Tests.antt =====
-- A machine whose two counters go on by one tick with every read.
use ga_os.Base.{
  ℕ, ◌+◌, ◌-◌, ◌*◌, ◌/◌, ◌%◌, ◌^◌, ◌≤◌, ◌<◌, ◌≡◌, ◌⊎◌, ◌↔◌, refl, arith, true, some, ◌==◌,
  if◌then◌else◌, [], ◌∷◌,
}
use ga_os.PageTables.{wrap}
use ga_os.Clock.{Clocks, register_time_source}
use ga_os.Timers.{
  Hardware, Hpet, Tsc, Callbacks, keeper, has_constant_tsc, hpet_sleep_nanoseconds,
  tsc_sleep_nanoseconds, tsc_init,
}
use ga_os.Timers.HpetSleep.{CountsAt, hpet_sleep_nanoseconds-lasts}
use ga_os.Timers.TscSleep.{CountsStamps, tsc_sleep_nanoseconds-half}
use ga_os.Timers.Calibration.{
  display_family, display_model, has_constant_tsc_iff, tsc_init-calibrated,
}

-- The processor is of family 6, model 0x9E; a tick of the HPET has 69841279 femtoseconds.
abbrev machine : Hardware
machine = record {
  World = ℕ;
  read64 = λ address w. (if address == 0xFED000F0 then wrap w else 69841279 * 2 ^ 32, w + 1);
  write64 = λ address value w. w;
  rdtsc = λ w. ((w % 2 ^ 32, w / 2 ^ 32 % 2 ^ 32), w + 1);
  cpuid = λ leaf w. 0x000906E9;
}

abbrev hpet : Hpet
hpet = record { registers = 0xFED00000; ticks_to_nanoseconds = 69 }

-- 3.5 GHz
abbrev tsc : Tsc
tsc = record { offset = 1000; ticks_per_second = 3500000000 }

abbrev calls : Callbacks
calls = record { read_nanoseconds = 4096; sleep_nanoseconds = 8192 }

abbrev clocks : Clocks
clocks = record {
  system_timer = keeper (b'h' ∷ []) calls 14318179;
  preemption_timer = keeper [] calls 0;
}

machine-CountsAt : CountsAt machine 0xFED00000 (λ w. w) 1
machine-CountsAt = record {
  counter = λ w. refl;
  advances = λ w. omega arith;
  slow = λ w. omega arith;
}

machine-CountsStamps : CountsStamps machine (λ w. w) 1
machine-CountsStamps = record {
  low = λ w. refl;
  high = λ w. refl;
  advances = λ w. omega arith;
  slow = λ w. omega arith;
}

constant : has_constant_tsc 0x000906E9 ≡ true
unfolding has_constant_tsc
constant = refl

hpet_sleep_nanoseconds-lasts_example :
    (w' : ℕ) × (hpet_sleep_nanoseconds machine 20 hpet 1000 5 ≡ some w')
    × (1000 * 1000000 ≤ (w' - 5) * 69841279)
    × (w' ≤ 5 + 15 + 2 * 1)
hpet_sleep_nanoseconds-lasts_example =
    hpet_sleep_nanoseconds-lasts machine hpet (λ w. w) 1 69841279 1000 15 20 5 machine-CountsAt refl
      (omega arith) (omega arith) (omega arith) (omega arith)

tsc_sleep_nanoseconds-half_example :
    (w' : ℕ) × (tsc_sleep_nanoseconds machine 400 tsc 100 2000 ≡ some w')
    × (100 * 3500000000 ≤ 2 * 1000000000 * (w' - 2000 + 3500000000 / 1000000000))
    × (w' ≤ 2000 + 100 * (3500000000 / 1000000000) + 2 * 1)
tsc_sleep_nanoseconds-half_example =
    tsc_sleep_nanoseconds-half machine tsc (λ w. w) 1 100 400 2000 machine-CountsStamps
      (omega arith) (omega arith) (omega arith) (omega arith)

has_constant_tsc_iff_example : (has_constant_tsc 0x000906E9 ≡ true) ↔ (
    (7 ≤ display_family 0x000906E9)
    ⊎ ((display_family 0x000906E9 ≡ 6) × (16 ≤ display_model 0x000906E9)))
has_constant_tsc_iff_example = has_constant_tsc_iff 0x000906E9 (omega arith) (λ e. refl)

tsc_init-calibrated_example :
    (w' : ℕ) × (tsc_init machine
        (λ callback. hpet_sleep_nanoseconds machine 1500000 hpet)
        calls
        tsc
        clocks
        7
      ≡ some (
        record tsc { ticks_per_second = wrap ((w' - 7) * 10) },
        register_time_source (keeper (b't' ∷ b's' ∷ b'c' ∷ []) calls (wrap ((w' - 7) * 10))) clocks,
        w' + 1,
      ))
    × (7 < w')
    × (100000000 * 1000000 ≤ (w' - 8) * 69841279)
tsc_init-calibrated_example =
    tsc_init-calibrated machine hpet (λ w. w) (λ w. w) 1 1 69841279 1449276 1500000 calls tsc clocks
      7 machine-CountsAt machine-CountsStamps (λ address w. omega arith) refl (omega arith)
      (omega arith) (omega arith) (omega arith) (omega arith) constant
