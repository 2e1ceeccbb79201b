-- ===== src/Timers/HpetSleep.antt =====
-- How long `arch_hpet_sleep_nanoseconds` waits.
use mathlib.Core.Path.{subst}
use ga_os.Base.{ℕ, ◌+◌, ◌-◌, ◌*◌, ◌/◌, ◌^◌, ◌≤◌, ◌<◌, ◌≡◌, ◌≢◌, ap, arith, some}
use ga_os.PageTables.{wrap}
use ga_os.Timers.{
  Hardware, Hpet, hpet_main_counter, hpet_read, hpet_read_nanoseconds, hpet_sleep_nanoseconds,
  wait_for,
}
use ga_os.Timers.Waits.{IsPaced, wait_for-HasWaited}

module _ (hw : Hardware) where
  open hw use {World, read64}

  -- The main counter has the low 64 bits of a count of ticks, and a read takes 1 to `most` ticks.
  pub record CountsAt (registers : ℕ) (count : World → ℕ) (most : ℕ) : Type 0 where
    pub counter : (w : World) → (read64 (wrap (registers + hpet_main_counter)) w).0 ≡ wrap (count w)
    pub advances : (w : World) → count w < count (read64 (wrap (registers + hpet_main_counter)) w).1
    pub slow :
        (w : World) → count (read64 (wrap (registers + hpet_main_counter)) w).1 ≤ count w + most

  no_wrap : (n : ℕ) → n < 2 ^ 64 → wrap n ≡ n
  no_wrap n lt = omega arith

  mul_le : (a c b : ℕ) → a ≤ c → a * b ≤ c * b
  mul_le a c b le = grind arith

  mul_lt : (a c b : ℕ) → a < c → b ≢ 0 → a * b < c * b
  mul_lt a c b lt ne = grind arith

  small_factor :
      (a b limit : ℕ) → a < limit → limit * b ≤ 2 ^ 64 → limit ≤ 2 ^ 64 → wrap (wrap a * b) ≡ a * b
  small_factor a b limit lt le small = grind arith

  hpet-IsPaced :
      (h : Hpet) (count : World → ℕ) (most limit : ℕ)
      → CountsAt h.registers count most
      → limit * h.ticks_to_nanoseconds ≤ 2 ^ 64
      → limit ≤ 2 ^ 64
      → IsPaced hw (hpet_read_nanoseconds hw h) count (λ c. c * h.ticks_to_nanoseconds) most limit
  unfolding hpet_read_nanoseconds hpet_read
  hpet-IsPaced h count most limit law room small = record {
    reads = λ w lt. (
      (read64 (wrap (h.registers + hpet_main_counter)) w).1,
      rw (law.counter w) (
          ap (λ n. some (n, (read64 (wrap (h.registers + hpet_main_counter)) w).1))
            (small_factor (count w) h.ticks_to_nanoseconds limit lt room small)),
      law.advances w,
      law.slow w,
    );
  }

  mul_le_both : (a b c d : ℕ) → a ≤ c → b ≤ d → a * b ≤ c * d
  mul_le_both a b c d le le' = let more = mul_le a c b le in grind (arith, more)

  elapsed_sum :
      (begin gap end nanos per_tick femtoseconds : ℕ)
      → begin * per_tick + nanos ≤ (begin + gap) * per_tick
      → gap ≤ end
      → per_tick * 1000000 ≤ femtoseconds
      → nanos * 1000000 ≤ end * femtoseconds
  elapsed_sum begin gap end nanos per_tick femtoseconds reached ge le =
      let longer = mul_le_both gap (per_tick * 1000000) end femtoseconds ge le in
      omega (arith, reached, longer)

  -- Whole nanoseconds are not longer than the ticks.
  elapsed :
      (begin last end nanos per_tick femtoseconds : ℕ)
      → begin * per_tick + nanos ≤ last * per_tick
      → begin ≤ last
      → last < end
      → per_tick * 1000000 ≤ femtoseconds
      → nanos * 1000000 ≤ (end - begin) * femtoseconds
  elapsed begin last end nanos per_tick femtoseconds reached ge lt le =
      let split : last ≡ begin + (last - begin) = omega arith in
      elapsed_sum begin (last - begin) (end - begin) nanos per_tick femtoseconds
        (subst (λ n. begin * per_tick + nanos ≤ n * per_tick) split reached) (omega arith) le

  -- The time asked for has passed after enough ticks.
  passed :
      (begin ticks c nanos per_tick : ℕ)
      → nanos ≤ ticks * per_tick
      → begin + ticks ≤ c
      → begin * per_tick + nanos ≤ c * per_tick
  passed begin ticks c nanos per_tick worth ge =
      let more = mul_le (begin + ticks) c per_tick ge in omega (arith, worth, more)

  after_read :
      (h : Hpet) (fuel time nanos target : ℕ) (w w1 w2 : World)
      → hpet_read_nanoseconds hw h w ≡ some (time, w1)
      → wrap (time + nanos) ≡ target
      → wait_for hw fuel (hpet_read_nanoseconds hw h) target w1 ≡ some w2
      → hpet_sleep_nanoseconds hw fuel h nanos w ≡ some w2
  unfolding hpet_sleep_nanoseconds
  after_read h fuel time nanos target w w1 w2 e until waited =
      rw (hpet_sleep_nanoseconds, e, until) waited

  -- On a counter that advances with every read, with the nanoseconds of a tick as `arch_hpet_init` rounds them,
  -- not to 0, and as long as the time in nanoseconds stays below 2 ^ 64, a sleep ends: with fuel above a number of
  -- ticks that are worth the time asked for, after at most these and the most that two reads take. It lasts at
  -- least as long as asked.
  pub hpet_sleep_nanoseconds-lasts :
      (h : Hpet) (count : World → ℕ) (most femtoseconds nanos ticks fuel : ℕ) (w : World)
      → CountsAt h.registers count most
      → h.ticks_to_nanoseconds ≡ femtoseconds / 1000000
      → h.ticks_to_nanoseconds ≢ 0
      → nanos ≤ ticks * h.ticks_to_nanoseconds
      → (count w + ticks + most + 1) * h.ticks_to_nanoseconds ≤ 2 ^ 64
      → ticks < fuel
      → (w' : World) × (hpet_sleep_nanoseconds hw fuel h nanos w ≡ some w')
        × (nanos * 1000000 ≤ (count w' - count w) * femtoseconds)
        × (count w' ≤ count w + ticks + 2 * most)
  hpet_sleep_nanoseconds-lasts h count most femtoseconds nanos ticks fuel w law rounded real worth
        room more =
      let per_tick = h.ticks_to_nanoseconds in
      let limit = count w + ticks + most + 1 in
      let small : limit ≤ 2 ^ 64 = grind arith in
      let paced = hpet-IsPaced h count most limit law room small in
      let (w1, e, on, slow) = paced.reads w (omega arith) in
      let inside : count w * per_tick + nanos < 2 ^ 64 = grind arith in
      let (w2, e2, waited) =
        wait_for-HasWaited hw (hpet_read_nanoseconds hw h) count (λ c. c * per_tick) most limit fuel
          (count w * per_tick + nanos) (count w + ticks) w1 paced
          (λ c ge lt. passed (count w) ticks c nanos per_tick worth ge) (omega arith)
          (omega (arith, slow)) (omega (arith, on, more)) (λ z. omega (arith, z, more)) in
      (
        w2,
        after_read h fuel (count w * per_tick) nanos (count w * per_tick + nanos) w w1 w2 e
            (no_wrap (count w * per_tick + nanos) inside) e2,
        elapsed (count w) waited.last (count w2) nanos per_tick femtoseconds waited.reached
            (omega (arith, on, waited.later)) waited.before (omega (arith, rounded)),
        waited.soon,
      )
