-- ===== src/Timers/Calibration.antt =====
-- `arch_tsc_init`: the processors that it takes, and the frequency that it measures with the HPET.
use ga_os.Base.{
  ℕ, zero, suc, ◌+◌, ◌-◌, ◌*◌, ◌/◌, ◌%◌, ◌^◌, ◌≤◌, ◌<◌, ◌≡◌, ◌≢◌, ◌⊎◌, ◌↔◌, ap, arith, inl, inr,
  true, Bool-cases, Option-cases, Option, some, ◌==◌, ◌||◌, ltb, ne→==, if◌then◌else◌, [], ◌∷◌,
}
use ga_os.PageTables.{wrap}
use ga_os.Clock.{Clocks, register_time_source}
use ga_os.Timers.{
  Hardware, Hpet, Tsc, read_tsc, Callbacks, keeper, has_constant_tsc, wait_for, hpet_main_counter,
  hpet_read, hpet_read_nanoseconds, hpet_sleep_nanoseconds, tsc_init,
}
use ga_os.Timers.HpetSleep.{CountsAt, hpet_sleep_nanoseconds-lasts}
use ga_os.Timers.TscSleep.{CountsStamps, read_tsc-wrap}

-- The fields of `eax` as the manual of the processor gives them.
abbrev pub family_id : ℕ → ℕ
family_id eax = eax / 2 ^ 8 % 16

abbrev pub extended_family : ℕ → ℕ
extended_family eax = eax / 2 ^ 20

abbrev pub extended_model : ℕ → ℕ
extended_model eax = eax / 2 ^ 16 % 16

abbrev pub display_family : ℕ → ℕ
display_family eax = if family_id eax == 15 then extended_family eax + 15 else family_id eax

abbrev pub display_model : ℕ → ℕ
display_model eax =
    if (family_id eax == 6) || (family_id eax == 15)
    then extended_model eax * 16 + eax / 2 ^ 4 % 16
    else eax / 2 ^ 4 % 16

-- In a value whose top 4 bits are clear, with an extended family only where the manual has one, the processors taken are those
-- above family 6, and in family 6 those with a model of at least 16.
pub has_constant_tsc_iff :
    (eax : ℕ)
    → eax < 2 ^ 28
    → (family_id eax ≡ 6 → extended_family eax ≡ 0)
    → (has_constant_tsc eax ≡ true)
      ↔ ((7 ≤ display_family eax) ⊎ ((display_family eax ≡ 6) × (16 ≤ display_model eax)))
unfolding has_constant_tsc
has_constant_tsc_iff eax lt usual = (λ e. ground (arith, e, usual), λ r. ground (arith, r, usual))

rate_lem : (a b : ℕ) → a ≤ b → wrap (wrap (wrap b + (2 ^ 64 - wrap a)) * 10) ≡ wrap ((b - a) * 10)
rate_lem a b le = omega arith

module _ (hw : Hardware) where
  open hw use {World, read64, rdtsc, cpuid}

  -- What no read of the clock turns back, the wait does not.
  wait_for-le :
      (read : World → Option (ℕ × World)) (stamps : World → ℕ) (fuel target : ℕ) (w w' : World)
      → ((v v' : World) (time : ℕ) → read v ≡ some (time, v') → stamps v ≤ stamps v')
      → wait_for hw fuel read target w ≡ some w'
      → stamps w ≤ stamps w'
  unfolding wait_for
  wait_for-le read stamps zero target w w' steady e = absurd (cc)
  wait_for-le read stamps (suc fuel) target w w' steady e = elim (Option-cases (read w)) [
    | inl fault ↦ absurd (ground (arith, e, fault))
    | inr ((time, w1), at) ↦
        let first = steady w w1 time at in
        elim (Bool-cases (ltb time target)) [
          | inl early ↦
              let later =
                wait_for-le read stamps fuel target w1 w' steady (ground (arith, e, at, early)) in
              omega (arith, first, later)
          | inr late ↦ let one : w1 ≡ w' = ground (arith, e, at, late) in rw one at first
        ]
  ]

  hpet_read_steady :
      (h : Hpet) (stamps : World → ℕ)
      → ((address : ℕ) (v : World) → stamps v ≤ stamps (read64 address v).1)
      → (v v' : World) (time : ℕ) → hpet_read_nanoseconds hw h v ≡ some (time, v')
      → stamps v ≤ stamps v'
  unfolding hpet_read_nanoseconds hpet_read
  hpet_read_steady h stamps steady v v' time e =
      let one : (read64 (wrap (h.registers + hpet_main_counter)) v).1 ≡ v' = ground (arith, e) in
      rw one at (steady (wrap (h.registers + hpet_main_counter)) v)

  hpet_sleep_steady :
      (h : Hpet) (stamps : World → ℕ) (fuel nanos : ℕ) (w w' : World)
      → ((address : ℕ) (v : World) → stamps v ≤ stamps (read64 address v).1)
      → hpet_sleep_nanoseconds hw fuel h nanos w ≡ some w'
      → stamps w ≤ stamps w'
  unfolding hpet_sleep_nanoseconds
  hpet_sleep_steady h stamps fuel nanos w w' steady e =
      elim (Option-cases (hpet_read_nanoseconds hw h w)) [
        | inl fault ↦ absurd (ground (arith, e, fault))
        | inr ((time, w1), at) ↦
            let first = hpet_read_steady h stamps steady w w1 time at in
            let waited : wait_for hw fuel (hpet_read_nanoseconds hw h) (wrap (time + nanos)) w1
                ≡ some w' =
              ground (arith, e, at) in
            let later =
              wait_for-le (hpet_read_nanoseconds hw h) stamps fuel (wrap (time + nanos)) w1 w'
                (hpet_read_steady h stamps steady) waited in
            omega (arith, first, later)
      ]

  -- `tsc_init` with the result of the sleep and the rate put in.
  measured :
      (sleep : (callback nanoseconds : ℕ) → World → Option World) (calls : Callbacks) (t : Tsc)
      (clocks : Clocks) (w w2 : World) (rate : ℕ)
      → clocks.system_timer.sleep_nanoseconds ≢ 0
      → has_constant_tsc (cpuid 1 w) ≡ true
      → sleep clocks.system_timer.sleep_nanoseconds 100000000 (rdtsc w).1 ≡ some w2
      → wrap (wrap ((read_tsc hw w2).0 + (2 ^ 64 - (read_tsc hw w).0)) * 10) ≡ rate
      → tsc_init hw sleep calls t clocks w
        ≡ some (
          record t { ticks_per_second = rate },
          register_time_source (keeper (b't' ∷ b's' ∷ b'c' ∷ []) calls rate) clocks,
          (rdtsc w2).1,
        )
  unfolding tsc_init read_tsc
  measured sleep calls t clocks w w2 rate able constant slept e =
      rw (tsc_init, ne→== clocks.system_timer.sleep_nanoseconds 0 able, constant, slept)
        (ap
          (λ n. some (
            record t { ticks_per_second = n },
            register_time_source (keeper (b't' ∷ b's' ∷ b'c' ∷ []) calls n) clocks,
            (rdtsc w2).1,
          ))
          e)

  -- The system timer can sleep and is the HPET, on a counter and with a rounding and fuel for which a sleep of
  -- 100 ms ends, whose registers do not turn the time stamps back when they are read. On a processor with a
  -- constant counter, `arch_tsc_init` then ends, and keeps and registers ten times the time stamps that passed,
  -- which are at least one, from before a sleep of at least 100 ms to behind it, modulo 2 ^ 64.
  pub tsc_init-calibrated :
      (h : Hpet) (ticks stamps : World → ℕ) (most most' femtoseconds enough fuel : ℕ)
      (calls : Callbacks) (t : Tsc) (clocks : Clocks) (w : World)
      → CountsAt hw h.registers ticks most
      → CountsStamps hw stamps most'
      → ((address : ℕ) (v : World) → stamps v ≤ stamps (read64 address v).1)
      → h.ticks_to_nanoseconds ≡ femtoseconds / 1000000
      → h.ticks_to_nanoseconds ≢ 0
      → 100000000 ≤ enough * h.ticks_to_nanoseconds
      → (ticks (rdtsc w).1 + enough + most + 1) * h.ticks_to_nanoseconds ≤ 2 ^ 64
      → enough < fuel
      → clocks.system_timer.sleep_nanoseconds ≢ 0
      → has_constant_tsc (cpuid 1 w) ≡ true
      → (w' : World) × (tsc_init hw (λ callback. hpet_sleep_nanoseconds hw fuel h) calls t clocks w
          ≡ some (
            record t { ticks_per_second = wrap ((stamps w' - stamps w) * 10) },
            register_time_source
                (keeper (b't' ∷ b's' ∷ b'c' ∷ []) calls (wrap ((stamps w' - stamps w) * 10)))
                clocks,
            (rdtsc w').1,
          ))
        × (stamps w < stamps w')
        × (100000000 * 1000000 ≤ (ticks w' - ticks (rdtsc w).1) * femtoseconds)
  tsc_init-calibrated h ticks stamps most most' femtoseconds enough fuel calls t clocks w law law'
        steady rounded real worth room more able constant =
      let (w2, slept, lasted, soon) =
        hpet_sleep_nanoseconds-lasts hw h ticks most femtoseconds 100000000 enough fuel (rdtsc w).1
          law rounded real worth room more in
      let on = law'.advances w in
      let kept = hpet_sleep_steady h stamps fuel 100000000 (rdtsc w).1 w2 steady slept in
      (
        w2,
        measured (λ callback. hpet_sleep_nanoseconds hw fuel h) calls t clocks w w2
            (wrap ((stamps w2 - stamps w) * 10)) able constant slept
            (rw
              (
                ap (λ r. r.0) (read_tsc-wrap hw stamps most' w law'),
                ap (λ r. r.0) (read_tsc-wrap hw stamps most' w2 law'),
              )
              (rate_lem (stamps w) (stamps w2) (omega (arith, on, kept)))),
        omega (arith, on, kept),
        lasted,
      )
