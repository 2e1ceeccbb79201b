-- ===== src/Timers.antt =====
-- The time sources of kernel/src/arch/x86_64/timers: hpet.c and tsc.c. The registers of a device and `rdtsc` are
-- those of a `Hardware`, which is an argument. A wait takes fuel; `none` is a wait that did not end, or a fault.
pub mod Waits
pub mod HpetSleep
pub mod TscSleep
pub mod Calibration
mod Tests
use ga_os.Base.{
  ℕ, zero, suc, ◌+◌, ◌-◌, ◌*◌, ◌/◌, ◌%◌, ◌^◌, bit_or, Bool, true, false, not, ◌==◌, ◌&&◌, ◌||◌, ltb,
  leb, if◌then◌else◌, Option, none, some, List, [], ◌∷◌,
}
use ga_os.Libc.Memory.{Memory}
use ga_os.Libc.Strings.{CString, string_at}
use ga_os.Libc.Integers.{number_at}
use ga_os.Acpi.{Xsdp, sdt_header_size, acpi_get_table}
use ga_os.PageTables.{Tables, wrap, map}
use ga_os.Clock.{TimeSource, Clocks, register_time_source}

-- A read of a register may change the world, if only its time. `rdtsc` gives the low and the high half.
pub record Hardware : Type 1 where
  pub World : Type 0
  pub read64 : (address : ℕ) → World → ℕ × World
  pub write64 : (address value : ℕ) → World → World
  pub rdtsc : World → (ℕ × ℕ) × World
  pub cpuid : (leaf : ℕ) → World → ℕ

abbrev pub hpet_general_capabilities : ℕ
hpet_general_capabilities = 0

abbrev pub hpet_general_configuration : ℕ
hpet_general_configuration = 0x10

abbrev pub hpet_main_counter : ℕ
hpet_main_counter = 0xF0

abbrev pub hpet_timer_configuration_capability : ℕ → ℕ
hpet_timer_configuration_capability n = 0x100 + 0x20 * n

abbrev pub hpet_timer_comparator : ℕ → ℕ
hpet_timer_comparator n = 0x108 + 0x20 * n

abbrev hpet_signature : CString
hpet_signature =
    string_at
      (λ i.
        if i == 0
        then b'H'
        else if i == 1
        then b'P'
        else if i == 2
        then b'E'
        else if i == 3
        then b'T'
        else 0)
      0

-- The address of the registers, and `arch_hpet_ticks_to_nanoseconds`.
pub record Hpet : Type 0 where
  pub registers : ℕ
  pub ticks_to_nanoseconds : ℕ

-- The addresses of the two callbacks of a time source.
pub record Callbacks : Type 0 where
  pub read_nanoseconds : ℕ
  pub sleep_nanoseconds : ℕ

-- A time source that can keep the time and cannot interrupt.
abbrev pub keeper : List ℕ → Callbacks → (ticks_per_second : ℕ) → TimeSource
keeper name calls ticks_per_second = record {
  name = name;
  ticks_per_second = ticks_per_second;
  time_keeping_capable = true;
  read_nanoseconds = calls.read_nanoseconds;
  sleep_nanoseconds = calls.sleep_nanoseconds;
  one_shot_capable = false;
  schedule_one_shot = 0;
  interrupt_now = 0;
}

-- 10^15 femtoseconds are a second, and the result is an `uint32_t`.
pub hpet_frequency : (ticks_to_femtoseconds : ℕ) → ℕ
hpet_frequency ticks_to_femtoseconds = 1000000000000000 / ticks_to_femtoseconds % 2 ^ 32

-- Family and model in `eax` of leaf 1, and whether they are new enough.
pub has_constant_tsc : (eax : ℕ) → Bool
has_constant_tsc eax =
    let family0 = eax / 2 ^ 8 % 16 in
    let model : ℕ = if leb 6 family0 then eax / 2 ^ 16 * 2 ^ 4 % 2 ^ 32 else eax / 2 ^ 4 % 16 in
    let family : ℕ = if family0 == 15 then (family0 + eax / 2 ^ 20) % 2 ^ 32 else family0 in
    leb 7 family || ((family == 6) && leb 0xF model)

-- `arch_tsc_offset` and the `ticks_per_second` of `arch_tsc_timer`.
pub record Tsc : Type 0 where
  pub offset : ℕ
  pub ticks_per_second : ℕ

module _ (hw : Hardware) where
  open hw use {World, read64, write64, cpuid}

  pub hpet_read : Hpet → (offset : ℕ) → World → ℕ × World
  hpet_read h offset w = read64 (wrap (h.registers + offset)) w

  pub hpet_write : Hpet → (offset value : ℕ) → World → World
  hpet_write h offset value w = write64 (wrap (h.registers + offset)) value w

  pub hpet_read_nanoseconds : Hpet → World → Option (ℕ × World)
  hpet_read_nanoseconds h w =
      let (counter, w') = hpet_read h hpet_main_counter w in
      some (wrap (counter * h.ticks_to_nanoseconds), w')

  -- The loop that waits for a time, with fuel.
  pub wait_for : ℕ → (World → Option (ℕ × World)) → (target : ℕ) → World → Option World
  wait_for zero read target w = none
  wait_for (suc fuel) read target w = elim (read w) [
    | none ↦ none
    | some (time, w') ↦
        let rest = wait_for fuel read target w' in if ltb time target then rest else some w'
  ]

  pub hpet_sleep_nanoseconds : ℕ → Hpet → (nanos : ℕ) → World → Option World
  hpet_sleep_nanoseconds fuel h nanos w = elim (hpet_read_nanoseconds h w) [
    | none ↦ none
    | some (time, w') ↦ wait_for fuel (hpet_read_nanoseconds h) (wrap (time + nanos)) w'
  ]

  -- The header has the address space of the registers at 40, and their address at 44.
  pub data HpetInit : Type 0 where
    absent : HpetInit
    unsupported : HpetInit
    panicked : HpetInit
    divided_by_zero : HpetInit
    started : Hpet → Clocks → Tables → World → HpetInit

  -- The counter is cleared, the first timer is set up without interrupts, and the counter is enabled.
  pub hpet_enable : Hpet → World → World
  hpet_enable h w = hpet_write h hpet_general_configuration 1 (
      hpet_write h (hpet_timer_comparator 0) 0 (
        hpet_write h (hpet_timer_configuration_capability 0) (bit_or (2 ^ 3) (2 ^ 6))
          (hpet_write h hpet_main_counter 0 w)))

  -- `arch_hpet_init` from the mapping of the registers on.
  pub hpet_start : (hhdm_offset table address : ℕ) → Callbacks → Clocks → Tables → World → HpetInit
  hpet_start hhdm_offset table address calls clocks tables w =
      elim (map hhdm_offset tables table (wrap (address + hhdm_offset)) address
        (bit_or (2 ^ 1) (2 ^ 4))) [
          | none ↦ panicked
          | some tables' ↦
              let registers = wrap (hhdm_offset + address) in
              let unset : Hpet = record { registers = registers; ticks_to_nanoseconds = 0 } in
              let (capabilities, w') = hpet_read unset hpet_general_capabilities w in
              let ticks_to_femtoseconds = capabilities / 2 ^ 32 in
              let h : Hpet = record {
                registers = registers;
                ticks_to_nanoseconds = ticks_to_femtoseconds / 1000000;
              } in
              if ticks_to_femtoseconds == 0
              then divided_by_zero
              else started h
                  (register_time_source
                    (keeper (b'h' ∷ b'p' ∷ b'e' ∷ b't' ∷ []) calls
                      (hpet_frequency ticks_to_femtoseconds))
                    clocks)
                  tables' (hpet_enable h w')
        ]

  pub hpet_init :
      (hhdm_offset table : ℕ)
      → Memory
      → Xsdp
      → (sdt : ℕ) → Callbacks
      → Clocks
      → Tables
      → World
      → HpetInit
  hpet_init hhdm_offset table m sdp sdt calls clocks tables w =
      elim (acpi_get_table hhdm_offset m sdp sdt hpet_signature) [
        | none ↦ absent
        | some header ↦
            if m (header + sdt_header_size + 4) == 0
            then hpet_start hhdm_offset table
                (number_at 8 (string_at m (header + sdt_header_size + 8))) calls clocks tables w
            else unsupported
      ]

  -- `rdtsc()`
  pub read_tsc : World → ℕ × World
  read_tsc w = let ((low, high), w') = hw.rdtsc w in (bit_or (wrap (high * 2 ^ 32)) low, w')

  -- `none` is a division by zero.
  pub tsc_read_nanoseconds : Tsc → World → Option (ℕ × World)
  tsc_read_nanoseconds t w =
      let (ticks, w') = read_tsc w in
      let per_nanosecond = t.ticks_per_second / 1000000000 in
      if per_nanosecond == 0
      then none
      else some (wrap (ticks + (2 ^ 64 - t.offset)) / per_nanosecond, w')

  pub tsc_sleep_nanoseconds : ℕ → Tsc → (nanoseconds : ℕ) → World → Option World
  tsc_sleep_nanoseconds fuel t nanoseconds w = elim (tsc_read_nanoseconds t w) [
    | none ↦ none
    | some (time, w') ↦ wait_for fuel (tsc_read_nanoseconds t) (wrap (time + nanoseconds)) w'
  ]

  pub tsc_reset : Tsc → World → Tsc × World
  tsc_reset t w = let (ticks, w') = read_tsc w in (record t { offset = ticks }, w')

  -- `sleep` is what the address of the system timer's callback names.
  pub tsc_init :
      (sleep : (callback nanoseconds : ℕ) → World → Option World)
      → Callbacks
      → Tsc
      → Clocks
      → World
      → Option (Tsc × Clocks × World)
  tsc_init sleep calls t clocks w =
      if (clocks.system_timer.sleep_nanoseconds == 0) || not (has_constant_tsc (cpuid 1 w))
      then some (t, clocks, w)
      else let (a, w1) = read_tsc w in
        elim (sleep clocks.system_timer.sleep_nanoseconds (100 * 1000000) w1) [
          | none ↦ none
          | some w2 ↦
              let (b, w3) = read_tsc w2 in
              let ticks_per_second = wrap (wrap (b + (2 ^ 64 - a)) * 10) in
              some (
                record t { ticks_per_second = ticks_per_second },
                register_time_source (keeper (b't' ∷ b's' ∷ b'c' ∷ []) calls ticks_per_second)
                    clocks,
                w3,
              )
        ]
