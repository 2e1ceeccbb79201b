-- ===== src/Timers/TscSleep.antt =====
-- What `arch_tsc_sleep_nanoseconds` and `arch_tsc_init` do on a time stamp counter.
use ga_os.Base.{
  ℕ, zero, suc, ◌+◌, ◌-◌, ◌*◌, ◌/◌, ◌%◌, ◌^◌, ◌≤◌, ◌<◌, ◌≡◌, ◌≢◌, refl, ap, arith, bit_or, some,
  ne→==, ◌∙◌, sym,
}
use ga_os.Base.Bits.{bit_or_step}
use native.Mathlib.Nat.{
  pow-suc, mul-le-mul_left, div-le_self, div-mul-le_self, lt-div-mul-add, le-div_iff_mul-le,
}
use ga_os.PageTables.{wrap}
use ga_os.Timers.{Hardware, Tsc, read_tsc, tsc_read_nanoseconds, tsc_sleep_nanoseconds, wait_for}
use ga_os.Timers.Waits.{IsPaced, wait_for-HasWaited}

bit_or-none : (k a : ℕ) → a < 2 ^ k → bit_or a 0 ≡ a
bit_or-none zero a lt = let e : a ≡ 0 = omega arith in omega (arith, e, ap (λ x. bit_or x 0) e)
bit_or-none (suc k) a lt =
    omega (arith, bit_or_step a 0, bit_or-none k (a / 2) (omega (arith, pow-suc 2 k)))

doubled : (a b p : ℕ) → a ≡ b * p → a * 2 ≡ b * (p * 2)
doubled a b p e = omega (arith, e)

-- A high and a low half side by side.
bit_or-halves :
    (m k high low : ℕ) → high < 2 ^ m → low < 2 ^ k → bit_or (high * 2 ^ k) low ≡ high * 2 ^ k + low
bit_or-halves m zero high low fits lt =
    let e : low ≡ 0 = omega arith in
    let whole : high * 2 ^ 0 ≡ high = omega arith in
    rw (whole, e) (bit_or-none m high fits ∙ omega arith)
bit_or-halves m (suc k) high low fits lt =
    let whole : high * 2 ^ k * 2 ≡ high * 2 ^ suc k =
      doubled (high * 2 ^ k) high (2 ^ k) refl ∙ ap (λ p. high * p) (sym (pow-suc 2 k)) in
    let lower = bit_or-halves m k high (low / 2) fits (omega (arith, pow-suc 2 k)) in
    let halved : high * 2 ^ suc k / 2 ≡ high * 2 ^ k = omega (arith, whole) in
    let step = ap (λ n. bit_or n (low / 2)) halved ∙ lower in
    omega (arith, bit_or_step (high * 2 ^ suc k) low, step, whole)

module _ (hw : Hardware) where
  open hw use {World, rdtsc}

  -- `rdtsc` gives the halves of a count of ticks, and takes 1 to `most` of them.
  pub record CountsStamps (count : World → ℕ) (most : ℕ) : Type 0 where
    pub low : (w : World) → (rdtsc w).0.0 ≡ count w % 2 ^ 32
    pub high : (w : World) → (rdtsc w).0.1 ≡ count w / 2 ^ 32 % 2 ^ 32
    pub advances : (w : World) → count w < count (rdtsc w).1
    pub slow : (w : World) → count (rdtsc w).1 ≤ count w + most

  pub read_tsc-wrap :
      (count : World → ℕ) (most : ℕ) (w : World)
      → CountsStamps count most
      → read_tsc hw w ≡ (wrap (count w), (rdtsc w).1)
  unfolding read_tsc
  read_tsc-wrap count most w law =
      let joined =
        bit_or-halves 32 32 (count w / 2 ^ 32 % 2 ^ 32) (count w % 2 ^ 32) (omega arith)
          (omega arith) in
      let high : wrap ((rdtsc w).0.1 * 2 ^ 32) ≡ count w / 2 ^ 32 % 2 ^ 32 * 2 ^ 32 =
        omega (arith, law.high w) in
      let value : bit_or (wrap ((rdtsc w).0.1 * 2 ^ 32)) (rdtsc w).0.0 ≡ wrap (count w) =
        ap (λ n. bit_or n (rdtsc w).0.0) high
        ∙ ap (bit_or (count w / 2 ^ 32 % 2 ^ 32 * 2 ^ 32)) (law.low w)
        ∙ joined
        ∙ omega arith in
      ap (λ n. (n, (rdtsc w).1)) value

  read_tsc-count :
      (count : World → ℕ) (most : ℕ) (w : World)
      → CountsStamps count most
      → count w < 2 ^ 64
      → read_tsc hw w ≡ (count w, (rdtsc w).1)
  read_tsc-count count most w law lt =
      let whole : wrap (count w) ≡ count w = omega (arith, lt) in
      read_tsc-wrap count most w law ∙ ap (λ n. (n, (rdtsc w).1)) whole

  -- The nanoseconds that are read at a count of ticks.
  abbrev pub stamp_time : Tsc → ℕ → ℕ
  stamp_time t c = wrap (c + (2 ^ 64 - t.offset)) / (t.ticks_per_second / 1000000000)

  tsc-IsPaced :
      (t : Tsc) (count : World → ℕ) (most limit : ℕ)
      → CountsStamps count most
      → t.ticks_per_second / 1000000000 ≢ 0
      → limit ≤ 2 ^ 64
      → IsPaced hw (tsc_read_nanoseconds hw t) count (stamp_time t) most limit
  unfolding tsc_read_nanoseconds
  tsc-IsPaced t count most limit law fast room = record {
    reads = λ w lt. (
      (rdtsc w).1,
      rw
          (
            tsc_read_nanoseconds,
            read_tsc-count count most w law (omega arith),
            ne→== (t.ticks_per_second / 1000000000) 0 fast,
          )
          refl,
      law.advances w,
      law.slow w,
    );
  }

-- Since the count is not below the offset, nothing wraps around.
since :
    (t : Tsc) (c : ℕ) → t.offset ≤ c → c < 2 ^ 64 → wrap (c + (2 ^ 64 - t.offset)) ≡ c - t.offset
since t c le lt = omega arith

-- After `d` ticks for each nanosecond, the quotient has grown by the nanoseconds.
quotient_grows : (begin nanos c d : ℕ) → d ≢ 0 → begin + nanos * d ≤ c → begin / d + nanos ≤ c / d
quotient_grows begin nanos c d nonzero le =
    let least = div-mul-le_self begin d in
    (le-div_iff_mul-le {k = d} {x = begin / d + nanos} {y = c} (omega arith)).1
      (omega (arith, least, le))

quotient_grew :
    (begin nanos c d : ℕ) → d ≢ 0 → begin / d + nanos ≤ c / d → begin + nanos * d < c + d
quotient_grew begin nanos c d nonzero le =
    let top = lt-div-mul-add {a = begin} {b = d} (omega arith) in
    let more = (le-div_iff_mul-le {k = d} {x = begin / d + nanos} {y = c} (omega arith)).0 le in
    omega (arith, top, more)

-- A time and what is added to it stay below 2^64 when the ticks do.
no_wrap :
    (begin nanos d : ℕ)
    → d ≢ 0
    → begin + nanos * d < 2 ^ 64
    → wrap (begin / d + nanos) ≡ begin / d + nanos
no_wrap begin nanos d nonzero lt =
    let grows = quotient_grows begin nanos (begin + nanos * d) d nonzero (omega arith) in
    let inside : begin / d + nanos < 2 ^ 64 =
      omega (arith, grows, div-le_self (begin + nanos * d) d, lt) in
    omega (arith, inside)

-- Rounded to whole nanoseconds, more than half of a frequency is left.
more_than_half :
    (nanos frequency ticks : ℕ)
    → frequency / 1000000000 ≢ 0
    → nanos * (frequency / 1000000000) ≤ ticks
    → nanos * frequency ≤ 2 * 1000000000 * ticks
more_than_half nanos frequency ticks fast le =
    let whole : frequency ≤ 2 * 1000000000 * (frequency / 1000000000) = omega arith in
    let wide : nanos * frequency ≤ nanos * (2 * 1000000000 * (frequency / 1000000000)) =
      mul-le-mul_left nanos whole in
    omega (arith, le, wide)

module _ (hw : Hardware) where
  open hw use {World, rdtsc}

  after_read :
      (t : Tsc) (fuel time nanos target : ℕ) (w w1 w2 : World)
      → tsc_read_nanoseconds hw t w ≡ some (time, w1)
      → wrap (time + nanos) ≡ target
      → wait_for hw fuel (tsc_read_nanoseconds hw t) target w1 ≡ some w2
      → tsc_sleep_nanoseconds hw fuel t nanos w ≡ some w2
  unfolding tsc_sleep_nanoseconds
  after_read t fuel time nanos target w w1 w2 e until waited =
      rw (tsc_sleep_nanoseconds, e, until) waited

  reached_by :
      (t : Tsc) (begin nanos c : ℕ)
      → t.ticks_per_second / 1000000000 ≢ 0
      → t.offset ≤ begin
      → begin + nanos * (t.ticks_per_second / 1000000000) ≤ c
      → c < 2 ^ 64
      → stamp_time hw t begin + nanos ≤ stamp_time hw t c
  reached_by t begin nanos c fast le ge lt =
      rw (since t begin le (omega arith), since t c (omega arith) lt)
        (quotient_grows (begin - t.offset) nanos (c - t.offset) (t.ticks_per_second / 1000000000)
          fast (omega (arith, ge, le)))

  slept :
      (t : Tsc) (begin nanos last end : ℕ)
      → t.ticks_per_second / 1000000000 ≢ 0
      → t.offset ≤ begin
      → begin ≤ last
      → last < end
      → last < 2 ^ 64
      → stamp_time hw t begin + nanos ≤ stamp_time hw t last
      → nanos * (t.ticks_per_second / 1000000000) ≤ end - begin + t.ticks_per_second / 1000000000
  slept t begin nanos last end fast le later before inside reached =
      let reached' =
        rw (since t begin le (omega arith), since t last (omega arith) inside) at reached in
      let grew =
        quotient_grew (begin - t.offset) nanos (last - t.offset) (t.ticks_per_second / 1000000000)
          fast reached' in
      omega (arith, grew, le, later, before)

  no_wrap_after :
      (t : Tsc) (begin nanos : ℕ)
      → t.ticks_per_second / 1000000000 ≢ 0
      → t.offset ≤ begin
      → begin + nanos * (t.ticks_per_second / 1000000000) < 2 ^ 64
      → wrap (stamp_time hw t begin + nanos) ≡ stamp_time hw t begin + nanos
  no_wrap_after t begin nanos fast le room = rw (since t begin le (omega arith)) (
      no_wrap (begin - t.offset) nanos (t.ticks_per_second / 1000000000) fast (omega (arith, room)))

  -- On a counter that advances with every read, is not below the offset and stays below 2 ^ 64 for the sleep, with
  -- a frequency of at least 1 GHz in `ticks_per_second`, a sleep ends: with fuel above its nanoseconds times the
  -- whole ticks in one, after at most these ticks and the most that two reads take. Up to the whole ticks of one
  -- nanosecond, it lasts at least half as long as asked.
  pub tsc_sleep_nanoseconds-half :
      (t : Tsc) (count : World → ℕ) (most nanos fuel : ℕ) (w : World)
      → CountsStamps hw count most
      → t.ticks_per_second / 1000000000 ≢ 0
      → t.offset ≤ count w
      → count w + nanos * (t.ticks_per_second / 1000000000) + most < 2 ^ 64
      → nanos * (t.ticks_per_second / 1000000000) < fuel
      → (w' : World) × (tsc_sleep_nanoseconds hw fuel t nanos w ≡ some w')
        × (nanos * t.ticks_per_second
            ≤ 2 * 1000000000 * (count w' - count w + t.ticks_per_second / 1000000000))
        × (count w' ≤ count w + nanos * (t.ticks_per_second / 1000000000) + 2 * most)
  tsc_sleep_nanoseconds-half t count most nanos fuel w law fast le room more =
      let d = t.ticks_per_second / 1000000000 in
      let stop = count w + nanos * d in
      let limit = stop + most + 1 in
      let paced = tsc-IsPaced hw t count most limit law fast (omega (arith, room)) in
      let (w1, e, on, slow) = paced.reads w (omega arith) in
      let (w2, e2, waited) =
        wait_for-HasWaited hw (tsc_read_nanoseconds hw t) count (stamp_time hw t) most limit fuel
          (stamp_time hw t (count w) + nanos) stop w1 paced
          (λ c ge lt. reached_by t (count w) nanos c fast le ge (omega (arith, lt, room)))
          (omega arith) (omega (arith, slow)) (omega (arith, on, more))
          (λ z. omega (arith, z, more)) in
      (
        w2,
        after_read t fuel (stamp_time hw t (count w)) nanos (stamp_time hw t (count w) + nanos) w w1
            w2 e (no_wrap_after t (count w) nanos fast le (omega (arith, room))) e2,
        more_than_half nanos t.ticks_per_second (count w2 - count w + d) fast (
            slept t (count w) nanos waited.last (count w2) fast le (omega (arith, on, waited.later))
              waited.before (omega (arith, waited.inside, room)) waited.reached),
        waited.soon,
      )
