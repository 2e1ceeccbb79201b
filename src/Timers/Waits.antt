-- ===== src/Timers/Waits.antt =====
-- The loop that waits for a time, on a clock whose count goes on with every read.
use ga_os.Base.{
  ℕ, zero, suc, ◌+◌, ◌*◌, ◌≤◌, ◌<◌, ◌≡◌, ◌≢◌, refl, arith, inl, inr, Bool-cases, ltb, Option, some,
}
use ga_os.Timers.{Hardware, wait_for}

module _ (hw : Hardware) where
  open hw use {World}

  -- A read gives the value of the count at that time, and takes at least 1 and at most `most` of its ticks, as
  -- long as the count is below a limit.
  pub record IsPaced (read : World → Option (ℕ × World)) (count : World → ℕ) (value : ℕ → ℕ)
      (most limit : ℕ) : Type 0 where
    pub reads :
        (w : World)
        → count w < limit
        → (w' : World) × (read w ≡ some (value (count w), w'))
          × (count w < count w')
          × (count w' ≤ count w + most)

  -- The wait ended at a read that was late enough, not long after the count `stop`.
  pub record HasWaited (count : World → ℕ) (value : ℕ → ℕ) (most target stop : ℕ) (w w' : World)
      : Type 0 where
    pub last : ℕ
    pub later : count w ≤ last
    pub before : last < count w'
    pub inside : last ≤ stop + most
    pub reached : target ≤ value last
    pub soon : count w' ≤ stop + 2 * most

  pub wait_for-HasWaited :
      (read : World → Option (ℕ × World)) (count : World → ℕ) (value : ℕ → ℕ)
      (most limit fuel target stop : ℕ) (w : World)
      → IsPaced read count value most limit
      → ((c : ℕ) → stop ≤ c → c < limit → target ≤ value c)
      → stop + most < limit
      → count w ≤ stop + most
      → stop < count w + fuel
      → fuel ≢ 0
      → (w' : World) × (wait_for hw fuel read target w ≡ some w')
        × HasWaited count value most target stop w w'
  unfolding wait_for
  wait_for-HasWaited read count value most limit zero target stop w paced enough room at fuel
        nonzero =
      absurd (nonzero refl)
  wait_for-HasWaited read count value most limit (suc fuel) target stop w paced enough room at more
        nonzero =
      let (w1, e, on, slow) = paced.reads w (omega arith) in
      elim (Bool-cases (ltb (value (count w)) target)) [
        | inr late ↦ (
          w1,
          rw (wait_for, e, late) refl,
          record {
            last = count w;
            later = omega arith;
            before = on;
            inside = at;
            reached = ground (arith, late);
            soon = omega (arith, slow, at);
          },
        )
        | inl early ↦
            let below : count w < stop = ground (arith, early, enough (count w)) in
            let (w2, e2, waited) =
              wait_for-HasWaited read count value most limit fuel target stop w1 paced enough room
                (omega (arith, slow, below)) (omega (arith, more, on))
                (λ z. omega (arith, z, more, below)) in
            (
              w2,
              rw (wait_for, e, early) e2,
              record {
                last = waited.last;
                later = omega (arith, on, waited.later);
                before = waited.before;
                inside = waited.inside;
                reached = waited.reached;
                soon = waited.soon;
              },
            )
      ]
