-- ===== src/Clock/Finest.antt =====
-- The timers of kernel/src/clock/clock.c after any time sources were registered.
use ga_os.Base.{
  ℕ, ◌≤◌, ◌≡◌, ap, sym, ◌⊎◌, refl, ◌∙◌, inl, inr, arith, true, Bool-cases, List, [], ◌∷◌, get_elem?,
  some, suc, ◌&&◌, ltb,
}
use ga_os.Clock.{TimeSource, Clocks, register_time_source}

-- The sources are registered one after the other.
pub register_all : List TimeSource → Clocks → Clocks
register_all [] s = s
register_all (source ∷ sources) s = register_all sources (register_time_source source s)

-- Every source that can keep the time is at most as fine as the system timer, and every one that can interrupt
-- once as the preemption timer.
abbrev pub AllCoarser : List TimeSource → Clocks → Type 0
AllCoarser [] s = Unit {0}
AllCoarser (x ∷ xs) s =
    ((x.time_keeping_capable ≡ true → x.ticks_per_second ≤ s.system_timer.ticks_per_second)
      × (x.one_shot_capable ≡ true → x.ticks_per_second ≤ s.preemption_timer.ticks_per_second))
    × AllCoarser xs s

-- The timers are those of before, or sources that were registered and have the ability.
pub record IsChosen (sources : List TimeSource) (s s' : Clocks) : Type 0 where
  pub system :
      (s'.system_timer ≡ s.system_timer)
      ⊎ ((i : ℕ) × (get_elem? sources i ≡ some s'.system_timer)
          × (s'.system_timer.time_keeping_capable ≡ true))
  pub preemption :
      (s'.preemption_timer ≡ s.preemption_timer)
      ⊎ ((i : ℕ) × (get_elem? sources i ≡ some s'.preemption_timer)
          × (s'.preemption_timer.one_shot_capable ≡ true))

-- Both resolutions only grow.
register_time_source-le :
    (source : TimeSource) (s : Clocks)
    → (s.system_timer.ticks_per_second
        ≤ (register_time_source source s).system_timer.ticks_per_second)
      × (s.preemption_timer.ticks_per_second
          ≤ (register_time_source source s).preemption_timer.ticks_per_second)
unfolding register_time_source
register_time_source-le source s = (ground arith, ground arith)

register_time_source-coarser :
    (source : TimeSource) (s : Clocks)
    → (source.time_keeping_capable ≡ true
        → source.ticks_per_second ≤ (register_time_source source s).system_timer.ticks_per_second)
      × (source.one_shot_capable ≡ true
          → source.ticks_per_second
            ≤ (register_time_source source s).preemption_timer.ticks_per_second)
unfolding register_time_source
register_time_source-coarser source s = ((λ able. ground arith), (λ able. ground arith))

-- What a registration leaves in a timer: the old one, or the source if it has the ability.
register_time_source_lem :
    (source : TimeSource) (s : Clocks)
    → (((register_time_source source s).system_timer ≡ s.system_timer)
        ⊎ (((register_time_source source s).system_timer ≡ source)
            × (source.time_keeping_capable ≡ true)))
      × (((register_time_source source s).preemption_timer ≡ s.preemption_timer)
          ⊎ (((register_time_source source s).preemption_timer ≡ source)
              × (source.one_shot_capable ≡ true)))
unfolding register_time_source
register_time_source_lem source s =
    let once =
      source.one_shot_capable && ltb s.preemption_timer.ticks_per_second source.ticks_per_second in
    let keeps =
      source.time_keeping_capable && ltb s.system_timer.ticks_per_second source.ticks_per_second in
    elim (Bool-cases once) [
      | inl a ↦ elim (Bool-cases keeps) [
        | inl b ↦ (inr (rw (a, b) refl, ground arith), inr (rw (a, b) refl, ground arith))
        | inr b ↦ (inl (rw (a, b) refl), inr (rw (a, b) refl, ground arith))
      ]
      | inr a ↦ elim (Bool-cases keeps) [
        | inl b ↦ (inr (rw (a, b) refl, ground arith), inl (rw (a, b) refl))
        | inr b ↦ (inl (rw (a, b) refl), inl (rw (a, b) refl))
      ]
    ]

register_all-le :
    (sources : List TimeSource) (s : Clocks)
    → (s.system_timer.ticks_per_second ≤ (register_all sources s).system_timer.ticks_per_second)
      × (s.preemption_timer.ticks_per_second
          ≤ (register_all sources s).preemption_timer.ticks_per_second)
unfolding register_all
register_all-le [] s = (omega arith, omega arith)
register_all-le (x ∷ xs) s =
    let (a, b) = register_time_source-le x s in
    let (c, d) = register_all-le xs (register_time_source x s) in
    (omega (arith, a, c), omega (arith, b, d))

register_all-AllCoarser :
    (sources : List TimeSource) (s : Clocks) → AllCoarser sources (register_all sources s)
unfolding register_all
register_all-AllCoarser [] s = tt
register_all-AllCoarser (x ∷ xs) s =
    let (a, b) = register_time_source-coarser x s in
    let (c, d) = register_all-le xs (register_time_source x s) in
    (
      (λ able. omega (arith, a able, c), λ able. omega (arith, b able, d)),
      register_all-AllCoarser xs (register_time_source x s),
    )

register_all-IsChosen :
    (sources : List TimeSource) (s : Clocks) → IsChosen sources s (register_all sources s)
unfolding register_all
register_all-IsChosen [] s = record { system = inl refl; preemption = inl refl }
register_all-IsChosen (x ∷ xs) s =
    let later = register_all-IsChosen xs (register_time_source x s) in
    let (system, preemption) = register_time_source_lem x s in
    record {
      system = elim (later.system) [
        | inr (i, e, able) ↦ inr (suc i, e, able)
        | inl same ↦ elim system [
          | inl kept ↦ inl (same ∙ kept)
          | inr (new, able) ↦
              inr (
                0,
                ap some (sym (same ∙ new)),
                ap (λ t. t.time_keeping_capable) (same ∙ new) ∙ able,
              )
        ]
      ];
      preemption = elim (later.preemption) [
        | inr (i, e, able) ↦ inr (suc i, e, able)
        | inl same ↦ elim preemption [
          | inl kept ↦ inl (same ∙ kept)
          | inr (new, able) ↦
              inr (0, ap some (sym (same ∙ new)), ap (λ t. t.one_shot_capable) (same ∙ new) ∙ able)
        ]
      ];
    }

-- Whatever the order of the registrations, the system timer is at least as fine as every source that can keep
-- the time, and the preemption timer as every source that can interrupt once; each is such a source that was
-- registered, or the timer of before.
pub register_all-finest :
    (sources : List TimeSource) (s : Clocks)
    → AllCoarser sources (register_all sources s) × IsChosen sources s (register_all sources s)
register_all-finest sources s = (register_all-AllCoarser sources s, register_all-IsChosen sources s)
