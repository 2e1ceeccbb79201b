-- ===== src/Lock/Tests.antt =====
-- Two cores: core 0 holds the lock and core 1 spins.
use ga_os.Base.{ℕ, ◌+◌, ◌*◌, ◌<◌, ◌≡◌, refl, true}
use ga_os.Lock.{
  holding, spinning, acquire_round, test_and_set, System, enter, round, start, Reach, here, next,
  put_place, put_count,
}
use ga_os.Lock.Exclusion.{mutual_exclusion}

abbrev contended : System ℕ
contended = record {
  flag = true;
  place =
      put_place (put_place (put_place (start {D = ℕ} 7).place 0 (spinning 0)) 0 holding) 1
        (spinning 0);
  guarded = 7;
  rounds = put_count (put_count (put_count (λ i. 0) 0 0) 0 1) 1 0;
  messages = put_count (put_count (put_count (λ i. 0) 0 0) 0 0) 1 0;
}

Reach-contended : Reach (start 7) contended
unfolding acquire_round test_and_set
Reach-contended = next 1 (next 0 (next 0 here (enter refl)) (round 0 refl)) (enter refl)

mutual_exclusion_example :
    ((i j : ℕ) → contended.place i ≡ holding → contended.place j ≡ holding → i ≡ j)
    × ((i : ℕ) → contended.place i ≡ holding → true ≡ true)
    × ((i count : ℕ)
        → contended.place i ≡ spinning count
        → (contended.rounds i ≡ contended.messages i * 100000000 + count) × (count < 100000000))
mutual_exclusion_example = mutual_exclusion 7 Reach-contended
