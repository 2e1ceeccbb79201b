-- ===== src/Lock.antt =====
-- kernel/src/lock/spinlock.c: cores that take and give back one spinlock around data of type `D`,
-- interleaved one atomic access at a time. A core calls `spinlock_release` only where it has come out of
-- `spinlock_acquire`, and works on the data only in between. The message about a deadlock is counted.
pub mod Exclusion
mod Tests
use ga_os.Base.{ℕ, ◌+◌, ◌<◌, ◌≡◌, Bool, true, false, leb, ◌==◌, ◌&&◌, if◌then◌else◌}

-- `atomic_flag_test_and_set_explicit`: what the flag was, and the flag after it.
pub test_and_set : Bool → Bool × Bool
test_and_set flag = (flag, true)

-- `atomic_flag_clear_explicit`
pub clear : Bool → Bool
clear flag = false

abbrev pub report_after : ℕ
report_after = 100000000

-- Whether a round of the loop prints the message.
pub is_reported : ℕ → Bool
is_reported count = leb report_after (count + 1)

-- `count` after a round of the loop.
pub next_count : ℕ → ℕ
next_count count = if is_reported count then 0 else count + 1

-- Where a core stands: outside, in the loop of `spinlock_acquire`, or between the two calls.
pub data Place : Type 0 where
  outside : Place
  spinning : (count : ℕ) → Place
  holding : Place

-- A round of the loop of `spinlock_acquire`: where the core stands after it, the flag, and how many messages
-- were printed.
pub acquire_round : ℕ → Bool → Place × Bool × ℕ
acquire_round count flag =
    let r = test_and_set flag in
    (
      if r.0 then spinning (next_count count) else holding,
      r.1,
      if r.0 && is_reported count then 1 else 0,
    )

module _ (D : Type 0) where
  -- The flag, the cores and the data; `rounds` are the rounds of a core's present or last call of
  -- `spinlock_acquire`, and `messages` what it printed in them.
  pub record System : Type 0 where
    pub flag : Bool
    pub place : ℕ → Place
    pub guarded : D
    pub rounds : ℕ → ℕ
    pub messages : ℕ → ℕ

abbrev pub put_place : (ℕ → Place) → ℕ → Place → ℕ → Place
put_place f i p j = if j == i then p else f j

abbrev pub put_count : (ℕ → ℕ) → ℕ → ℕ → ℕ → ℕ
put_count f i n j = if j == i then n else f j

-- What core `i` can do next.
pub data Step {D : Type 0} (i : ℕ) (s : System D) : System D → Type 0 where
  enter :
      s.place i ≡ outside
      → Step i s (record s {
        place = put_place s.place i (spinning 0);
        rounds = put_count s.rounds i 0;
        messages = put_count s.messages i 0;
      })
  round :
      (count : ℕ)
      → s.place i ≡ spinning count
      → Step i s (record s {
        place = put_place s.place i (acquire_round count s.flag).0;
        flag = (acquire_round count s.flag).1;
        rounds = put_count s.rounds i (s.rounds i + 1);
        messages = put_count s.messages i (s.messages i + (acquire_round count s.flag).2);
      })
  work : (d : D) → s.place i ≡ holding → Step i s (record s { guarded = d })
  release :
      s.place i ≡ holding
      → Step i s (record s { place = put_place s.place i outside; flag = clear s.flag })

-- `spinlock_t` starts as zero, which is a clear flag.
abbrev pub start : {D : Type 0} → D → System D
start d = record {
  flag = false;
  place = λ i. outside;
  guarded = d;
  rounds = λ i. 0;
  messages = λ i. 0;
}

pub data Reach {D : Type 0} (s : System D) : System D → Type 0 where
  here : Reach s s
  next : {t u : System D} (i : ℕ) → Reach s t → Step i t u → Reach s u
