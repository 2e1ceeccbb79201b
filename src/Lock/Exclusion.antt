-- ===== src/Lock/Exclusion.antt =====
-- Which cores hold the lock of kernel/src/lock/spinlock.c in a reachable state.
use ga_os.Base.{
  ℕ, ◌<◌, ◌≡◌, ◌≢◌, ◌⊎◌, ◌+◌, ◌*◌, if◌then◌else◌, refl, true, Bool-cases, inl, inr, arith,
}
use ga_os.Lock.{
  test_and_set, clear, is_reported, next_count, report_after, spinning, holding, acquire_round,
  System, Step, enter, round, work, release, start, Reach, here, next,
}

-- The flag is set exactly while a core holds the lock, at most one core does, and a count is below the number
-- of rounds after which it is reported: it is what the messages leave of a core's rounds.
record IsExclusive {D : Type 0} (s : System D) : Type 0 where
  set : (i : ℕ) → s.place i ≡ holding → s.flag ≡ true
  held : s.flag ≡ true → (i : ℕ) × (s.place i ≡ holding)
  one : (i j : ℕ) → s.place i ≡ holding → s.place j ≡ holding → i ≡ j
  counts : (i count : ℕ) → s.place i ≡ spinning count → count < report_after
  messages :
      (i count : ℕ) → s.place i ≡ spinning count → s.rounds i ≡ s.messages i * report_after + count

start-IsExclusive : {D : Type 0} (d : D) → IsExclusive (start d)
start-IsExclusive d = record {
  set = λ i h. absurd (cc);
  held = λ h. absurd (cc);
  one = λ i j h k. absurd (cc);
  counts = λ i count h. absurd (cc);
  messages = λ i count h. absurd (cc);
}

next_count-lt : (count : ℕ) → next_count count < report_after
unfolding next_count is_reported
next_count-lt count = ground arith

-- A round more is a count more, or a message more and the count from the start.
next_count-messages :
    (count rounds messages : ℕ)
    → count < report_after
    → rounds ≡ messages * report_after + count
    → rounds + 1
      ≡ (messages + (if is_reported count then 1 else 0)) * report_after + next_count count
unfolding next_count is_reported
next_count-messages count rounds messages below e = ground (arith, below, e)

Step-IsExclusive :
    {D : Type 0} {i : ℕ} {s t : System D} → Step i s t → IsExclusive s → IsExclusive t
unfolding acquire_round test_and_set clear
Step-IsExclusive (enter at) e = record {
  set = λ k h. ground (arith, e.set k);
  held = λ h. (let (k, at_k) = e.held h in (k, ground arith));
  one = λ k l h h'. ground (arith, e.one k l);
  counts = λ k count h. ground (arith, e.counts k count);
  messages = λ k count h. ground (arith, e.messages k count);
}
Step-IsExclusive {i} {s} (round count at) e = record {
  set = λ k h. refl;
  held = λ h. elim (Bool-cases s.flag) [
    | inl busy ↦ (let (k, at_k) = e.held busy in (k, ground arith))
    | inr free ↦ (i, ground arith)
  ];
  one = λ k l h h'. ground (arith, e.one k l, e.set k, e.set l);
  counts = λ k c h. ground (arith, e.counts k c, next_count-lt count);
  messages = λ k c h. ground (
    arith,
    e.messages k c,
    next_count-messages count (s.rounds i) (s.messages i) (e.counts i count at)
        (e.messages i count at),
  );
}
Step-IsExclusive (work d at) e = record {
  set = e.set;
  held = e.held;
  one = e.one;
  counts = e.counts;
  messages = e.messages;
}
Step-IsExclusive {i} (release at) e = record {
  set = λ k h. ground (arith, e.one k i);
  held = λ h. absurd (cc);
  one = λ k l h h'. ground (arith, e.one k l);
  counts = λ k c h. ground (arith, e.counts k c);
  messages = λ k c h. ground (arith, e.messages k c);
}

Reach-IsExclusive : {D : Type 0} {s t : System D} → Reach s t → IsExclusive s → IsExclusive t
Reach-IsExclusive here e = e
Reach-IsExclusive (next i r st) e = Step-IsExclusive st (Reach-IsExclusive r e)

-- However the cores are interleaved, two never hold the lock together, the flag is set while one does, and a
-- core that spins has printed a message for every 100000000 rounds of the loop: its rounds are those of its
-- messages and fewer more.
pub mutual_exclusion :
    {D : Type 0} (d : D) {s : System D}
    → Reach (start d) s
    → ((i j : ℕ) → s.place i ≡ holding → s.place j ≡ holding → i ≡ j)
      × ((i : ℕ) → s.place i ≡ holding → s.flag ≡ true)
      × ((i count : ℕ)
          → s.place i ≡ spinning count
          → (s.rounds i ≡ s.messages i * 100000000 + count) × (count < 100000000))
mutual_exclusion d r =
    let e = Reach-IsExclusive r (start-IsExclusive d) in
    (e.one, e.set, λ i count at. (e.messages i count at, e.counts i count at))

-- While a core holds the lock, a step of any other core changes neither the data nor who holds it: what
-- stands between the two calls is one step for the other cores.
pub Step-guarded :
    {D : Type 0} (d : D) (i j : ℕ) {s t : System D}
    → Reach (start d) s
    → s.place j ≡ holding
    → i ≢ j
    → Step i s t
    → (t.guarded ≡ s.guarded) × (t.place j ≡ holding)
unfolding acquire_round test_and_set
Step-guarded d i j r h ne (enter at) = (refl, ground arith)
Step-guarded d i j r h ne (round count at) = (refl, ground arith)
Step-guarded d i j r h ne (work d' at) =
    let e = Reach-IsExclusive r (start-IsExclusive d) in absurd (ne (e.one i j at h))
Step-guarded d i j r h ne (release at) =
    let e = Reach-IsExclusive r (start-IsExclusive d) in absurd (ne (e.one i j at h))

-- A core that spins never waits for a lock that nobody holds: some core holds it, or the next round of
-- the loop takes it.
pub no_lost_lock :
    {D : Type 0} (d : D) (i count : ℕ) {s : System D}
    → Reach (start d) s
    → s.place i ≡ spinning count
    → ((j : ℕ) × (s.place j ≡ holding)) ⊎ ((acquire_round count s.flag).0 ≡ holding)
unfolding acquire_round test_and_set
no_lost_lock d i count {s} r at =
    let e = Reach-IsExclusive r (start-IsExclusive d) in
    elim (Bool-cases s.flag) [ inl busy ↦ inl (e.held busy) | inr free ↦ inr (ground arith) ]
