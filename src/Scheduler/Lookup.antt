-- ===== src/Scheduler/Lookup.antt =====
-- `get_pid` and the search for a core in round_robin.c.
use ga_os.Base.{
  ℕ, zero, suc, ◌+◌, ◌-◌, ◌≤◌, ◌<◌, ◌≡◌, refl, List, [], ◌∷◌, arith, length, some, none, Option,
  ◌==◌, if◌then◌else◌, Bool-cases, inl, inr, ltb, ◌⊎◌, get_elem?, ◌^◌,
}
use ga_os.Scheduler.{Heap, Context, find_pid, find_in_contexts, get_pid, least_busy}
use ga_os.Scheduler.Links.{NotIn, Links}
use ga_os.Scheduler.Queue.{IsQueue}

-- The first task of the list with the identifier.
abbrev pub first_with : Heap → ℕ → List ℕ → Option ℕ
first_with h pid [] = none
first_with h pid (x ∷ xs) = if (h x).id == pid then some x else first_with h pid xs

find_pid-first_with :
    (fuel : ℕ) (h : Heap) (head pid p : ℕ) (rest : List ℕ) (last : ℕ)
    → Links h p rest last
    → ((h last).next ≡ 0) ⊎ ((h last).next ≡ head)
    → NotIn 0 rest
    → NotIn head rest
    → length rest < fuel
    → find_pid fuel h head pid p ≡ first_with h pid (p ∷ rest)
unfolding find_pid
find_pid-first_with zero h head pid p rest last l ends null start lt = absurd (omega arith)
find_pid-first_with (suc fuel) h head pid p [] last l ends null start lt =
    let e : (h p).next ≡ (h last).next = rw l in ground arith
find_pid-first_with (suc fuel) h head pid p (x ∷ xs) last l ends null start lt =
    let ih = find_pid-first_with fuel h head pid x xs last l.1 ends null.1 start.1 (omega arith) in
    let next : (h p).next ≡ x = l.0 in rw next (ground (arith, ih, null.0, start.0))

-- The tasks of all queues, in the order in which they are searched.
abbrev pub AllQueues : Heap → List Context → List (ℕ × List ℕ) → Type 0
AllQueues h [] [] = Unit {0}
AllQueues h [] (x ∷ xs) = ⊥
AllQueues h (c ∷ cs) [] = ⊥
AllQueues h (c ∷ cs) ((p, rest) ∷ xss) = IsQueue h c.running (p ∷ rest) × AllQueues h cs xss

abbrev pub first_in_all : Heap → ℕ → List (ℕ × List ℕ) → Option ℕ
first_in_all h pid [] = none
first_in_all h pid ((p, rest) ∷ xss) =
    let others = first_in_all h pid xss in
    elim (first_with h pid (p ∷ rest)) [ some t ↦ some t | none ↦ others ]

find_in_contexts-first :
    (h : Heap) (pid : ℕ) (cs : List Context) (xss : List (ℕ × List ℕ))
    → AllQueues h cs xss
    → find_in_contexts h pid cs ≡ first_in_all h pid xss
unfolding find_in_contexts
find_in_contexts-first h pid [] [] v = refl
find_in_contexts-first h pid [] (x ∷ xss) v = elim v [ ]
find_in_contexts-first h pid (c ∷ cs) [] v = elim v [ ]
find_in_contexts-first h pid (c ∷ cs) ((p, rest) ∷ xss) v =
    let found =
      find_pid-first_with c.running.count h p pid p rest c.running.last v.0.shape.links
        v.0.shape.ends v.0.nonnull.1 v.0.distinct.0 (omega (arith, v.0.count)) in
    ground (arith, v.0.shape.head, found, find_in_contexts-first h pid cs xss v.1)

-- With every queue well formed and not empty, looking up a process identifier other than 0 finds
-- the first task that has it, in the queues from the newest core on and from each queue's head, or
-- nothing if no task has it; identifier 0 finds nothing.
pub get_pid-first :
    (h : Heap) (pid : ℕ) (cs : List Context) (xss : List (ℕ × List ℕ))
    → AllQueues h cs xss
    → get_pid h cs pid ≡ (if pid == 0 then none else first_in_all h pid xss)
unfolding get_pid
get_pid-first h pid cs xss v = rw (find_in_contexts-first h pid cs xss v)

abbrev pub AllAtLeast : ℕ → List Context → Type 0
AllAtLeast n [] = Unit {0}
AllAtLeast n (c ∷ cs) = (n ≤ c.running.count) × AllAtLeast n cs

AllAtLeast-mono : (m n : ℕ) (cs : List Context) → m ≤ n → AllAtLeast n cs → AllAtLeast m cs
AllAtLeast-mono m n [] le all = tt
AllAtLeast-mono m n (c ∷ cs) le all = (omega arith, AllAtLeast-mono m n cs le all.1)

-- The search from position `i` keeps `free`, or comes to a shorter queue at position `i + j`.
data IsLeast (cs : List Context) (i min free r : ℕ) : Type 0 where
  kept : r ≡ free → AllAtLeast min cs → IsLeast cs i min free r
  moved :
      (j : ℕ) (c : Context)
      → r ≡ i + j
      → get_elem? cs j ≡ some c
      → c.running.count < min
      → AllAtLeast c.running.count cs
      → IsLeast cs i min free r

IsLeast-cons :
    (c : Context) (cs : List Context) (i min free r : ℕ)
    → min ≤ c.running.count
    → IsLeast cs (i + 1) min free r
    → IsLeast (c ∷ cs) i min free r
IsLeast-cons c cs i min free r le (kept e all) = kept e (le, all)
IsLeast-cons c cs i min free r le (moved j d e at lt all) =
    moved (suc j) d (omega arith) at lt (omega arith, all)

IsLeast-take :
    (c : Context) (cs : List Context) (i min free r : ℕ)
    → c.running.count < min
    → IsLeast cs (i + 1) c.running.count i r
    → IsLeast (c ∷ cs) i min free r
IsLeast-take c cs i min free r lt (kept e all) = moved 0 c (omega arith) refl lt (omega arith, all)
IsLeast-take c cs i min free r lt (moved j d e at lt' all) =
    moved (suc j) d (omega arith) at (omega arith) (omega arith, all)

least_busy-IsLeast :
    (cs : List Context) (i min free : ℕ) → IsLeast cs i min free (least_busy cs i min free)
unfolding least_busy
least_busy-IsLeast [] i min free = kept refl tt
least_busy-IsLeast (c ∷ cs) i min free = elim (Bool-cases (ltb c.running.count min)) [
  | inl less ↦ rw less (
      IsLeast-take c cs i min free _ (ground arith)
        (least_busy-IsLeast cs (i + 1) c.running.count i))
  | inr no_less ↦
      rw no_less
        (IsLeast-cons c cs i min free _ (ground arith) (least_busy-IsLeast cs (i + 1) min free))
]

-- Of one core or more, whose queues are shorter than 2 ^ 64 - 1, a new task goes to one with the
-- shortest queue.
pub least_busy-least :
    (c : Context) (cs : List Context) (free : ℕ)
    → c.running.count < 2 ^ 64 - 1
    → (best : Context) × (get_elem? (c ∷ cs) (least_busy (c ∷ cs) 0 (2 ^ 64 - 1) free) ≡ some best)
      × AllAtLeast best.running.count (c ∷ cs)
least_busy-least c cs free small =
    chosen (least_busy (c ∷ cs) 0 (2 ^ 64 - 1) free)
      (least_busy-IsLeast (c ∷ cs) 0 (2 ^ 64 - 1) free)
  where
    chosen :
        (r : ℕ)
        → IsLeast (c ∷ cs) 0 (2 ^ 64 - 1) free r
        → (best : Context) × (get_elem? (c ∷ cs) r ≡ some best)
          × AllAtLeast best.running.count (c ∷ cs)
    chosen r (kept e all) = absurd (omega arith)
    chosen r (moved j d e at lt all) = let here : r ≡ j = omega arith in (d, rw here at, all)
