-- ===== src/Scheduler/Queue.antt =====
-- A run queue of round_robin.c and the list of its tasks.
use ga_os.Base.{
  ℕ, ◌≡◌, refl, ◌≢◌, ◌⊎◌, inl, inr, List, [], ◌∷◌, ◌++◌, arith, ◌==◌, length, length-append, some,
  ltb, ap, true, Bool-cases, ==→eq, ◌∙◌,
}
use ga_os.Scheduler.{Heap, put, set_next, TaskQueue, pop_from_queue, push_to_queue}
use ga_os.Scheduler.Links.{
  NotIn, Distinct, Links, last-ne, Links-put, Links-append, Links-set_last, NotIn-append,
  Distinct-append,
}

-- The chain of a queue that is not empty. The end points nowhere before the first rotation, and
-- back to the head after one; a task that was just pushed points nowhere.
pub record IsChain (h : Heap) (q : TaskQueue) (p : ℕ) (rest : List ℕ) : Type 0 where
  pub head : q.head ≡ p
  pub links : Links h p rest q.last
  pub ends : ((h q.last).next ≡ 0) ⊎ ((h q.last).next ≡ p)
  pub single : rest ≡ [] → q.current ≡ p

abbrev pub Shape : Heap → TaskQueue → List ℕ → Type 0
Shape h q [] = q.head ≡ 0
Shape h q (p ∷ rest) = IsChain h q p rest

-- The queue `q` on the heap `h` holds the tasks `xs`, the next one first.
pub record IsQueue (h : Heap) (q : TaskQueue) (xs : List ℕ) : Type 0 where
  pub count : q.count ≡ length xs
  pub distinct : Distinct xs
  pub nonnull : NotIn 0 xs
  pub shape : Shape h q xs

-- No task changed, but for its link.
abbrev pub SameTasks : Heap → Heap → Type 0
SameTasks h h' = (a : ℕ) → record (h' a) { next = 0 } ≡ record (h a) { next = 0 }

-- `p` was taken from the front of `p ∷ rest` and stands at the back.
pub record IsPop (h : Heap) (p : ℕ) (rest : List ℕ) (h' : Heap) (q' : TaskQueue) : Type 0 where
  pub rotated : IsQueue h' q' (rest ++ p ∷ [])
  pub current : q'.current ≡ p
  pub same : SameTasks h h'

set_next-SameTasks : (h : Heap) (p v : ℕ) → SameTasks h (set_next h p v)
set_next-SameTasks h p v a = elim (Bool-cases (a == p)) [
  | inl here ↦ rw (here, ==→eq a p here)
  | inr away ↦ rw away
]

pop_many :
    (h : Heap) (q : TaskQueue) (p x : ℕ) (xs : List ℕ)
    → IsQueue h q (p ∷ x ∷ xs)
    → pop_from_queue h q
      ≡ some (p, set_next (set_next h q.last p) p x, record q { head = x; last = p; current = p })
unfolding pop_from_queue
pop_many h q p x xs v = ground (arith, v.count, v.nonnull, v.shape.head, v.shape.links)

pop_one :
    (h : Heap) (q : TaskQueue) (p : ℕ) → IsQueue h q (p ∷ []) → pop_from_queue h q ≡ some (p, h, q)
unfolding pop_from_queue
pop_one h q p v = ground (arith, v.count, v.nonnull, v.shape.head)

rotate-IsQueue :
    (h : Heap) (q : TaskQueue) (p x : ℕ) (xs : List ℕ)
    → IsQueue h q (p ∷ x ∷ xs)
    → IsQueue
        (set_next (set_next h q.last p) p x)
        (record q { head = x; last = p; current = p })
        (x ∷ xs ++ p ∷ [])
rotate-IsQueue h q p x xs v =
    let d : Distinct (x ∷ xs ++ p ∷ []) = Distinct-append (x ∷ xs) p v.distinct.1 v.distinct.0 in
    record {
      count = omega (arith, v.count, length-append xs (p ∷ []));
      distinct = d;
      nonnull = NotIn-append 0 (x ∷ xs) p v.nonnull.1 v.nonnull.0;
      shape = record {
        head = refl;
        links =
            Links-set_last (set_next h q.last p) x (xs ++ p ∷ []) p x
              (Links-append h x xs q.last p v.shape.links.1 v.distinct.1) d;
        ends = inr (ground arith);
        single = λ e. absurd (omega (arith, ap length e, length-append xs (p ∷ [])));
      };
    }

-- Popping from a queue that holds `p` first returns `p`, moves it to the back, and makes it current.
pub pop_from_queue-IsPop :
    (h : Heap) (q : TaskQueue) (p : ℕ) (rest : List ℕ)
    → IsQueue h q (p ∷ rest)
    → (h' : Heap) × (q' : TaskQueue) × (pop_from_queue h q ≡ some (p, h', q'))
      × IsPop h p rest h' q'
pop_from_queue-IsPop h q p [] v =
    (h, q, pop_one h q p v, record { rotated = v; current = v.shape.single refl; same = λ a. refl })
pop_from_queue-IsPop h q p (x ∷ xs) v = (
  set_next (set_next h q.last p) p x,
  record q { head = x; last = p; current = p },
  pop_many h q p x xs v,
  record {
    rotated = rotate-IsQueue h q p x xs v;
    current = refl;
    same = λ a. set_next-SameTasks (set_next h q.last p) p x a ∙ set_next-SameTasks h q.last p a;
  },
)

-- Pushing a new task, whose own link is null, puts it at the back.
pub push_to_queue-IsQueue :
    (self : ℕ) (h : Heap) (q : TaskQueue) (xs : List ℕ) (t : ℕ)
    → IsQueue h q xs
    → NotIn t xs
    → 0 ≢ t
    → (h t).next ≡ 0
    → let (h', q') = push_to_queue self h q t in IsQueue h' q' (xs ++ t ∷ [])
unfolding push_to_queue
push_to_queue-IsQueue self h q [] t v out ne fresh = rw (v.count) (record {
  count = omega (arith, v.count);
  distinct = (tt, tt);
  nonnull = (ne, tt);
  shape = record { head = refl; links = refl; ends = inl (ground arith); single = λ e. refl };
})
push_to_queue-IsQueue self h q (p ∷ rest) t v out ne fresh =
    let owned : Heap = put h t (record (h t) { parent_queue = self }) in
    let kept : Links owned p rest q.last =
      Links-put h t (record (h t) { parent_queue = self }) p rest q.last v.shape.links out in
    let more : ltb 0 q.count ≡ true = ground (arith, v.count) in
    rw more (record {
      count = omega (arith, v.count, length-append rest (t ∷ []));
      distinct = Distinct-append (p ∷ rest) t v.distinct out;
      nonnull = NotIn-append 0 (p ∷ rest) t v.nonnull ne;
      shape = record {
        head = v.shape.head;
        links = Links-append owned p rest q.last t kept v.distinct;
        ends = inl (ground (arith, last-ne h t p rest q.last v.shape.links out, fresh));
        single = λ e. absurd (omega (arith, ap length e, length-append rest (t ∷ [])));
      };
    })
