-- ===== src/Scheduler/Links.antt =====
-- Chains of tasks along `next`.
use ga_os.Base.{ℕ, ◌≡◌, refl, ◌≢◌, List, [], ◌∷◌, ◌++◌, arith}
use ga_os.Scheduler.{Task, Heap, put, set_next}

abbrev pub NotIn : ℕ → List ℕ → Type 0
NotIn a [] = Unit {0}
NotIn a (x ∷ xs) = (a ≢ x) × NotIn a xs

abbrev pub Distinct : List ℕ → Type 0
Distinct [] = Unit {0}
Distinct (x ∷ xs) = NotIn x xs × Distinct xs

-- From `p` the `next` pointers lead through `rest` to `last`.
abbrev pub Links : Heap → ℕ → List ℕ → ℕ → Type 0
Links h p [] last = p ≡ last
Links h p (x ∷ xs) last = ((h p).next ≡ x) × Links h x xs last

pub last-ne :
    (h : Heap) (a p : ℕ) (rest : List ℕ) (last : ℕ)
    → Links h p rest last
    → NotIn a (p ∷ rest)
    → a ≢ last
last-ne h a p [] last l out = λ e. out.0 (omega arith)
last-ne h a p (x ∷ xs) last l out = last-ne h a x xs last l.1 out.1

-- A change outside the chain keeps it.
pub Links-put :
    (h : Heap) (a : ℕ) (t : Task) (p : ℕ) (rest : List ℕ) (last : ℕ)
    → Links h p rest last
    → NotIn a (p ∷ rest)
    → Links (put h a t) p rest last
Links-put h a t p [] last l out = l
Links-put h a t p (x ∷ xs) last l out =
    (ground (arith, l.0, out.0), Links-put h a t x xs last l.1 out.1)

-- A new end.
pub Links-append :
    (h : Heap) (p : ℕ) (rest : List ℕ) (last t : ℕ)
    → Links h p rest last
    → Distinct (p ∷ rest)
    → Links (set_next h last t) p (rest ++ t ∷ []) t
Links-append h p [] last t l d = (ground (arith, l), refl)
Links-append h p (x ∷ xs) last t l d =
    (ground (arith, l.0, last-ne h p x xs last l.1 d.0), Links-append h x xs last t l.1 d.1)

-- The link of the end is no link of the chain.
pub Links-set_last :
    (h : Heap) (p : ℕ) (rest : List ℕ) (last v : ℕ)
    → Links h p rest last
    → Distinct (p ∷ rest)
    → Links (set_next h last v) p rest last
Links-set_last h p [] last v l d = l
Links-set_last h p (x ∷ xs) last v l d =
    (ground (arith, l.0, last-ne h p x xs last l.1 d.0), Links-set_last h x xs last v l.1 d.1)

pub NotIn-append : (a : ℕ) (xs : List ℕ) (t : ℕ) → NotIn a xs → a ≢ t → NotIn a (xs ++ t ∷ [])
NotIn-append a [] t h ne = (ne, tt)
NotIn-append a (x ∷ xs) t h ne = (h.0, NotIn-append a xs t h.1 ne)

pub Distinct-append : (xs : List ℕ) (t : ℕ) → Distinct xs → NotIn t xs → Distinct (xs ++ t ∷ [])
Distinct-append [] t d out = (tt, tt)
Distinct-append (x ∷ xs) t d out =
    (NotIn-append x xs t d.0 (λ e. out.0 (omega arith)), Distinct-append xs t d.1 out.1)
