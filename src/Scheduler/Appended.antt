-- ===== src/Scheduler/Appended.antt =====
-- Queues with a task at the end of one: which tasks they hold, and which one a search finds.
use ga_os.Base.{
  ℕ, zero, suc, ◌<◌, ◌≡◌, ◌≢◌, refl, arith, List, [], ◌∷◌, ◌++◌, length, some, none, sym,
}
use ga_os.Scheduler.{Heap}
use ga_os.Scheduler.Lookup.{first_with, first_in_all}
use ga_os.Scheduler.Cores.{All, EachTask, Separate, append_at}

pub All-append : (P : ℕ → Type 0) (xs : List ℕ) (t : ℕ) → All P xs → P t → All P (xs ++ t ∷ [])
All-append P [] t all h = (h, tt)
All-append P (x ∷ xs) t all h = (all.0, All-append P xs t all.1 h)

pub EachTask-append_at :
    (P : ℕ → Type 0) (n t : ℕ) (xss : List (ℕ × List ℕ))
    → EachTask P xss
    → P t
    → EachTask P (append_at n t xss)
EachTask-append_at P n t [] all h = tt
EachTask-append_at P zero t ((p, rest) ∷ xss) all h = (All-append P (p ∷ rest) t all.0 h, all.1)
EachTask-append_at P (suc n) t ((p, rest) ∷ xss) all h =
    (all.0, EachTask-append_at P n t xss all.1 h)

pub Separate-append_at :
    (n t : ℕ) (xss : List (ℕ × List ℕ))
    → Separate xss
    → EachTask (λ a. t ≢ a) xss
    → Separate (append_at n t xss)
Separate-append_at n t [] apart out = tt
Separate-append_at zero t ((p, rest) ∷ xss) apart out =
    (All-append (λ a. EachTask (λ b. a ≢ b) xss) (p ∷ rest) t apart.0 out.1, apart.1)
Separate-append_at (suc n) t ((p, rest) ∷ xss) apart out =
    (away (p ∷ rest) apart.0 out.0, Separate-append_at n t xss apart.1 out.1)
  where
    away :
        (ys : List ℕ)
        → All (λ a. EachTask (λ b. a ≢ b) xss) ys
        → All (λ a. t ≢ a) ys
        → All (λ a. EachTask (λ b. a ≢ b) (append_at n t xss)) ys
    away [] l r = tt
    away (y ∷ ys) l r =
        (EachTask-append_at (λ b. y ≢ b) n t xss l.0 (λ e. r.0 (sym e)), away ys l.1 r.1)

-- A search for an identifier looks at the identifiers only.
first_with-same :
    (h h' : Heap) (pid : ℕ) (xs : List ℕ)
    → All (λ a. (h' a).id ≡ (h a).id) xs
    → first_with h' pid xs ≡ first_with h pid xs
first_with-same h h' pid [] same = refl
first_with-same h h' pid (x ∷ xs) same = ground (arith, same.0, first_with-same h h' pid xs same.1)

pub first_in_all-same :
    (h h' : Heap) (pid : ℕ) (xss : List (ℕ × List ℕ))
    → EachTask (λ a. (h' a).id ≡ (h a).id) xss
    → first_in_all h' pid xss ≡ first_in_all h pid xss
first_in_all-same h h' pid [] same = refl
first_in_all-same h h' pid ((p, rest) ∷ xss) same =
    ground
      (arith, first_with-same h h' pid (p ∷ rest) same.0, first_in_all-same h h' pid xss same.1)

first_with-append_other :
    (h : Heap) (pid t : ℕ) (xs : List ℕ)
    → (h t).id ≢ pid
    → first_with h pid (xs ++ t ∷ []) ≡ first_with h pid xs
first_with-append_other h pid t [] ne = ground arith
first_with-append_other h pid t (x ∷ xs) ne = ground (arith, first_with-append_other h pid t xs ne)

pub first_in_all-append_other :
    (h : Heap) (pid n t : ℕ) (xss : List (ℕ × List ℕ))
    → (h t).id ≢ pid
    → first_in_all h pid (append_at n t xss) ≡ first_in_all h pid xss
first_in_all-append_other h pid n t [] ne = refl
first_in_all-append_other h pid zero t ((p, rest) ∷ xss) ne =
    ground (arith, first_with-append_other h pid t (p ∷ rest) ne)
first_in_all-append_other h pid (suc n) t ((p, rest) ∷ xss) ne =
    ground (arith, first_in_all-append_other h pid n t xss ne)

first_with-none :
    (h : Heap) (pid : ℕ) (xs : List ℕ) → All (λ a. (h a).id ≢ pid) xs → first_with h pid xs ≡ none
first_with-none h pid [] out = refl
first_with-none h pid (x ∷ xs) out = ground (arith, out.0, first_with-none h pid xs out.1)

first_with-append_new :
    (h : Heap) (pid t : ℕ) (xs : List ℕ)
    → All (λ a. (h a).id ≢ pid) xs
    → (h t).id ≡ pid
    → first_with h pid (xs ++ t ∷ []) ≡ some t
first_with-append_new h pid t [] out e = ground (arith, e)
first_with-append_new h pid t (x ∷ xs) out e =
    ground (arith, out.0, first_with-append_new h pid t xs out.1 e)

pub first_in_all-append_new :
    (h : Heap) (pid n t : ℕ) (xss : List (ℕ × List ℕ))
    → EachTask (λ a. (h a).id ≢ pid) xss
    → (h t).id ≡ pid
    → n < length xss
    → first_in_all h pid (append_at n t xss) ≡ some t
first_in_all-append_new h pid n t [] out e lt = absurd (omega arith)
first_in_all-append_new h pid zero t ((p, rest) ∷ xss) out e lt =
    ground (arith, first_with-append_new h pid t (p ∷ rest) out.0 e)
first_in_all-append_new h pid (suc n) t ((p, rest) ∷ xss) out e lt = ground (
  arith,
  first_with-none h pid (p ∷ rest) out.0,
  first_in_all-append_new h pid n t xss out.1 e (omega arith),
)
