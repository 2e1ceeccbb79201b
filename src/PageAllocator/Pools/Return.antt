-- ===== src/PageAllocator/Pools/Return.antt =====
-- `page_deallocate` after `page_allocate`.
use ga_os.Base.{
  ℕ, ◌+◌, ◌-◌, ◌/◌, ◌≤◌, ◌<◌, ◌≡◌, refl, leb, arith, true, false, List, [], ◌∷◌, ◌&&◌, ◌⊎◌,
}
use ga_os.PageAllocator.{Pool, page, wrap, deallocate_from}
use ga_os.PageAllocator.Bitmap.{marked, marked-unset_range}
use ga_os.PageAllocator.Pools.{IsValid}
use ga_os.PageAllocator.Pools.Serve.{AllValid, Served, here, next}

-- The same pages are marked in both.
abbrev pub SameMarks : List Pool → List Pool → Type 0
SameMarks [] [] = Unit {0}
SameMarks [] (q ∷ qs) = ⊥
SameMarks (p ∷ ps) [] = ⊥
SameMarks (p ∷ ps) (q ∷ qs) = ((i : ℕ) → marked p.bitmap i ≡ marked q.bitmap i) × SameMarks ps qs

SameMarks-self : (ps : List Pool) → SameMarks ps ps
SameMarks-self [] = tt
SameMarks-self (p ∷ ps) = (λ i. refl, SameMarks-self ps)

-- No page of a pool in the list lies in the memory of `p` or just behind it.
abbrev pub ApartFrom : Pool → List Pool → Type 0
ApartFrom p [] = Unit {0}
ApartFrom p (q ∷ qs) =
    ((p.allocate_base + p.total < q.allocate_base) ⊎ (q.allocate_base + q.total ≤ p.allocate_base))
    × ApartFrom p qs

abbrev pub Apart : List Pool → Type 0
Apart [] = Unit {0}
Apart (p ∷ ps) = ApartFrom p ps × Apart ps

abbrev Owns : Pool → ℕ → Type 0
Owns p a = (leb p.allocate_base a && leb a (wrap (p.allocate_base + p.total))) ≡ true

not-owns :
    {pages : ℕ} {ps qs : List Pool} {a : ℕ} (p : Pool)
    → 0 < pages
    → IsValid p
    → AllValid ps
    → ApartFrom p ps
    → Served pages ps a qs
    → (leb p.allocate_base a && leb a (wrap (p.allocate_base + p.total))) ≡ false
not-owns p pos v vs apart (here index grant e) =
    ground (arith, grant.inside, v.addresses, apart.0, e)
not-owns p pos v vs apart (next short served) = not-owns p pos v vs.1 apart.1 served

-- Freeing pages at the address that an allocation gave unmarks exactly those pages, whichever pool
-- they came from: the bitmaps are as they were before.
pub deallocate_from-Served :
    {pages : ℕ} {ps qs : List Pool} {a : ℕ}
    → 0 < pages
    → AllValid ps
    → Apart ps
    → Served pages ps a qs
    → SameMarks ps (deallocate_from qs a pages)
unfolding deallocate_from
deallocate_from-Served {pages} pos v apart (here {p} {q} {ps} {a} index grant e) =
    let mine : (leb q.allocate_base a && leb a (wrap (q.allocate_base + q.total))) ≡ true =
      ground (arith, grant.inside, grant.place, v.0.addresses) in
    let index_back : (a - q.allocate_base) / page ≡ index = omega (arith, grant.place, e) in
    rw (mine, index_back)
      (
        λ i.
            ground
              (arith, marked-unset_range pages q.bitmap index i, grant.marks i, grant.was_free i),
        SameMarks-self ps,
      )
deallocate_from-Served {pages} {a} pos v apart (next {p} {ps} {qs} short served) =
    rw (not-owns p pos v.0 v.1 apart.0 served)
      (λ i. refl, deallocate_from-Served pos v.1 apart.1 served)
