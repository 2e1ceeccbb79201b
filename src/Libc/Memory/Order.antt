-- ===== src/Libc/Memory/Order.antt =====
-- The result 0 of `memcmp` in libc.c.
use ga_os.Base.{
  ℕ, zero, suc, ◌+◌, ◌≤◌, ◌<◌, ◌≡◌, refl, ◌↔◌, ◌==◌, arith, inl, inr, Bool-cases, ==→eq, eq→==,
}
use ga_os.Base.Int.{pos}
use ga_os.Libc.Memory.{compare_from, memcmp}

compare_from-eq :
    (k i : ℕ) (p q : ℕ → ℕ) → compare_from k i p q ≡ pos 0 → (j : ℕ) → i ≤ j → j < i + k → p j ≡ q j
unfolding compare_from
compare_from-eq zero i p q e j lo hi = absurd (omega arith)
compare_from-eq (suc k) i p q e j lo hi = elim (Bool-cases (i == j)) [
  | inl here ↦ rw (← ==→eq i j here) (ground arith)
  | inr past ↦ compare_from-eq k (i + 1) p q (ground arith) j (ground arith) (omega arith)
]

eq-compare_from :
    (k i : ℕ) (p q : ℕ → ℕ)
    → ((j : ℕ) → i ≤ j → j < i + k → p j ≡ q j)
    → compare_from k i p q ≡ pos 0
unfolding compare_from
eq-compare_from zero i p q same = refl
eq-compare_from (suc k) i p q same =
    rw (eq→== (p i) (q i) (same i (omega arith) (omega arith)))
      (eq-compare_from k (i + 1) p q (λ j lo hi. same j (omega arith) (omega arith)))

-- `memcmp` returns 0 exactly when the first `n` bytes agree.
pub memcmp-zero_iff : (p q : ℕ → ℕ) (n : ℕ) → (memcmp p q n ≡ pos 0) ↔ ((j : ℕ) → j < n → p j ≡ q j)
unfolding memcmp
memcmp-zero_iff p q n = (
  λ e j lt. compare_from-eq n 0 p q e j (omega arith) (omega arith),
  λ same. eq-compare_from n 0 p q (λ j lo hi. same j (omega arith)),
)
