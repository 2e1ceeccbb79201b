-- ===== src/Libc/Strings/Length.antt =====
-- `strlen` of libc.c and the first zero byte.
use ga_os.Base.{
  ℕ, zero, suc, ◌+◌, ◌≤◌, ◌<◌, ◌≡◌, ◌≢◌, ◌↔◌, ◌==◌, some, arith, inl, inr, Bool-cases, ==→eq, ==→ne,
  ne→==, eq→==,
}
use ga_os.Libc.Strings.{CString, HasLength, strlen_from, strlen}

strlen_from-some :
    (fuel i n : ℕ) (s : CString)
    → HasLength s n
    → i ≤ n
    → n < i + fuel
    → strlen_from fuel i s ≡ some n
unfolding strlen_from
strlen_from-some zero i n s h le lt = absurd (omega arith)
strlen_from-some (suc fuel) i n s h le lt = elim (Bool-cases (i == n)) [
  | inl e ↦ rw (==→eq i n e, eq→== (s n) 0 h.ends)
  | inr ne ↦
      let more : i < n = ground arith in
      rw (ne→== (s i) 0 (h.before i more))
        (strlen_from-some fuel (i + 1) n s h (omega arith) (omega arith))
]

-- With fuel for the whole text `strlen` returns the offset of its first zero byte.
pub strlen-HasLength :
    (fuel n : ℕ) (s : CString) → HasLength s n → n < fuel → strlen fuel s ≡ some n
unfolding strlen
strlen-HasLength fuel n s h lt = strlen_from-some fuel 0 n s h (omega arith) (omega arith)

strlen_from_sound :
    (fuel i n : ℕ) (s : CString)
    → strlen_from fuel i s ≡ some n
    → ((j : ℕ) → j < i → s j ≢ 0)
    → HasLength s n
unfolding strlen_from
strlen_from_sound zero i n s e past = absurd (cc)
strlen_from_sound (suc fuel) i n s e past = elim (Bool-cases (s i == 0)) [
  | inl stop ↦
      let same : i ≡ n = ground arith in
      record { ends = rw (← same) (==→eq (s i) 0 stop); before = λ j lt. past j (omega arith) }
  | inr go ↦ strlen_from_sound fuel (i + 1) n s (ground arith) (λ j lt. elim (Bool-cases (j == i)) [
    | inl eq ↦ rw (==→eq j i eq) (==→ne (s i) 0 go)
    | inr ne ↦ past j (ground arith)
  ])
]

-- `strlen` returns `n`, given fuel for `n` bytes and the terminator, exactly when the first zero
-- byte of the text stands at offset `n`.
pub strlen_iff : (fuel n : ℕ) (s : CString) → n < fuel → (strlen fuel s ≡ some n) ↔ HasLength s n
unfolding strlen
strlen_iff fuel n s lt = (
  λ e. strlen_from_sound fuel 0 n s e (λ j h. absurd (omega arith)),
  λ h. strlen-HasLength fuel n s h lt,
)
