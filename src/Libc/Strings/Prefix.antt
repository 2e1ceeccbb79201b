-- ===== src/Libc/Strings/Prefix.antt =====
-- `strncmp(s, t, n) == 0` as the test whether a text begins with another.
use ga_os.Base.{
  ℕ, zero, suc, ◌+◌, ◌≤◌, ◌<◌, ◌≡◌, refl, arith, ◌==◌, Bool, Bool-cases, inl, inr, true, ◌↔◌, ◌&&◌,
  ◌∙◌, sym,
}
use ga_os.Base.Int.{ℤ, pos}
use ga_os.Libc.Strings.{CString, skip, HasLength, strncmp, is_zero}
use ga_os.Libc.Strings.Compare.{strncmp-zero_iff}

-- The first `n` bytes of the two texts are the same.
abbrev pub starts : CString → CString → ℕ → Bool
starts s t zero = true
starts s t (suc n) = (s 0 == t 0) && starts (skip s 1) (skip t 1) n

pub starts-agree : (n : ℕ) (s t : CString) → starts s t n ≡ true → (i : ℕ) → i < n → s i ≡ t i
starts-agree zero s t h i lt = elim lt [ ]
starts-agree (suc n) s t h zero lt = ground arith
starts-agree (suc n) s t h (suc i) lt =
    let e : 1 + i ≡ suc i = omega arith in
    rw e at (starts-agree n (skip s 1) (skip t 1) (ground arith) i (omega arith))

pub agree-starts : (n : ℕ) (s t : CString) → ((i : ℕ) → i < n → s i ≡ t i) → starts s t n ≡ true
agree-starts zero s t h = refl
agree-starts (suc n) s t h = ground (
  arith,
  h 0 (omega arith),
  agree-starts n (skip s 1) (skip t 1) (λ i lt. h (1 + i) (omega arith)),
)

pub is_zero_iff : (z : ℤ) → (is_zero z ≡ true) ↔ (z ≡ pos 0)
is_zero_iff z = ground arith

-- For a prefix no longer than the first text, `strncmp` compares whole bytes only.
pub strncmp-starts :
    (k n : ℕ) (s t : CString) → HasLength s n → k ≤ n → is_zero (strncmp s t k) ≡ starts s t k
strncmp-starts k n s t h le = elim (Bool-cases (starts s t k)) [
  | inl same ↦
      let e = (strncmp-zero_iff k s t n h).1 (λ i lt in_text. starts-agree k s t same i lt) in
      ground (arith, e, same)
  | inr differ ↦ elim (Bool-cases (is_zero (strncmp s t k))) [
    | inl zeroed ↦
        let agree = (strncmp-zero_iff k s t n h).0 ((is_zero_iff _).0 zeroed) in
        absurd (cc (agree-starts k s t (λ i lt. agree i lt (omega arith))))
    | inr other ↦ other ∙ sym differ
  ]
]

-- Whether two texts agree on `n` bytes does not depend on their order.
pub is_zero-strncmp_sym :
    (n : ℕ) (s t : CString) → is_zero (strncmp s t n) ≡ is_zero (strncmp t s n)
unfolding strncmp
is_zero-strncmp_sym zero s t = refl
is_zero-strncmp_sym (suc n) s t = ground (arith, is_zero-strncmp_sym n (skip s 1) (skip t 1))

pub strncmp-same :
    (n : ℕ) (s t : CString) → ((i : ℕ) → i < n → s i ≡ t i) → is_zero (strncmp s t n) ≡ true
unfolding strncmp
strncmp-same zero s t h = refl
strncmp-same (suc n) s t h = ground (
  arith,
  h 0 (omega arith),
  strncmp-same n (skip s 1) (skip t 1) (λ i lt. h (1 + i) (omega arith)),
)
