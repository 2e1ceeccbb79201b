-- ===== src/Libc/Strings/Compare.antt =====
-- The result 0 of `strncmp` in libc.c.
use ga_os.Base.{ℕ, zero, suc, ◌+◌, ◌≤◌, ◌<◌, ◌≡◌, refl, ◌↔◌, arith}
use ga_os.Base.Int.{pos}
use ga_os.Libc.Strings.{CString, skip, HasLength, strncmp}

pub HasLength-skip : (s : CString) (n : ℕ) → HasLength s (suc n) → HasLength (skip s 1) n
HasLength-skip s n h = record {
  ends = (let e : 1 + n ≡ suc n = omega arith in rw e h.ends);
  before = λ i lt. h.before (1 + i) (omega arith);
}

strncmp-agree :
    (n : ℕ) (s t : CString) (len : ℕ)
    → HasLength s len
    → strncmp s t n ≡ pos 0
    → (i : ℕ) → i < n
    → i ≤ len
    → s i ≡ t i
unfolding strncmp
strncmp-agree zero s t len h e i lt le = elim lt [ ]
strncmp-agree (suc n) s t len h e zero lt le = ground arith
strncmp-agree (suc n) s t zero h e (suc i) lt le = absurd (omega arith)
strncmp-agree (suc n) s t (suc len) h e (suc i) lt le =
    let e' : 1 + i ≡ suc i = omega arith in
    rw e' at (
      strncmp-agree n (skip s 1) (skip t 1) len (HasLength-skip s len h)
        (ground (arith, h.before 0 (omega arith))) i (omega arith) (omega arith))

agree-strncmp :
    (n : ℕ) (s t : CString) (len : ℕ)
    → HasLength s len
    → ((i : ℕ) → i < n → i ≤ len → s i ≡ t i)
    → strncmp s t n ≡ pos 0
unfolding strncmp
agree-strncmp zero s t len h same = refl
agree-strncmp (suc n) s t zero h same = rw (h.ends, ← same 0 (omega arith) (omega arith), h.ends)
agree-strncmp (suc n) s t (suc len) h same = ground (
  arith,
  h.before 0 (omega arith),
  same 0 (omega arith) (omega arith),
  agree-strncmp n (skip s 1) (skip t 1) len (HasLength-skip s len h)
      (λ i lt le. same (1 + i) (omega arith) (omega arith)),
)

-- `strncmp` returns 0 exactly when the two texts agree on the first `n` bytes, counting those up to
-- and including the terminator of the first text.
pub strncmp-zero_iff :
    (n : ℕ) (s t : CString) (len : ℕ)
    → HasLength s len
    → (strncmp s t n ≡ pos 0) ↔ ((i : ℕ) → i < n → i ≤ len → s i ≡ t i)
strncmp-zero_iff n s t len h = (strncmp-agree n s t len h, agree-strncmp n s t len h)
