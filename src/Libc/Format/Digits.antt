-- ===== src/Libc/Format/Digits.antt =====
-- The digits that %d and %x print.
use ga_os.Base.{
  ℕ, zero, suc, ◌+◌, ◌*◌, ◌^◌, ◌≤◌, ◌<◌, ◌≡◌, refl, arith, List, [], ◌∷◌, ◌++◌, some, ◌∙◌, ap,
  fun_ext,
}
use ga_os.Libc.Memory.{Memory}
use ga_os.Libc.Strings.{strlen, string_at, reverse_loop}
use ga_os.Libc.Strings.Length.{strlen-HasLength}
use ga_os.Libc.Number.{num_to_string, digits_loop, digit_char}
use ga_os.Libc.Number.Digits.{decode, digit_of, num_to_string-Shows}
use ga_os.Libc.Format.{conversion, bytes_at}

-- The number that digits denote, the most significant first, behind those that denote `n`.
abbrev pub value_of : (base n : ℕ) → List ℕ → ℕ
value_of base n [] = n
value_of base n (c ∷ cs) = value_of base (n * base + digit_of c) cs

value_of-append :
    (base n : ℕ) (xs : List ℕ) (c : ℕ)
    → value_of base n (xs ++ c ∷ []) ≡ value_of base n xs * base + digit_of c
value_of-append base n [] c = refl
value_of-append base n (x ∷ xs) c = value_of-append base (n * base + digit_of x) xs c

bytes_at-append : (n p : ℕ) (m : Memory) → bytes_at (suc n) m p ≡ bytes_at n m p ++ m (p + n) ∷ []
unfolding bytes_at
bytes_at-append zero p m = let e : p + 0 ≡ p = omega arith in rw e refl
bytes_at-append (suc n) p m =
    let e : p + 1 + n ≡ p + suc n = omega arith in
    ap (λ (l : List ℕ). m p ∷ l) (rw e at (bytes_at-append n (p + 1) m))

value_of-bytes_at :
    (base n p : ℕ) (m : Memory) → value_of base 0 (bytes_at n m p) ≡ decode base (string_at m p) n
unfolding bytes_at
value_of-bytes_at base zero p m = refl
value_of-bytes_at base (suc n) p m =
    rw (bytes_at-append n p m)
      (value_of-append base 0 (bytes_at n m p) (m (p + n)) ∙ rw (value_of-bytes_at base n p m) refl)

string_at_zero : (m : Memory) → string_at m 0 ≡ m
string_at_zero m = fun_ext (λ i. ap m (omega arith))

conversion_step :
    (base value n : ℕ) (m : Memory)
    → num_to_string 65 value 0 32 base (λ a. 0) ≡ some m
    → strlen 32 m ≡ some n
    → conversion base value ≡ some (bytes_at n m 0)
unfolding conversion
conversion_step base value n m e terminated = rw (conversion, e, terminated) refl

-- A 64-bit number prints as digits that denote it, if the buffer has room for them.
pub conversion-value_of :
    (base value : ℕ)
    → 2 ≤ base
    → base ≤ 16
    → value < 2 ^ 64
    → value < base ^ 31
    → (digits : List ℕ) × (conversion base value ≡ some digits) × (value_of base 0 digits ≡ value)
conversion-value_of base value two sixteen small room =
    let (m', e, s) =
      num_to_string-Shows 64 value 0 32 base (λ a. 0) two sixteen (omega arith) small room in
    let terminated : strlen 32 m' ≡ some s.digits =
      rw (string_at_zero m') at
        (strlen-HasLength 32 s.digits (string_at m' 0) s.terminated s.fits) in
    (
      bytes_at s.digits m' 0,
      conversion_step base value s.digits m' e terminated,
      value_of-bytes_at base s.digits 0 m' ∙ s.denotes,
    )

-- A digit prints as itself.
pub conversion_digit : (d : ℕ) → d < 10 → conversion 10 d ≡ some ((b'0' + d) ∷ [])
unfolding conversion num_to_string digits_loop digit_char strlen reverse_loop bytes_at
conversion_digit zero lt = refl
conversion_digit (suc zero) lt = refl
conversion_digit (suc (suc zero)) lt = refl
conversion_digit (suc (suc (suc zero))) lt = refl
conversion_digit (suc (suc (suc (suc zero)))) lt = refl
conversion_digit (suc (suc (suc (suc (suc zero))))) lt = refl
conversion_digit (suc (suc (suc (suc (suc (suc zero)))))) lt = refl
conversion_digit (suc (suc (suc (suc (suc (suc (suc zero))))))) lt = refl
conversion_digit (suc (suc (suc (suc (suc (suc (suc (suc zero)))))))) lt = refl
conversion_digit (suc (suc (suc (suc (suc (suc (suc (suc (suc zero))))))))) lt = refl
conversion_digit (suc (suc (suc (suc (suc (suc (suc (suc (suc (suc n)))))))))) lt =
    absurd (omega arith)
