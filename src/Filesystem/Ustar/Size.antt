-- ===== src/Filesystem/Ustar/Size.antt =====
-- The size field: octal digits, read back.
use native.Mathlib.Nat.{pow-suc, pow-zero, pow-le-pow_right}
use mathlib.Core.List.{append-nil}
use ga_os.Base.{
  ℕ, zero, suc, ◌+◌, ◌*◌, ◌/◌, ◌%◌, ◌^◌, ◌≤◌, ◌<◌, ◌≡◌, refl, List, [], ◌∷◌, ◌++◌, arith, ap, ◌∙◌,
  sym, replicate,
}
use ga_os.Filesystem.Ustar.{size_step, parse_size}

-- The last `k` octal digits of `n`, the most significant first.
abbrev pub octal : ℕ → ℕ → List ℕ
octal zero n = []
octal (suc k) n = octal k (n / 8) ++ (b'0' + n % 8) ∷ []

parse_size-nil : (size : ℕ) → parse_size size [] ≡ size
unfolding parse_size
parse_size-nil size = refl

parse_size-append :
    (size : ℕ) (xs : List ℕ) (c : ℕ)
    → parse_size size (xs ++ c ∷ []) ≡ size_step (parse_size size xs) c
unfolding parse_size
parse_size-append size [] c = refl
parse_size-append size (x ∷ xs) c = parse_size-append (size_step size x) xs c

size_step-digit :
    (size d : ℕ) → d < 8 → size * 8 + d < 2 ^ 64 → size_step size (b'0' + d) ≡ size * 8 + d
unfolding size_step
size_step-digit size d h lt = ground arith

pow_eight_bound : (k : ℕ) → k < 22 → 8 ^ k ≤ 2 ^ 63
pow_eight_bound k h = pow-le-pow_right {n = 8} (omega arith) {i = k} {j = 21} (omega arith)

-- Fewer than 22 octal digits are read as the number that they denote.
pub parse_size-octal : (k n : ℕ) → k < 22 → n < 8 ^ k → parse_size 0 (octal k n) ≡ n
unfolding parse_size
parse_size-octal zero n h lt = omega (arith, pow-zero 8)
parse_size-octal (suc k) n h lt =
    let ih : parse_size 0 (octal k (n / 8)) ≡ n / 8 =
      parse_size-octal k (n / 8) (omega arith) (omega (arith, pow-suc 8 k)) in
    parse_size-append 0 (octal k (n / 8)) (b'0' + n % 8)
    ∙ ap (λ s. size_step s (b'0' + n % 8)) ih
    ∙ size_step-digit (n / 8) (n % 8) (omega arith) (omega (arith, pow_eight_bound (suc k) h))
    ∙ omega arith

-- Zero bytes and spaces before or behind the digits do not count.
abbrev pub padding : ℕ → ℕ → List ℕ
padding zero spaces = replicate spaces b' '
padding (suc k) spaces = 0 ∷ padding k spaces

parse_size-spaces :
    (spaces size : ℕ) (xs : List ℕ)
    → parse_size size (replicate spaces b' ' ++ xs) ≡ parse_size size xs
unfolding parse_size size_step
parse_size-spaces zero size xs = refl
parse_size-spaces (suc k) size xs = parse_size-spaces k size xs

parse_size-padding :
    (zeros spaces size : ℕ) (xs : List ℕ)
    → parse_size size (padding zeros spaces ++ xs) ≡ parse_size size xs
unfolding parse_size size_step
parse_size-padding zero spaces size xs = parse_size-spaces spaces size xs
parse_size-padding (suc k) spaces size xs = parse_size-padding k spaces size xs

parse_size-append_list :
    (size : ℕ) (xs ys : List ℕ) → parse_size size (xs ++ ys) ≡ parse_size (parse_size size xs) ys
unfolding parse_size
parse_size-append_list size [] ys = refl
parse_size-append_list size (x ∷ xs) ys = parse_size-append_list (size_step size x) xs ys

-- A size field that holds fewer than 22 octal digits of `n`, with zero bytes and spaces before and
-- behind them, is read as `n`.
pub parse_size-field :
    (before_zeros before_spaces k n after_zeros after_spaces : ℕ)
    → k < 22
    → n < 8 ^ k
    → parse_size 0
        (padding before_zeros before_spaces ++ (octal k n ++ padding after_zeros after_spaces))
      ≡ n
parse_size-field z s k n z' s' few small =
    parse_size-padding z s 0 (octal k n ++ padding z' s')
    ∙ parse_size-append_list 0 (octal k n) (padding z' s')
    ∙ ap (λ x. parse_size x (padding z' s')) (parse_size-octal k n few small)
    ∙ ap (parse_size n) (sym (append-nil (padding z' s')))
    ∙ parse_size-padding z' s' n []
    ∙ parse_size-nil n
