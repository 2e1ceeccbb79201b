-- ===== src/Base/Bits.antt =====
-- The bits of an unsigned word, and the laws of `&`, `|`, `~` and `1 << b` in terms of them.
use Prim.Native.Nat.{
  ℕ, zero, suc, ◌+◌, ◌-◌, ◌*◌, ◌/◌, ◌%◌, ◌^◌, ◌≤◌, ◌<◌, min, max, bit_and, bit_or, digits,
  bit_and-bitwise, bit_or-bitwise,
}
use mathlib.Core.Path.{◌≡◌, refl, ap, ◌∙◌}
use mathlib.Core.Logic.{◌≢◌}
use native.Mathlib.Nat.{pow-suc}
use native.Mathlib.Omega.{arith}
use ga_os.Base.Tests.{◌==◌, if◌then◌else◌}

-- bit `i` of `x`: 0 or 1
unfoldable pub bit : ℕ → ℕ → ℕ
bit x zero = x % 2
bit x (suc i) = bit (x / 2) i

pub bit-lt_two : (x i : ℕ) → bit x i < 2
unfolding bit
bit-lt_two x zero = omega arith
bit-lt_two x (suc i) = bit-lt_two (x / 2) i

-- `~x` on a word of `k` bits
abbrev pub bit_not : ℕ → ℕ → ℕ
bit_not k x = 2 ^ k - 1 - x

-- Both operations are `digits` with a digit-wise rule: enough rounds give the same result.
and_rounds :
    (n m a b : ℕ) → a ≤ n → a ≤ m → digits (λ d. zero) min n a b ≡ digits (λ d. zero) min m a b
and_rounds zero zero a b p q = refl
and_rounds zero (suc m) zero b p q = refl
and_rounds zero (suc m) (suc a) b p q = absurd (omega arith)
and_rounds (suc n) zero zero b p q = refl
and_rounds (suc n) zero (suc a) b p q = absurd (omega arith)
and_rounds (suc n) (suc m) zero b p q = refl
and_rounds (suc n) (suc m) (suc a) b p q =
    omega (arith, and_rounds n m (suc a / 2) (b / 2) (omega arith) (omega arith))

pub bit_and-zero_left : (b : ℕ) → bit_and 0 b ≡ 0
bit_and-zero_left b = omega (arith, bit_and-bitwise 0 b)

pub bit_and_step : (a b : ℕ) → bit_and a b ≡ bit_and (a / 2) (b / 2) * 2 + min (a % 2) (b % 2)
bit_and_step zero b = omega (arith, bit_and-bitwise 0 b, bit_and-bitwise 0 (b / 2))
bit_and_step (suc a) b = omega (
  arith,
  bit_and-bitwise (suc a) b,
  bit_and-bitwise (suc a / 2) (b / 2),
  and_rounds a (suc a / 2) (suc a / 2) (b / 2) (omega arith) (omega arith),
)

or_rounds : (n m a b : ℕ) → a ≤ n → a ≤ m → digits (λ d. d) max n a b ≡ digits (λ d. d) max m a b
or_rounds zero zero a b p q = refl
or_rounds zero (suc m) zero b p q = refl
or_rounds zero (suc m) (suc a) b p q = absurd (omega arith)
or_rounds (suc n) zero zero b p q = refl
or_rounds (suc n) zero (suc a) b p q = absurd (omega arith)
or_rounds (suc n) (suc m) zero b p q = refl
or_rounds (suc n) (suc m) (suc a) b p q =
    omega (arith, or_rounds n m (suc a / 2) (b / 2) (omega arith) (omega arith))

pub bit_or_step : (a b : ℕ) → bit_or a b ≡ bit_or (a / 2) (b / 2) * 2 + max (a % 2) (b % 2)
bit_or_step zero b = omega (arith, bit_or-bitwise 0 b, bit_or-bitwise 0 (b / 2))
bit_or_step (suc a) b = omega (
  arith,
  bit_or-bitwise (suc a) b,
  bit_or-bitwise (suc a / 2) (b / 2),
  or_rounds a (suc a / 2) (suc a / 2) (b / 2) (omega arith) (omega arith),
)

pub bit-bit_and : (a b i : ℕ) → bit (bit_and a b) i ≡ min (bit a i) (bit b i)
unfolding bit
bit-bit_and a b zero = omega (arith, bit_and_step a b)
bit-bit_and a b (suc i) =
    let half : bit_and a b / 2 ≡ bit_and (a / 2) (b / 2) = omega (arith, bit_and_step a b) in
    ap (λ x. bit x i) half ∙ bit-bit_and (a / 2) (b / 2) i

pub bit-bit_or : (a b i : ℕ) → bit (bit_or a b) i ≡ max (bit a i) (bit b i)
unfolding bit
bit-bit_or a b zero = omega (arith, bit_or_step a b)
bit-bit_or a b (suc i) =
    let half : bit_or a b / 2 ≡ bit_or (a / 2) (b / 2) = omega (arith, bit_or_step a b) in
    ap (λ x. bit x i) half ∙ bit-bit_or (a / 2) (b / 2) i

pub zero-bit : (i : ℕ) → bit 0 i ≡ 0
unfolding bit
zero-bit zero = refl
zero-bit (suc i) = zero-bit i

bit-pow : (b i : ℕ) → bit (2 ^ b) i ≡ (if b == i then 1 else 0)
unfolding bit
bit-pow zero zero = refl
bit-pow zero (suc i) = ground (arith, zero-bit i)
bit-pow (suc b) zero = grind (arith, pow-suc 2 b)
bit-pow (suc b) (suc i) =
    let half : 2 ^ suc b / 2 ≡ 2 ^ b = omega (arith, pow-suc 2 b) in
    ap (λ x. bit x i) half ∙ bit-pow b i ∙ ground arith

pub bit-pow_self : (b : ℕ) → bit (2 ^ b) b ≡ 1
bit-pow_self b = ground (arith, bit-pow b b)

pub bit-pow_ne : (b i : ℕ) → b ≢ i → bit (2 ^ b) i ≡ 0
bit-pow_ne b i h = ground (arith, bit-pow b i)

bit_and-zero_bounded : (n a : ℕ) → a ≤ n → bit_and a 0 ≡ 0
bit_and-zero_bounded n zero h = refl
bit_and-zero_bounded zero (suc a) h = absurd (omega arith)
bit_and-zero_bounded (suc n) (suc a) h =
    omega (arith, bit_and_step (suc a) 0, bit_and-zero_bounded n (suc a / 2) (omega arith))

pub bit_and-zero : (a : ℕ) → bit_and a 0 ≡ 0
bit_and-zero a = bit_and-zero_bounded a a (omega arith)

-- A mask of one bit.
pub bit_and-pow : (x b : ℕ) → bit_and x (2 ^ b) ≡ bit x b * 2 ^ b
unfolding bit
bit_and-pow x zero = omega (arith, bit_and_step x 1, bit_and-zero (x / 2))
bit_and-pow x (suc b) =
    let half : 2 ^ suc b / 2 ≡ 2 ^ b = omega (arith, pow-suc 2 b) in
    let step : bit_and (x / 2) (2 ^ suc b / 2) ≡ bit (x / 2) b * 2 ^ b =
      ap (bit_and (x / 2)) half ∙ bit_and-pow (x / 2) b in
    omega (
      arith,
      pow-suc 2 b,
      bit_and_step x (2 ^ suc b),
      step,
      ap (λ (t : ℕ). bit (x / 2) b * t) (pow-suc 2 b),
    )

pub bit-bit_not : (k x i : ℕ) → x < 2 ^ k → i < k → bit (bit_not k x) i ≡ 1 - bit x i
unfolding bit
bit-bit_not zero x i h lt = absurd (omega arith)
bit-bit_not (suc k) x zero h lt = omega (arith, pow-suc 2 k)
bit-bit_not (suc k) x (suc i) h lt =
    let half : bit_not (suc k) x / 2 ≡ bit_not k (x / 2) = omega (arith, pow-suc 2 k) in
    ap (λ y. bit y i) half ∙ bit-bit_not k (x / 2) i (omega (arith, pow-suc 2 k)) (omega arith)

pub bit_above : (k x i : ℕ) → x < 2 ^ k → k ≤ i → bit x i ≡ 0
unfolding bit
bit_above zero x i h le = let e : x ≡ 0 = omega arith in ap (λ y. bit y i) e ∙ zero-bit i
bit_above (suc k) x zero h le = absurd (omega arith)
bit_above (suc k) x (suc i) h le = bit_above k (x / 2) i (omega (arith, pow-suc 2 k)) (omega arith)

-- Two words with the same bits are equal.
pub eq_of_bits : (k x y : ℕ) → x < 2 ^ k → y < 2 ^ k → ((i : ℕ) → bit x i ≡ bit y i) → x ≡ y
unfolding bit
eq_of_bits zero x y hx hy same = omega arith
eq_of_bits (suc k) x y hx hy same =
    let half : x / 2 ≡ y / 2 =
      eq_of_bits k (x / 2) (y / 2) (omega (arith, pow-suc 2 k)) (omega (arith, pow-suc 2 k))
        (λ i. same (suc i)) in
    omega (arith, half, same 0)

pub bit_and-lt : (k a b : ℕ) → b < 2 ^ k → bit_and a b < 2 ^ k
bit_and-lt zero a b h =
    let e : b ≡ 0 = omega arith in omega (arith, ap (bit_and a) e, bit_and-zero a)
bit_and-lt (suc k) a b h = omega (
  arith,
  pow-suc 2 k,
  bit_and_step a b,
  bit_and-lt k (a / 2) (b / 2) (omega (arith, pow-suc 2 k)),
)

pub bit_or-lt : (k a b : ℕ) → a < 2 ^ k → b < 2 ^ k → bit_or a b < 2 ^ k
bit_or-lt zero a b ha hb =
    let ea : a ≡ 0 = omega arith in
    let eb : b ≡ 0 = omega arith in omega (arith, ap (λ x. bit_or x b) ea, ap (bit_or 0) eb)
bit_or-lt (suc k) a b ha hb = omega (
  arith,
  pow-suc 2 k,
  bit_or_step a b,
  bit_or-lt k (a / 2) (b / 2) (omega (arith, pow-suc 2 k)) (omega (arith, pow-suc 2 k)),
)

pub bit_not-lt : (k x : ℕ) → bit_not k x < 2 ^ k
bit_not-lt zero x = omega arith
bit_not-lt (suc k) x = omega (arith, pow-suc 2 k, bit_not-lt k 0)
