-- ===== src/Libc/Integers.antt =====
-- The integer helpers of kernel/src/misc/libc.h. `min` takes and gives `int`, so a `size_t` argument
-- loses its high half and a negative result is extended with ones.
use ga_os.Base.{
  ℕ, zero, suc, ◌*◌, ◌+◌, ◌-◌, ◌%◌, ◌^◌, ◌<◌, ◌≡◌, min as least, if◌then◌else◌, ltb, arith,
}
use ga_os.Libc.Strings.{CString, skip}

-- The `int` of the low half of a word, in the order of the signed numbers: -2 ^ 31 is 0.
abbrev biased : ℕ → ℕ
biased x = (x + 2 ^ 31) % 2 ^ 32

-- A `size_t` to `int` and back.
abbrev pub through_int : ℕ → ℕ
through_int x = if ltb (x % 2 ^ 32) (2 ^ 31) then x % 2 ^ 32 else x % 2 ^ 32 + (2 ^ 64 - 2 ^ 32)

-- `min` on two `size_t` arguments, its result a `size_t` again.
pub min : ℕ → ℕ → ℕ
min a b = if ltb (biased b) (biased a) then through_int b else through_int a

-- Below 2 ^ 31 it is the minimum.
pub min-least : (a b : ℕ) → a < 2 ^ 31 → b < 2 ^ 31 → min a b ≡ least a b
unfolding min
min-least a b ha hb = ground arith

-- The number that `n` bytes hold, the lowest first, as a load from memory gives it.
unfoldable pub number_at : ℕ → CString → ℕ
number_at zero s = 0
number_at (suc n) s = s 0 + 256 * number_at n (skip s 1)
