-- ===== src/PageAllocator/Bitmap.antt =====
-- The bitmap of a pool as a set of pages.
use native.Mathlib.Nat.{one-le-pow, pow-le-pow_right}
use ga_os.Base.{
  ℕ, zero, suc, ◌+◌, ◌-◌, ◌/◌, ◌%◌, ◌^◌, ◌<◌, ◌≡◌, ◌==◌, if◌then◌else◌, leb, ltb, ◌&&◌, Bool-cases,
  inl, inr, arith, ==→eq,
}
use ga_os.Base.Bits.{
  bit, bit-lt_two, bit-bit_and, bit-bit_or, bit-pow_self, bit-pow_ne, bit_and-pow, bit-bit_not,
}
use ga_os.PageAllocator.{
  Bitmap, bitmap_set, bitmap_unset, bitmap_get, truthy, set_range, unset_range,
}

-- Page `i` is marked: 0 or 1.
unfoldable pub marked : Bitmap → ℕ → ℕ
marked b i = bit (b (i / 64)) (i % 64)

pub truthy-bitmap_get : (b : Bitmap) (i : ℕ) → truthy (bitmap_get b i) ≡ (marked b i == 1)
unfolding bitmap_get marked
truthy-bitmap_get b i =
    let w : ℕ = b (i / 64) in
    elim (Bool-cases (bit w (i % 64) == 0)) [
      | inl clear ↦ let e = ==→eq _ 0 clear in rw (bit_and-pow w (i % 64), e) (ground arith)
      | inr full ↦
          let e : bit w (i % 64) ≡ 1 = ground (arith, bit-lt_two w (i % 64)) in
          rw (bit_and-pow w (i % 64), e) (ground (arith, one-le-pow (i % 64) 2))
    ]

pub marked-lt_two : (b : Bitmap) (i : ℕ) → marked b i < 2
unfolding marked
marked-lt_two b i = bit-lt_two _ _

pow-lt_word : (k : ℕ) → k < 64 → 2 ^ k < 2 ^ 64
pow-lt_word k h =
    omega (arith, pow-le-pow_right {n = 2} (omega arith) {i = k} {j = 63} (omega arith))

pub marked-bitmap_set :
    (b : Bitmap) (i j : ℕ) → marked (bitmap_set b i) j ≡ (if i == j then 1 else marked b j)
unfolding marked bitmap_set
marked-bitmap_set b i j = ground (
  arith,
  bit-bit_or (b (i / 64)) (2 ^ (i % 64)) (j % 64),
  bit-pow_self (i % 64),
  bit-pow_ne (i % 64) (j % 64),
  bit-lt_two (b (i / 64)) (j % 64),
)

pub marked-bitmap_unset :
    (b : Bitmap) (i j : ℕ) → marked (bitmap_unset b i) j ≡ (if i == j then 0 else marked b j)
unfolding marked bitmap_unset
marked-bitmap_unset b i j = ground (
  arith,
  bit-bit_and (b (i / 64)) (2 ^ 64 - 1 - 2 ^ (i % 64)) (j % 64),
  bit-bit_not 64 (2 ^ (i % 64)) (j % 64) (pow-lt_word (i % 64) (omega arith)) (omega arith),
  bit-pow_self (i % 64),
  bit-pow_ne (i % 64) (j % 64),
  bit-lt_two (b (i / 64)) (j % 64),
)

-- Marking a range marks its pages and no others.
pub marked-set_range :
    (k : ℕ) (b : Bitmap) (i j : ℕ)
    → marked (set_range k b i) j ≡ (if leb i j && ltb j (i + k) then 1 else marked b j)
unfolding set_range
marked-set_range zero b i j = ground arith
marked-set_range (suc k) b i j =
    ground (arith, marked-set_range k (bitmap_set b i) (i + 1) j, marked-bitmap_set b i j)

pub marked-unset_range :
    (k : ℕ) (b : Bitmap) (i j : ℕ)
    → marked (unset_range k b i) j ≡ (if leb i j && ltb j (i + k) then 0 else marked b j)
unfolding unset_range
marked-unset_range zero b i j = ground arith
marked-unset_range (suc k) b i j = elim (Bool-cases (marked b i == 1)) [
  | inl full ↦ ground (
    arith,
    truthy-bitmap_get b i,
    marked-unset_range k (bitmap_unset b i) (i + 1) j,
    marked-bitmap_unset b i j,
  )
  | inr clear ↦
      let zeroed : marked b i ≡ 0 = ground (arith, marked-lt_two b i) in
      elim (Bool-cases (i == j)) [
        | inl here ↦
            let there : marked b j ≡ 0 = rw (← ==→eq i j here) zeroed in
            ground (arith, truthy-bitmap_get b i, marked-unset_range k b (i + 1) j)
        | inr past ↦ ground (arith, truthy-bitmap_get b i, marked-unset_range k b (i + 1) j)
      ]
]
