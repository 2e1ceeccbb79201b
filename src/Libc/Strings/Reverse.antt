-- ===== src/Libc/Strings/Reverse.antt =====
-- `strrev` of libc.c and the mirrored text.
use ga_os.Base.{
  ℕ, zero, suc, ◌+◌, ◌-◌, ◌≤◌, ◌<◌, ◌≡◌, ◌&&◌, if◌then◌else◌, ltb, leb, some, arith, inl, inr,
  Bool-cases, ltb→lt, ltb→le, ap, ◌∙◌,
}
use ga_os.Libc.Memory.{Memory, store}
use ga_os.Libc.Strings.{string_at, HasLength, reverse_loop, strrev}
use ga_os.Libc.Strings.Length.{strlen-HasLength}

-- The memory in which the bytes of the range from `i` up to `j`, relative to `str`, stand the other
-- way round.
abbrev pub mirrored : Memory → ℕ → ℕ → ℕ → Memory
mirrored m str i j a =
    if leb (str + i) a && ltb a (str + j) then m (str + (i + (j - 1) - (a - str))) else m a

-- One round: the bytes at `i` and `j - 1` change places.
abbrev pub swapped : Memory → ℕ → ℕ → ℕ → Memory
swapped m str i j = store (store m (str + i) (m (str + (j - 1)))) (str + (j - 1)) (m (str + i))

mirrored-swapped :
    (m : Memory) (str i j a : ℕ)
    → i + 1 < j
    → mirrored (swapped m str i j) str (i + 1) (j - 1) a ≡ mirrored m str i j a
mirrored-swapped m str i j a h = ground arith

mirrored_short : (m : Memory) (str i j a : ℕ) → j ≤ i + 1 → m a ≡ mirrored m str i j a
mirrored_short m str i j a h = elim (Bool-cases (leb (str + i) a && ltb a (str + j))) [
  | inl inside ↦ rw inside (ap m (ground arith))
  | inr outside ↦ rw outside
]

pub reverse_loop-mirrored :
    (fuel str i j : ℕ) (m : Memory) (a : ℕ)
    → j ≤ i + fuel
    → reverse_loop fuel str i j m a ≡ mirrored m str i j a
unfolding reverse_loop
reverse_loop-mirrored zero str i j m a h = mirrored_short m str i j a (omega arith)
reverse_loop-mirrored (suc fuel) str i j m a h = elim (Bool-cases (ltb (i + 1) j)) [
  | inl more ↦ rw more (
      reverse_loop-mirrored fuel str (i + 1) (j - 1) (swapped m str i j) a (omega arith)
      ∙ mirrored-swapped m str i j a (ltb→lt _ _ more))
  | inr done ↦ rw done (mirrored_short m str i j a (ltb→le _ _ done))
]

-- `strrev` of a text of length `len` swaps its bytes end for end and leaves the terminator and all
-- other memory as it was.
pub strrev-mirrored :
    (fuel str len : ℕ) (m : Memory)
    → HasLength (string_at m str) len
    → len < fuel
    → (m' : Memory) × (strrev fuel str m ≡ some m') × ((a : ℕ) → m' a ≡ mirrored m str 0 len a)
unfolding strrev
strrev-mirrored fuel str len m h lt = (
  reverse_loop len str 0 len m,
  ground (arith, strlen-HasLength fuel len (string_at m str) h lt),
  λ a. reverse_loop-mirrored len str 0 len m a (omega arith),
)
