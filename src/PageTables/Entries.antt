-- ===== src/PageTables/Entries.antt =====
-- The address field and the present bit of an entry.
use native.Mathlib.Nat.{pow-suc}
use Prim.Native.Nat.{max}
use ga_os.Base.{
  sym, ◌↔◌, ℕ, zero, suc, ◌+◌, ◌-◌, ◌*◌, ◌%◌, ◌^◌, ◌≤◌, ◌<◌, ◌≡◌, refl, ◌∙◌, bit_and, bit_or, min,
  if◌then◌else◌, ◌&&◌, leb, ltb, arith, true, Bool-cases, inl, inr, ap, ltb→lt, ltb→le, lt→ltb,
}
use ga_os.Base.Bits.{
  bit, bit-lt_two, bit-bit_and, bit-bit_or, bit-bit_not, bit_above, eq_of_bits, bit_and-lt,
  zero-bit, bit_and-pow,
}
use ga_os.PageTables.{get_address, set_address, is_present, address_mask, entry_present}

-- A physical address that an entry can hold: page-aligned, below 2 ^ 52.
pub record IsFrame (a : ℕ) : Type 0 where
  pub aligned : (i : ℕ) → i < 12 → bit a i ≡ 0
  pub small : a < 2 ^ 52

positive : (k : ℕ) → 0 < 2 ^ k
positive zero = omega arith
positive (suc k) = omega (arith, pow-suc 2 k, positive k)

bit-mersenne : (k i : ℕ) → bit (2 ^ k - 1) i ≡ (if ltb i k then 1 else 0)
unfolding bit
bit-mersenne zero i = zero-bit i ∙ ground arith
bit-mersenne (suc k) zero =
    let odd : (2 ^ suc k - 1) % 2 ≡ 1 = omega (arith, pow-suc 2 k, positive k) in
    let yes : ltb 0 (suc k) ≡ true = lt→ltb 0 (suc k) (omega arith) in rw (odd, yes) refl
bit-mersenne (suc k) (suc i) = ap (λ x. bit x i) (omega arith) ∙ bit-mersenne k i ∙ ground arith

double : (k c : ℕ) → c * 2 ^ suc k ≡ c * 2 ^ k * 2
double k c = ap (λ x. c * x) (pow-suc 2 k) ∙ omega arith

pub bit-low : (k c i : ℕ) → i < k → bit (c * 2 ^ k) i ≡ 0
unfolding bit
bit-low zero c i lt = absurd (omega arith)
bit-low (suc k) c zero lt = omega (arith, double k c)
bit-low (suc k) c (suc i) lt =
    ap (λ x. bit x i) {y = c * 2 ^ k} (omega (arith, double k c)) ∙ bit-low k c i (omega arith)

bit-high : (k c i : ℕ) → bit (c * 2 ^ k) (k + i) ≡ bit c i
unfolding bit
bit-high zero c i =
    ap (λ x. bit x (0 + i)) {y = c} (omega arith) ∙ ap (bit c) {x = 0 + i} {y = i} (omega arith)
bit-high (suc k) c i =
    ap (bit (c * 2 ^ suc k)) {x = suc k + i} {y = suc (k + i)} (omega arith)
    ∙ (ap (λ x. bit x (k + i)) {y = c * 2 ^ k} (omega (arith, double k c)) ∙ bit-high k c i)

bit-mask : (i : ℕ) → bit address_mask i ≡ (if leb 12 i && ltb i 52 then 1 else 0)
bit-mask i = elim (Bool-cases (ltb i 12)) [
  | inl low ↦ bit-low 12 (2 ^ 40 - 1) i (ltb→lt i 12 low) ∙ ground arith
  | inr high ↦
      let le : 12 ≤ i = ltb→le i 12 high in
      ap (bit address_mask) {y = 12 + (i - 12)} (omega arith)
      ∙ (bit-high 12 (2 ^ 40 - 1) (i - 12) ∙ (bit-mersenne 40 (i - 12) ∙ ground arith))
]

pub get_address-IsFrame : (a : ℕ) → IsFrame a → get_address a ≡ a
unfolding get_address
get_address-IsFrame a f =
    eq_of_bits 52 (bit_and a address_mask) a (bit_and-lt 52 a address_mask (omega arith)) f.small
      (λ i. elim (Bool-cases (ltb i 52)) [
        | inr out ↦
            ground (arith, bit-bit_and a address_mask i, bit_above 52 a i f.small (ltb→le i 52 out))
        | inl low ↦
            ground (arith, bit-bit_and a address_mask i, bit-mask i, f.aligned i, bit-lt_two a i)
      ])

-- Entries with the same bits from 12 up to 52 hold the same address.
get_address-same :
    (x y : ℕ) → ((i : ℕ) → 12 ≤ i → i < 52 → bit x i ≡ bit y i) → get_address x ≡ get_address y
unfolding get_address
get_address-same x y same =
    eq_of_bits 52 (bit_and x address_mask) (bit_and y address_mask)
      (bit_and-lt 52 x address_mask (omega arith)) (bit_and-lt 52 y address_mask (omega arith))
      (λ i. elim (Bool-cases (leb 12 i && ltb i 52)) [
        | inr out ↦
            ground (arith, bit-bit_and x address_mask i, bit-bit_and y address_mask i, bit-mask i)
        | inl mid ↦
            let at : bit x i ≡ bit y i = same i (ground arith) (ground arith) in
            bit-bit_and x address_mask i
            ∙ (ap (λ b. min b (bit address_mask i)) at ∙ sym (bit-bit_and y address_mask i))
      ])

max_zero : (n b : ℕ) → b ≡ 0 → max n b ≡ n
max_zero n b e = omega arith

-- Flags below 256 do not reach the address.
pub get_address-bit_or : (e low : ℕ) → low < 2 ^ 8 → get_address (bit_or e low) ≡ get_address e
get_address-bit_or e low lt = get_address-same (bit_or e low) e (λ i le hi.
    bit-bit_or e low i ∙ max_zero (bit e i) (bit low i) (bit_above 8 low i lt (omega arith)))

-- A new entry holds the address that was put into an empty one.
pub get_address-new :
    (a low : ℕ) → IsFrame a → low < 2 ^ 8 → get_address (bit_or (bit_or 0 a) low) ≡ a
get_address-new a low f lt =
    get_address-bit_or (bit_or 0 a) low lt
    ∙ (get_address-same (bit_or 0 a) a (λ i le hi. omega (arith, bit-bit_or 0 a i, zero-bit i))
        ∙ get_address-IsFrame a f)

bit-high_mask :
    (i : ℕ) → i < 64 → bit 0xFFF0000000000FFF i ≡ 1 - (if leb 12 i && ltb i 52 then 1 else 0)
bit-high_mask i lt = bit-bit_not 64 address_mask i (omega arith) lt ∙ ap (λ b. 1 - b) (bit-mask i)

-- Whatever an entry held before, it holds the address that is put into it.
pub get_address-set_address : (e a : ℕ) → IsFrame a → get_address (set_address e a) ≡ a
unfolding set_address
get_address-set_address e a f =
    get_address-same (bit_or (bit_and e 0xFFF0000000000FFF) a) a (λ i le hi. ground (
      arith,
      bit-bit_or (bit_and e 0xFFF0000000000FFF) a i,
      bit-bit_and e 0xFFF0000000000FFF i,
      bit-high_mask i (omega arith),
      bit-lt_two e i,
    ))
    ∙ get_address-IsFrame a f

pub is_present_iff : (x : ℕ) → (is_present x ≡ true) ↔ (bit x 0 ≡ 1)
unfolding is_present
is_present_iff x =
    let e : bit_and x 1 ≡ bit x 0 * 1 = bit_and-pow x 0 in
    let two = bit-lt_two x 0 in (λ h. ground arith, λ h. ground arith)

pub bit-set_address : (e a : ℕ) → bit e 0 ≡ 1 → bit (set_address e a) 0 ≡ 1
unfolding set_address
bit-set_address e a h = ground (
  arith,
  bit-bit_or (bit_and e 0xFFF0000000000FFF) a 0,
  bit-bit_and e 0xFFF0000000000FFF 0,
  bit-high_mask 0 (omega arith),
  bit-lt_two a 0,
)

-- Bits that are set stay set.
pub bit-bit_or_left : (x y : ℕ) → bit x 0 ≡ 1 → bit (bit_or x y) 0 ≡ 1
bit-bit_or_left x y h = omega (arith, bit-bit_or x y 0, bit-lt_two y 0)

pub bit-bit_or_one : (x y : ℕ) → bit (bit_or x (bit_or y entry_present)) 0 ≡ 1
unfolding bit
bit-bit_or_one x y =
    omega (arith, bit-bit_or x (bit_or y 1) 0, bit-bit_or y 1 0, bit-lt_two x 0, bit-lt_two y 0)
