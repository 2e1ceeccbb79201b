-- ===== src/Libc/Number/Digits.antt =====
-- `num_to_string` of libc.c and the number that its text denotes.
use native.Mathlib.Nat.{div-lt_iff_lt-mul, div-add-mod, pow-suc, pow-zero}
use ga_os.Base.{
  ℕ, zero, suc, ◌+◌, ◌-◌, ◌*◌, ◌/◌, ◌%◌, ◌^◌, ◌≤◌, ◌<◌, ◌≡◌, refl, some, ◌==◌, leb, ap, ◌∙◌,
  if◌then◌else◌, arith, ◌⊎◌, Bool-cases, inl, inr, ==→eq, ==→ne, fun_ext, sym, ◌≢◌, true,
}
use ga_os.Libc.Memory.{Memory, store}
use ga_os.Libc.Strings.{CString, skip, string_at, HasLength, reverse_loop}
use ga_os.Libc.Strings.Reverse.{reverse_loop-mirrored}
use ga_os.Libc.Number.{digit_char, digits_loop, num_to_string}

-- The value of a digit, '0' to '9' and 'A' to 'F'.
abbrev pub digit_of : ℕ → ℕ
digit_of c = if leb c b'9' then c - b'0' else c - b'A' + 10

digit_of-digit_char : (d : ℕ) → digit_of (digit_char d) ≡ d
unfolding digit_char
digit_of-digit_char d = ground arith

digit_char-ne : (d : ℕ) → digit_char d ≢ 0
unfolding digit_char
digit_char-ne d = ground arith

store_self : (m : Memory) (p v : ℕ) → store m p v p ≡ v
store_self m p v = ground arith

-- The number that the first `n` characters denote, the most significant first.
abbrev pub decode : ℕ → CString → ℕ → ℕ
decode base s zero = 0
decode base s (suc n) = decode base s n * base + digit_of (s n)

-- The same with the least significant first, as the loop writes them.
abbrev low : ℕ → CString → ℕ → ℕ
low base s zero = 0
low base s (suc n) = digit_of (s 0) + base * low base (skip s 1) n

decode-low :
    (base n : ℕ) (s t : CString)
    → ((k : ℕ) → k < n → t k ≡ s (n - 1 - k))
    → decode base t n ≡ low base s n
decode-low base zero s t h = refl
decode-low base (suc n) s t h =
    let ih : decode base t n ≡ low base (skip s 1) n =
      decode-low base n (skip s 1) t (λ k lt. h k (omega arith) ∙ ap s (omega arith)) in
    let last : t n ≡ s 0 = h n (omega arith) ∙ ap s (omega arith) in
    omega (arith, ap digit_of last, ap (λ (x : ℕ). x * base) ih)

-- What the loop has done when it ends at index `j` with memory `m'`.
record Written (base buffer index bytes value : ℕ) (m : Memory) (j : ℕ) (m' : Memory) : Type 0 where
  grows : index ≤ j
  fits : j ≤ bytes
  denotes : low base (λ k. m' (buffer + index + k)) (j - index) ≡ value
  nonzero : (k : ℕ) → index ≤ k → k < j → m' (buffer + k) ≢ 0
  same : (a : ℕ) → (a < buffer + index) ⊎ (buffer + j ≤ a) → m' a ≡ m a

low-suc :
    (base n : ℕ) (s : CString)
    → 0 < n
    → low base s n ≡ digit_of (s 0) + base * low base (skip s 1) (n - 1)
low-suc base zero s h = absurd (omega arith)
low-suc base (suc n) s h = ap (λ k. digit_of (s 0) + base * low base (skip s 1) k) (omega arith)

module _ (base bytes buffer : ℕ) (two : 2 ≤ base) where
  denotes_next :
      (index value j : ℕ) (m m' : Memory)
      → Written base buffer
          (index + 1)
          bytes
          (value / base)
          (store m (buffer + index) (digit_char (value % base)))
          j
          m'
      → low base (λ k. m' (buffer + index + k)) (j - index) ≡ value
  denotes_next index value j m m' w =
      let s : CString = λ k. m' (buffer + index + k) in
      let first : s 0 ≡ digit_char (value % base) =
        w.same (buffer + index + 0) (inl (omega arith)) ∙ ground arith in
      let shifted : skip s 1 ≡ (λ k. m' (buffer + (index + 1) + k)) =
        fun_ext (λ k. ap m' (omega arith)) in
      let rest : low base (skip s 1) (j - index - 1) ≡ value / base =
        ap (λ t. low base t (j - index - 1)) shifted
        ∙ ap (low base (λ k. m' (buffer + (index + 1) + k))) (omega arith)
        ∙ w.denotes in
      omega (
        arith,
        low-suc base (j - index) s (omega arith),
        ap digit_of first,
        digit_of-digit_char (value % base),
        ap (λ (x : ℕ). base * x) rest,
        div-add-mod value base,
      )

  Written-next :
      (index value j : ℕ) (m m' : Memory)
      → Written base buffer
          (index + 1)
          bytes
          (value / base)
          (store m (buffer + index) (digit_char (value % base)))
          j
          m'
      → Written base buffer index bytes value m j m'
  Written-next index value j m m' w = record {
    grows = omega arith;
    fits = w.fits;
    denotes = denotes_next index value j m m' w;
    nonzero = λ k lo hi. elim (Bool-cases (k == index)) [
      | inl here ↦
          rw
            (
              ==→eq k index here,
              w.same (buffer + index) (inl (omega arith)),
              store_self m (buffer + index) (digit_char (value % base)),
            )
            (digit_char-ne (value % base))
      | inr past ↦ w.nonzero k (ground arith) hi
    ];
    same = λ a out. w.same a (omega arith) ∙ ground arith;
  }

  Written-done :
      (index value : ℕ) (m : Memory)
      → value ≡ 0
      → index ≤ bytes
      → Written base buffer index bytes value m index m
  Written-done index value m zeroed le = record {
    grows = omega arith;
    fits = le;
    denotes =
        (let e : index - index ≡ 0 = omega arith in
          ap (low base (λ k. m (buffer + index + k))) e ∙ sym zeroed);
    nonzero = λ k lo hi. absurd (omega arith);
    same = λ a out. refl;
  }

  div-lt_pow : (value k : ℕ) → value < base ^ suc k → value / base < base ^ k
  div-lt_pow value k h =
      (div-lt_iff_lt-mul {k = base} (omega arith)).1 (omega (arith, pow-suc base k))

  half-lt : (value fuel : ℕ) → value < 2 ^ suc fuel → value ≢ 0 → value / base < 2 ^ fuel
  half-lt value fuel h ne =
      (div-lt_iff_lt-mul {k = base} (omega arith)).1 (grind (arith, pow-suc 2 fuel))

  -- Halving bounds the rounds, and the slots that are left bound the digits.
  digits_loop-Written :
      (fuel value index slots : ℕ) (m : Memory)
      → value < 2 ^ fuel
      → value < base ^ slots
      → index + slots ≡ bytes
      → (j : ℕ) × (m' : Memory) × (digits_loop (suc fuel) base bytes buffer value index m
          ≡ some (j, m'))
        × Written base buffer index bytes value m j m'
  unfolding digits_loop
  digits_loop-Written zero value index slots m small room e =
      let zeroed : value ≡ 0 = omega arith in
      (index, m, rw zeroed, Written-done index value m zeroed (omega arith))
  digits_loop-Written (suc fuel) value index zero m small room e =
      let one : base ^ 0 ≡ 1 = pow-zero base in
      let zeroed : value ≡ 0 = omega (arith, one) in
      (index, m, rw zeroed, Written-done index value m zeroed (omega arith))
  digits_loop-Written (suc fuel) value index (suc slots) m small room e =
      elim (Bool-cases (value == 0)) [
        | inl zeroed ↦
            (index, m, rw zeroed, Written-done index value m (==→eq value 0 zeroed) (omega arith))
        | inr more ↦ elim (Bool-cases (leb bytes (index + 1))) [
          | inl full ↦ (
            index + 1,
            written,
            rw (more, full),
            Written-next index value (index + 1) m written
                (Written-done (index + 1) (value / base) written (last full) (omega arith)),
          )
          | inr free ↦
              let (j, m', run, w) =
                digits_loop-Written fuel (value / base) (index + 1) slots written
                  (half-lt value fuel small (==→ne value 0 more)) (div-lt_pow value slots room)
                  (omega arith) in
              (j, m', rw (more, free) run, Written-next index value j m m' w)
        ]
      ]
    where
      written : Memory
      written = store m (buffer + index) (digit_char (value % base))

      last : leb bytes (index + 1) ≡ true → value / base ≡ 0
      last full =
          let none_left : slots ≡ 0 = ground arith in
          let one : base ^ slots ≡ 1 = rw none_left (pow-zero base) in
          omega (arith, div-lt_pow value slots room, one)

-- The text at `buffer` in `m'`: at most `buffer_bytes - 1` digits and a terminator, which denote
-- `value`; nothing outside the buffer is written.
pub record Shows (base buffer buffer_bytes value : ℕ) (m m' : Memory) : Type 0 where
  pub digits : ℕ
  pub terminated : HasLength (string_at m' buffer) digits
  pub fits : digits < buffer_bytes
  pub denotes : decode base (string_at m' buffer) digits ≡ value
  pub frame : (a : ℕ) → (a < buffer) ⊎ (buffer + buffer_bytes ≤ a) → m' a ≡ m a

Shows-finish :
    (base buffer buffer_bytes value : ℕ) (m : Memory) (j : ℕ) (m' : Memory)
    → 1 < buffer_bytes
    → Written base buffer 0 (buffer_bytes - 1) value m j m'
    → Shows base buffer buffer_bytes value m (store (reverse_loop j buffer 0 j m') (buffer + j) 0)
Shows-finish base buffer buffer_bytes value m j m' big w = record {
  digits = j;
  terminated = record {
    ends = store_self (reverse_loop j buffer 0 j m') (buffer + j) 0;
    before = λ i lt. rw (text i lt) (w.nonzero (j - 1 - i) (omega arith) (omega arith));
  };
  fits = omega (arith, w.fits);
  denotes =
      decode-low base j (λ k. m' (buffer + 0 + k)) _ (λ k lt. text k lt ∙ ap m' (omega arith))
      ∙ ap (low base (λ k. m' (buffer + 0 + k))) whole
      ∙ w.denotes;
  frame = λ a out. ground (arith, reverse_loop-mirrored j buffer 0 j m' a, w.fits, w.same a);
}
  where
    text :
        (i : ℕ)
        → i < j
        → store (reverse_loop j buffer 0 j m') (buffer + j) 0 (buffer + i)
          ≡ m' (buffer + (j - 1 - i))
    text i lt = ground (arith, reverse_loop-mirrored j buffer 0 j m' (buffer + i))

    whole : j ≡ j - 0
    whole = omega arith

-- Of a value below 2 ^ `fuel` in a base from 2 to 16, with room for its digits and a terminator,
-- `num_to_string` writes a terminated text that denotes the value when read in that base, and
-- writes nothing outside the buffer.
pub num_to_string-Shows :
    (fuel value buffer buffer_bytes base : ℕ) (m : Memory)
    → 2 ≤ base
    → base ≤ 16
    → 1 < buffer_bytes
    → value < 2 ^ fuel
    → value < base ^ (buffer_bytes - 1)
    → (m' : Memory) × (num_to_string (suc fuel) value buffer buffer_bytes base m ≡ some m')
      × Shows base buffer buffer_bytes value m m'
unfolding num_to_string
num_to_string-Shows fuel value buffer buffer_bytes base m two sixteen big small room =
    elim (Bool-cases (value == 0)) [
      | inl zeroed ↦ (
        store (store m buffer b'0') (buffer + 1) 0,
        rw zeroed,
        record {
          digits = 1;
          terminated = record { ends = ground arith; before = λ i lt. ground arith };
          fits = big;
          denotes = ground arith;
          frame = λ a out. ground arith;
        },
      )
      | inr more ↦
          let (j, m', run, w) =
            digits_loop-Written base (buffer_bytes - 1) buffer two fuel value 0 (buffer_bytes - 1) m
              small room (omega arith) in
          (
            store (reverse_loop j buffer 0 j m') (buffer + j) 0,
            rw (more, run),
            Shows-finish base buffer buffer_bytes value m j m' big w,
          )
    ]
