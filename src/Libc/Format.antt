-- ===== src/Libc/Format.antt =====
-- `vprintk_unsafe` and `vprintk_serial_unsafe` of libc.c: the bytes that are sent to the framebuffer and
-- to the serial port. The format is the list of its bytes before the terminator.
pub mod Digits
use ga_os.Base.{
  ℕ, zero, suc, ◌+◌, ◌%◌, Bool, Option, none, some, List, [], ◌∷◌, ◌++◌, ◌==◌, ◌||◌, if◌then◌else◌,
}
use ga_os.Libc.Memory.{Memory}
use ga_os.Libc.Strings.{strlen}
use ga_os.Libc.Number.{num_to_string}

-- What `va_arg` gives.
pub data Arg : Type 0 where
  number : ℕ → Arg
  text : List ℕ → Arg

-- The `n` bytes of a memory from `p` on.
pub bytes_at : ℕ → Memory → ℕ → List ℕ
bytes_at zero m p = []
bytes_at (suc n) m p = m p ∷ bytes_at n m (p + 1)

-- The text that `num_to_string` leaves in `conversion_buffer` of 32 bytes, for a 64-bit value.
pub conversion : (base value : ℕ) → Option (List ℕ)
conversion base value = elim (num_to_string 65 value 0 32 base (λ a. 0)) [
  | none ↦ none
  | some m ↦ elim (strlen 32 m) [ none ↦ none | some n ↦ some (bytes_at n m 0) ]
]

-- What one conversion sends, or `none` for an argument that is not there or of another kind.
unfoldable pub convert : ℕ → Arg → Option (List ℕ)
convert c (number n) =
    if c == b'd'
    then conversion 10 n
    else if (c == b'x') || (c == b'p')
    then elim (conversion 16 n) [ none ↦ none | some digits ↦ some (b'0' ∷ b'x' ∷ digits) ]
    else if c == b'c'
    then some (n % 256 ∷ [])
    else none
convert c (text s) = if c == b's' then some s else none

-- The characters behind '%' that take an argument.
abbrev pub is_conversion : ℕ → Bool
is_conversion c = (c == b'd') || ((c == b'x') || ((c == b'p') || ((c == b's') || (c == b'c'))))

-- The loop over the format. Behind a '%' that no conversion follows, the loop goes on with the next
-- character.
unfoldable pub format : List ℕ → List Arg → Option (List ℕ)
format [] args = some []
format (c ∷ []) args = if c == b'%' then some [] else some (c ∷ [])
format (c ∷ d ∷ rest) [] =
    let plain = format (d ∷ rest) [] in
    if c == b'%'
    then (if is_conversion d then none else plain)
    else elim plain [ none ↦ none | some sent ↦ some (c ∷ sent) ]
format (c ∷ d ∷ rest) (a ∷ args) =
    let plain = format (d ∷ rest) (a ∷ args) in
    let after = format rest args in
    if c == b'%'
    then (if is_conversion d
        then elim (convert d a) [
          | none ↦ none
          | some first ↦ elim after [ none ↦ none | some sent ↦ some (first ++ sent) ]
        ]
        else plain)
    else elim plain [ none ↦ none | some sent ↦ some (c ∷ sent) ]

unfoldable pub vprintk_unsafe : List ℕ → List Arg → Option (List ℕ)
vprintk_unsafe fmt args = format fmt args

unfoldable pub vprintk_serial_unsafe : List ℕ → List Arg → Option (List ℕ)
vprintk_serial_unsafe fmt args = format fmt args
