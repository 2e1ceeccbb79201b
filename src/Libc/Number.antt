-- ===== src/Libc/Number.antt =====
-- `num_to_string` of kernel/src/misc/libc.c, which `printk` uses for %d, %x and %p.
pub mod Digits
use ga_os.Base.{ℕ, zero, suc, ◌+◌, ◌-◌, ◌/◌, ◌%◌, Option, none, some, ◌==◌, ltb, leb, if◌then◌else◌}
use ga_os.Libc.Memory.{Memory, store}
use ga_os.Libc.Strings.{reverse_loop}

-- "0123456789ABCDEF"[d]
unfoldable pub digit_char : ℕ → ℕ
digit_char d = if ltb d 10 then b'0' + d else b'A' + (d - 10)

-- while (value) { digit = value % base; value /= base; buffer[buffer_index++] = digits[digit];
-- if (buffer_index >= buffer_bytes) break; } with fuel.
unfoldable pub digits_loop : ℕ → ℕ → ℕ → ℕ → ℕ → ℕ → Memory → Option (ℕ × Memory)
digits_loop zero base bytes buffer value index m = none
digits_loop (suc fuel) base bytes buffer value index m =
    let written = store m (buffer + index) (digit_char (value % base)) in
    let rest = digits_loop fuel base bytes buffer (value / base) (index + 1) written in
    if value == 0
    then some (index, m)
    else if leb bytes (index + 1)
    then some (index + 1, written)
    else rest

-- What follows the loop: reverse the digits in place and terminate them.
abbrev finish : ℕ → ℕ × Memory → Memory
finish buffer (index, m) = store (reverse_loop index buffer 0 index m) (buffer + index) 0

unfoldable pub num_to_string : ℕ → ℕ → ℕ → ℕ → ℕ → Memory → Option Memory
num_to_string fuel value buffer buffer_bytes base m =
    if value == 0
    then some (store (store m buffer b'0') (buffer + 1) 0)
    else elim (digits_loop fuel base (buffer_bytes - 1) buffer value 0 m) [
      | none ↦ none
      | some r ↦ some (finish buffer r)
    ]
