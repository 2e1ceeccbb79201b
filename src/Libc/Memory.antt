-- ===== src/Libc/Memory.antt =====
-- `memcpy`, `memset`, `memmove` and `memcmp` of kernel/src/misc/libc.c.
-- Memory is a function from addresses to bytes. A pointer past the end of the address space is
-- undefined in C, so addresses are numbers and pointer sums do not wrap.
pub mod Moves
pub mod Order
use ga_os.Base.{ℕ, zero, suc, ◌+◌, ◌%◌, if◌then◌else◌, ltb, ◌==◌}
use ga_os.Base.Int.{ℤ, pos, negsuc}

-- The bytes of the address space.
abbrev pub Memory : Type 0
Memory = ℕ → ℕ

-- `*(uint8_t *)p = v`
abbrev pub store : Memory → ℕ → ℕ → Memory
store m p v a = if a == p then v else m a

-- for (size_t i = 0; i < n; i++) pdest[i] = psrc[i]; the first argument counts the rounds left.
pub copy_up : ℕ → ℕ → ℕ → ℕ → Memory → Memory
copy_up zero i dest src m = m
copy_up (suc k) i dest src m = copy_up k (i + 1) dest src (store m (dest + i) (m (src + i)))

-- for (size_t i = n; i > 0; i--) pdest[i - 1] = psrc[i - 1];
pub copy_down : ℕ → ℕ → ℕ → Memory → Memory
copy_down zero dest src m = m
copy_down (suc i) dest src m = copy_down i dest src (store m (dest + i) (m (src + i)))

-- The functions return `dest`, which the callers ignore: the model gives the new memory.
pub memcpy : ℕ → ℕ → ℕ → Memory → Memory
unfolding copy_up
memcpy dest src n m = copy_up n 0 dest src m

pub memmove : ℕ → ℕ → ℕ → Memory → Memory
unfolding copy_up copy_down
memmove dest src n m =
    if ltb dest src
    then copy_up n 0 dest src m
    else if ltb src dest
    then copy_down n dest src m
    else m

-- `(uint8_t)c` keeps the low eight bits.
fill_up : ℕ → ℕ → ℕ → ℕ → Memory → Memory
fill_up zero i s c m = m
fill_up (suc k) i s c m = fill_up k (i + 1) s c (store m (s + i) (c % 256))

pub memset : ℕ → ℕ → ℕ → Memory → Memory
unfolding fill_up
memset s c n m = fill_up n 0 s c m

-- The loop of `memcmp` from index `i`, with the rounds left.
pub compare_from : ℕ → ℕ → (ℕ → ℕ) → (ℕ → ℕ) → ℤ
compare_from zero i p1 p2 = pos 0
compare_from (suc k) i p1 p2 =
    let rest = compare_from k (i + 1) p1 p2 in
    if p1 i == p2 i then rest else if ltb (p1 i) (p2 i) then negsuc 0 else pos 1

-- The arguments are the bytes from `s1` on and from `s2` on.
pub memcmp : (ℕ → ℕ) → (ℕ → ℕ) → ℕ → ℤ
unfolding compare_from
memcmp p1 p2 n = compare_from n 0 p1 p2
