-- ===== src/Libc/Memory/Moves.antt =====
-- What `memcpy`, `memmove` and `memset` leave in memory.
use ga_os.Base.{
  ℕ, zero, suc, ◌+◌, ◌-◌, ◌%◌, ◌≤◌, ◌≡◌, ◌⊎◌, ◌<◌, refl, arith, ltb, leb, ◌&&◌, if◌then◌else◌,
}
use ga_os.Libc.Memory.{Memory, store, copy_up, copy_down, memcpy, memmove, fill_up, memset}

-- The memory in which the `n` bytes from `dest` on are those that `m` has from `src` on.
abbrev pub moved : Memory → ℕ → ℕ → ℕ → Memory
moved m dest src n a = if leb dest a && ltb a (dest + n) then m (src + (a - dest)) else m a

copy_up_lem :
    (k i dest src : ℕ) (m : Memory) (a : ℕ)
    → (dest ≤ src) ⊎ (src + (i + k) ≤ dest)
    → copy_up k i dest src m a
      ≡ (if leb (dest + i) a && ltb a (dest + (i + k)) then m (src + (a - dest)) else m a)
unfolding copy_up
copy_up_lem zero i dest src m a h = ground arith
copy_up_lem (suc k) i dest src m a h =
    ground (arith, copy_up_lem k (i + 1) dest src (store m (dest + i) (m (src + i))) a)

copy_down_lem :
    (n dest src : ℕ) (m : Memory) (a : ℕ)
    → src ≤ dest
    → copy_down n dest src m a ≡ moved m dest src n a
unfolding copy_down
copy_down_lem zero dest src m a h = ground arith
copy_down_lem (suc i) dest src m a h =
    ground (arith, copy_down_lem i dest src (store m (dest + i) (m (src + i))) a h)

fill_up_lem :
    (k i s c : ℕ) (m : Memory) (a : ℕ)
    → fill_up k i s c m a ≡ (if leb (s + i) a && ltb a (s + (i + k)) then c % 256 else m a)
unfolding fill_up
fill_up_lem zero i s c m a = ground arith
fill_up_lem (suc k) i s c m a =
    ground (arith, fill_up_lem k (i + 1) s c (store m (s + i) (c % 256)) a)

-- `memcpy` copies the block when the destination does not begin inside the source: it lies at or
-- below the source, or behind its end. Every other byte of memory keeps its value.
pub memcpy-moved :
    (dest src n : ℕ) (m : Memory) (a : ℕ)
    → (dest ≤ src) ⊎ (src + n ≤ dest)
    → memcpy dest src n m a ≡ moved m dest src n a
unfolding memcpy
memcpy-moved dest src n m a h = ground (arith, copy_up_lem n 0 dest src m a)

-- `memmove` copies the block however the two ranges overlap, and every other byte of memory keeps
-- its value.
pub memmove-moved :
    (dest src n : ℕ) (m : Memory) (a : ℕ) → memmove dest src n m a ≡ moved m dest src n a
unfolding memmove
memmove-moved dest src n m a =
    ground (arith, copy_up_lem n 0 dest src m a, copy_down_lem n dest src m a)

-- `memset` writes the low byte of `c` to the `n` bytes from `s` on, and to no other.
pub memset_lem :
    (s c n : ℕ) (m : Memory) (a : ℕ)
    → memset s c n m a ≡ (if leb s a && ltb a (s + n) then c % 256 else m a)
unfolding memset
memset_lem s c n m a = ground (arith, fill_up_lem n 0 s c m a)

copy_up-outside :
    (k i dest src : ℕ) (m : Memory) (a : ℕ)
    → (a < dest) ⊎ (dest + (i + k) ≤ a)
    → copy_up k i dest src m a ≡ m a
unfolding copy_up
copy_up-outside zero i dest src m a h = refl
copy_up-outside (suc k) i dest src m a h =
    ground (
      arith,
      copy_up-outside k (i + 1) dest src (store m (dest + i) (m (src + i))) a (ground arith),
    )

-- Whatever the overlap, `memcpy` changes nothing outside its destination.
pub memcpy-outside :
    (dest src n : ℕ) (m : Memory) (a : ℕ)
    → (a < dest) ⊎ (dest + n ≤ a)
    → memcpy dest src n m a ≡ m a
unfolding memcpy
memcpy-outside dest src n m a h = copy_up-outside n 0 dest src m a (ground arith)
