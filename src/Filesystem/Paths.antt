-- ===== src/Filesystem/Paths.antt =====
-- `vfs_basename`, `vfs_dirname` and `vfs_sanatise_path` of kernel/src/filesystem/vfs.c.
pub mod Split
pub mod Sanatise
mod Tests
use ga_os.Base.{
  ℕ, zero, suc, ◌+◌, ◌-◌, ◌^◌, ◌&&◌, Option, none, some, List, [], ◌∷◌, ◌==◌, if◌then◌else◌, get_or,
  ltb, length,
}
use ga_os.Libc.Memory.{Memory, memcpy}
use ga_os.Libc.Strings.{CString, string_at}
use ga_os.Libc.Integers.{min}

-- while (offset != 0 && path[offset] != '/') offset--;
pub back_to_delimiter : CString → ℕ → ℕ
back_to_delimiter s zero = 0
back_to_delimiter s (suc k) =
    let rest = back_to_delimiter s k in if s (suc k) == b'/' then suc k else rest

-- Where the base name of a path of length `n` begins.
pub base_offset : CString → ℕ → ℕ
base_offset s n =
    let offset = back_to_delimiter s n in if s offset == b'/' then offset + 1 else offset

-- `n` is `strlen(path)`.
pub vfs_basename : Memory → (path n basename max_len : ℕ) → Memory
vfs_basename m path n basename max_len =
    let start = base_offset (string_at m path) n in
    memcpy basename (path + start) (min max_len (n - start)) m

-- Where the directory name ends: `path[max_offset]` is first the terminator.
pub dir_offset : CString → ℕ → ℕ
dir_offset s n = back_to_delimiter s (if s n == b'/' then n - 1 else n)

pub vfs_dirname : Memory → (path n dirname max_len : ℕ) → Memory
vfs_dirname m path n dirname max_len =
    memcpy dirname path (min max_len (dir_offset (string_at m path) n)) m

-- for (int i = index; path[i] != 0; i++) path[i] = path[i + 1]; on the bytes before the terminator.
unfoldable pub shift_left : ℕ → List ℕ → List ℕ
shift_left index [] = []
shift_left zero (x ∷ xs) = xs
shift_left (suc index) (x ∷ xs) = x ∷ shift_left index xs

-- The values of an `int` that are not negative.
abbrev pub int_limit : ℕ
int_limit = 2 ^ 31

-- The loop of `vfs_sanatise_path` from `index`, on the bytes of the path before its terminator; a
-- read behind them gives the terminator. The result is the length returned and the path left. The
-- inner loop counts its `int i` up to the terminator, and `index` is an `int`: where one of them
-- would overflow the result is `none`.
unfoldable pub sanatise_from : ℕ → ℕ → List ℕ → Option (ℕ × List ℕ)
sanatise_from zero index path = none
sanatise_from (suc fuel) index path =
    let removed = sanatise_from fuel index (shift_left index path) in
    let kept = sanatise_from fuel (index + 1) path in
    if get_or path index 0 == 0
    then some (index, path)
    else if (get_or path (index - 1) 0 == b'/') && (get_or path index 0 == b'/')
    then (if ltb (length path) int_limit then removed else none)
    else if ltb (index + 1) int_limit
    then kept
    else none

unfoldable pub vfs_sanatise_path : ℕ → List ℕ → Option (ℕ × List ℕ)
vfs_sanatise_path fuel path =
    if get_or path 0 0 == 0 then some (0, path) else sanatise_from fuel 1 path
