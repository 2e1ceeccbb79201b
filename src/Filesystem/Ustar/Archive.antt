-- ===== src/Filesystem/Ustar/Archive.antt =====
-- `ustar_open_header` of ustar.c: looking a path up in the archive.
use ga_os.Base.{
  ℕ, zero, suc, ◌+◌, ◌<◌, ◌≡◌, ◌≢◌, List, [], ◌∷◌, arith, length, if◌then◌else◌, ne→==,
}
use ga_os.Libc.Memory.{Memory}
use ga_os.Libc.Strings.{CString, string_at, HasLength}
use ga_os.Libc.Strings.Prefix.{starts, strncmp-starts}
use ga_os.Filesystem.Ustar.{
  real_size, Search, found, missing, open_header_from, ustar_open_header, tar_block_size,
}

-- The headers of the archive from `header` on, up to the first with an empty name.
abbrev pub IsArchive : Memory → ℕ → List ℕ → Type 0
IsArchive m header [] = m header ≡ 0
IsArchive m header (e ∷ es) =
    (e ≡ header) × (m header ≢ 0) × IsArchive m (header + real_size m header) es

-- The first header whose name, behind its "./", begins with the path.
abbrev pub first_match : Memory → CString → ℕ → List ℕ → Search
first_match m path n [] = missing
first_match m path n (e ∷ es) =
    let rest = first_match m path n es in
    if starts path (string_at m (e + 2)) n then found e else rest

open_header_from-first :
    (fuel : ℕ) (m : Memory) (path : CString) (n header : ℕ) (es : List ℕ)
    → HasLength path n
    → IsArchive m header es
    → length es < fuel
    → open_header_from fuel m path n header ≡ first_match m path n es
unfolding open_header_from
open_header_from-first zero m path n header es h a lt = absurd (omega arith)
open_header_from-first (suc fuel) m path n header [] h a lt = rw a
open_header_from-first (suc fuel) m path n header (e ∷ es) h (here, more, rest) lt =
    let ih =
      open_header_from-first fuel m path n (header + real_size m header) es h rest (omega arith) in
    rw (
      here,
      ne→== (m header) 0 more,
      strncmp-starts n n path (string_at m (header + 2)) h (omega arith),
      ih,
    )

-- In an archive with the headers `es` and a path of length `n`, `ustar_open_header` finds the first
-- header whose name begins with the path, or reports that there is none; one round for each header
-- and one for the end are enough.
pub ustar_open_header-first :
    (fuel : ℕ) (m : Memory) (initrd : ℕ) (path : CString) (n : ℕ) (es : List ℕ)
    → HasLength path n
    → IsArchive m (initrd + tar_block_size) es
    → length es < fuel
    → ustar_open_header fuel m initrd path n ≡ first_match m path n es
unfolding ustar_open_header
ustar_open_header-first fuel m initrd path n es h a lt =
    open_header_from-first fuel m path n (initrd + tar_block_size) es h a lt
