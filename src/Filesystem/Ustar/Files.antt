-- ===== src/Filesystem/Ustar/Files.antt =====
-- Opening, reading and seeking in files of the archive.
use ga_os.Base.{
  ℕ, ◌+◌, ◌-◌, ◌^◌, ◌≤◌, ◌<◌, ◌≡◌, refl, ◌⊎◌, inl, inr, List, [], ◌∷◌, arith, length, ==→eq, ◌==◌,
  if◌then◌else◌, Bool-cases, false, bit_and, some, min as least, ◌↔◌,
}
use ga_os.Base.Int.{pos}
use ga_os.Libc.Memory.{Memory}
use ga_os.Libc.Memory.Moves.{moved, memcpy-moved}
use ga_os.Libc.Strings.{CString, HasLength, string_at}
use ga_os.Libc.Strings.Prefix.{starts}
use ga_os.Libc.Integers.{min-least}
use ga_os.Filesystem.Errors.{enoent, eacces, einval, o_wronly}
use ga_os.Filesystem.Node.{Node, Opened, node, error}
use ga_os.Filesystem.Ustar.{
  UstarNode, Search, found, missing, out_of_fuel, prefix, parse_size_of, ustar_open, ustar_read,
  ustar_lseek, tar_block_size,
}
use ga_os.Filesystem.Ustar.Archive.{IsArchive, first_match, ustar_open_header-first}

-- What `ustar_open` returns for the header that the path leads to.
abbrev pub opened : Memory → CString → ℕ → ℕ → Search → Opened UstarNode
opened m path n mode out_of_fuel = error enoent
opened m path n mode missing = error enoent
opened m path n mode (found header) = node (record {
  vfs_header = record {
    path = prefix n path;
    mode = mode;
    seek_position = 0;
    max_seek_position = parse_size_of m header;
    is_device = false;
  };
  ustar_header = header;
})

first_match_total :
    (m : Memory) (path : CString) (n : ℕ) (es : List ℕ)
    → (first_match m path n es ≡ missing)
      ⊎ ((header : ℕ) × (first_match m path n es ≡ found header))
first_match_total m path n [] = inl refl
first_match_total m path n (e ∷ es) = elim (Bool-cases (starts path (string_at m (e + 2)) n)) [
  | inl here ↦ inr (e, rw here)
  | inr past ↦ rw past (first_match_total m path n es)
]

pub ustar_open-opened :
    (fuel : ℕ) (m : Memory) (initrd : ℕ) (path : CString) (n mode : ℕ) (es : List ℕ)
    → HasLength path n
    → IsArchive m (initrd + tar_block_size) es
    → length es < fuel
    → ustar_open fuel m initrd path n mode
      ≡ some (
          if bit_and mode o_wronly == 0
          then opened m path n mode (first_match m path n es)
          else error eacces)
unfolding ustar_open
ustar_open-opened fuel m initrd path n mode es h a lt =
    let search = ustar_open_header-first fuel m initrd path n es h a lt in
    elim (first_match_total m path n es) [
      | inl no_file ↦ ground (arith, search, no_file)
      | inr (header, file) ↦ ground (arith, search, file)
    ]

module _ (m : Memory) (n : UstarNode) (buffer size : ℕ) where
  abbrev seek : ℕ
  seek = n.vfs_header.seek_position

  abbrev file_size : ℕ
  file_size = parse_size_of m n.ustar_header

  -- A read at or behind the end of the file gives EINVAL and changes nothing.
  pub ustar_read_end : file_size ≤ seek → ustar_read m n buffer size ≡ (einval, n, m)
  unfolding ustar_read
  ustar_read_end h = ground arith

  -- Sizes below 2 ^ 31, and a buffer that does not begin inside the bytes that are read: a read
  -- before the end of the file returns the smaller of the size asked for and the file's size, copies
  -- that many bytes of the contents from the seek position on, and moves the position behind them.
  pub ustar_read_middle :
      (a : ℕ)
      → seek < file_size
      → file_size < 2 ^ 31
      → size < 2 ^ 31
      → (buffer ≤ n.ustar_header + tar_block_size + seek)
        ⊎ (n.ustar_header + tar_block_size + seek + least file_size size ≤ buffer)
      → ((ustar_read m n buffer size).0 ≡ pos (least file_size size))
        × ((ustar_read m n buffer size).1.vfs_header.seek_position ≡ seek + least file_size size)
        × ((ustar_read m n buffer size).2 a
            ≡ moved m buffer (n.ustar_header + tar_block_size + seek) (least file_size size) a)
  unfolding ustar_read
  ustar_read_middle a before small few apart = ground (
    arith,
    min-least file_size size small few,
    memcpy-moved buffer (n.ustar_header + tar_block_size + seek) (least file_size size) m a,
  )

  position_read :
      seek < file_size
      → file_size < 2 ^ 31
      → size < 2 ^ 31
      → (ustar_read m n buffer size).1.vfs_header.seek_position ≡ seek + least file_size size
  unfolding ustar_read
  position_read before small few = ground (arith, min-least file_size size small few)

  -- Sizes below 2 ^ 31: a read before the end of the file stays inside the file exactly when it
  -- begins at the start or asks for no more than what is left.
  pub ustar_read_inside :
      seek < file_size
      → file_size < 2 ^ 31
      → size < 2 ^ 31
      → ((ustar_read m n buffer size).1.vfs_header.seek_position ≤ file_size)
        ↔ ((seek ≡ 0) ⊎ (size ≤ file_size - seek))
  ustar_read_inside before small few =
      let position = position_read before small few in
      (
        λ stays. elim (Bool-cases (seek == 0)) [
          | inl start ↦ inl (==→eq _ 0 start)
          | inr past ↦ inr (ground (arith, position))
        ],
        λ asked. ground (arith, position),
      )

-- Whatever is asked for, the position is never behind the last one of the node, and it is the
-- position that is returned.
pub ustar_lseek_bounds :
    (n : Node) (offset whence : ℕ)
    → ((ustar_lseek n offset whence).0 ≤ n.max_seek_position)
      × ((ustar_lseek n offset whence).1
          ≡ record n { seek_position = (ustar_lseek n offset whence).0 })
unfolding ustar_lseek
ustar_lseek_bounds n offset whence = (ground arith, refl)
