-- ===== src/Filesystem/Ustar.antt =====
-- kernel/src/filesystem/ustar.c: the archive in memory, and files opened in it. A header is known by
-- its address; its name stands at offset 0 and its size field at offset 124.
pub mod Size
pub mod Archive
pub mod Files
pub mod Copies
mod Tests
use ga_os.Base.{
  ℕ, zero, suc, ◌+◌, ◌-◌, ◌*◌, ◌/◌, ◌%◌, ◌^◌, bit_and, Bool, true, false, not, ◌||◌, ◌&&◌, Option,
  none, some, List, [], ◌∷◌, ◌==◌, ltb, leb, if◌then◌else◌,
}
use ga_os.Base.Int.{ℤ, pos}
use ga_os.Libc.Memory.{Memory, memcpy}
use ga_os.Libc.Strings.{CString, skip, string_at, strncmp, is_zero}
use ga_os.Libc.Integers.{min}
use ga_os.Filesystem.Errors.{enoent, eacces, einval, o_wronly, seek_set, seek_cur, seek_end}
use ga_os.Filesystem.Node.{Node, Opened, node, error}

abbrev pub tar_block_size : ℕ
tar_block_size = 512

abbrev pub wrap : ℕ → ℕ
wrap n = n % 2 ^ 64

-- A `char`, which is signed, in a `size_t` sum.
abbrev pub extend_char : ℕ → ℕ
extend_char c = if ltb c 128 then c else c + (2 ^ 64 - 256)

-- One round of the loop of `parse_size_of`.
pub size_step : ℕ → ℕ → ℕ
size_step size c =
    if (c == 0) || (c == b' ') then size else wrap (size * 8 + extend_char c + (2 ^ 64 - b'0'))

pub parse_size : ℕ → List ℕ → ℕ
parse_size size [] = size
parse_size size (c ∷ cs) = parse_size (size_step size c) cs

-- `size[i]` to the end of the field, with the characters left.
pub size_field : ℕ → Memory → ℕ → List ℕ
size_field zero m p = []
size_field (suc k) m p = m p ∷ size_field k m (p + 1)

pub parse_size_of : Memory → ℕ → ℕ
parse_size_of m header = parse_size 0 (size_field 12 m (header + 124))

-- The bytes from a header to the next one: header and contents, rounded up to whole blocks.
pub real_size : Memory → ℕ → ℕ
real_size m header =
    let bytes : ℕ = wrap (parse_size_of m header + tar_block_size) in
    if bytes % tar_block_size == 0 then bytes else wrap (bytes + (512 - bytes % tar_block_size))

pub data Search : Type 0 where
  found : ℕ → Search
  missing : Search
  out_of_fuel : Search

-- The loop of `ustar_open_header` from a header on; `path_len` is `strlen(path)`.
pub open_header_from : ℕ → Memory → CString → ℕ → ℕ → Search
open_header_from zero m path path_len header = out_of_fuel
open_header_from (suc fuel) m path path_len header =
    let rest = open_header_from fuel m path path_len (header + real_size m header) in
    if m header == 0
    then missing
    else if is_zero (strncmp path (string_at m (header + 2)) path_len)
    then found header
    else rest

pub ustar_open_header : ℕ → Memory → ℕ → CString → ℕ → Search
ustar_open_header fuel m initrd path path_len =
    open_header_from fuel m path path_len (initrd + tar_block_size)

-- `ustar_node_t`
pub record UstarNode : Type 0 where
  pub vfs_header : Node
  pub ustar_header : ℕ

-- The first `n` bytes of a text.
pub prefix : ℕ → CString → List ℕ
prefix zero s = []
prefix (suc n) s = s 0 ∷ prefix n (skip s 1)

-- `none` is a search that ran out of fuel.
pub ustar_open : ℕ → Memory → ℕ → CString → ℕ → ℕ → Option (Opened UstarNode)
ustar_open fuel m initrd path path_len mode =
    if not (bit_and mode o_wronly == 0)
    then some (error eacces)
    else elim (ustar_open_header fuel m initrd path path_len) [
      | out_of_fuel ↦ none
      | missing ↦ some (error enoent)
      | found header ↦ some (
          node (record {
            vfs_header = record {
              path = prefix path_len path;
              mode = mode;
              seek_position = 0;
              max_seek_position = parse_size_of m header;
              is_device = false;
            };
            ustar_header = header;
          }))
    ]

-- `ustar_read`: the bytes read or a negative error, the node and the memory after it.
pub ustar_read : Memory → UstarNode → ℕ → ℕ → ℤ × UstarNode × Memory
ustar_read m n buffer size =
    let node_size = parse_size_of m n.ustar_header in
    let count = min node_size size in
    let seek = n.vfs_header.seek_position in
    if leb node_size seek then (einval, n, m) else (
      pos count,
      record n { vfs_header = record (n.vfs_header) { seek_position = wrap (seek + count) } },
      memcpy buffer (n.ustar_header + tar_block_size + seek) count m,
    )

-- The position that `whence` asks for; `offset` is the word of a signed number.
pub seek_target : Node → ℕ → ℕ → ℕ
seek_target n offset whence =
    if whence == seek_set
    then offset
    else if whence == seek_cur
    then wrap (n.seek_position + offset)
    else if whence == seek_end
    then wrap (n.max_seek_position + offset)
    else n.seek_position

pub ustar_lseek : Node → ℕ → ℕ → ℕ × Node
ustar_lseek n offset whence =
    let target = seek_target n offset whence in
    let position : ℕ = if ltb n.max_seek_position target then n.max_seek_position else target in
    (position, record n { seek_position = position })
