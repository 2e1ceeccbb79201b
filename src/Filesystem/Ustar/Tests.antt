-- ===== src/Filesystem/Ustar/Tests.antt =====
-- An archive with one file.
use ga_os.Base.{
  ◌+◌, ◌≡◌, refl, ◌==◌, if◌then◌else◌, leb, ltb, ◌&&◌, arith, false, some, [], ◌∷◌, bit_and,
}
use ga_os.Libc.Memory.{Memory}
use ga_os.Libc.Strings.{CString, HasLength}
use ga_os.Filesystem.Errors.{eacces, o_wronly}
use ga_os.Filesystem.Node.{node, error}
use ga_os.Filesystem.Ustar.{
  UstarNode, prefix, parse_size, parse_size_of, size_step, size_field, real_size, ustar_open,
  tar_block_size,
}
use ga_os.Filesystem.Ustar.Archive.{IsArchive, first_match}
use ga_os.Filesystem.Ustar.Copies.{ustar_dup, copied, at_position, ustar_dup-ustar_open}
use ga_os.Filesystem.Ustar.Files.{opened, ustar_open-opened}

-- "./ab" of five bytes, behind the first block.
abbrev archive : Memory
archive a =
    if a == 512
    then b'.'
    else if a == 513
    then b'/'
    else if a == 514
    then b'a'
    else if a == 515
    then b'b'
    else if leb 636 a && ltb a 646
    then b'0'
    else if a == 646
    then b'5'
    else if leb 1024 a && ltb a 1029
    then b'x'
    else 0

abbrev path_a : CString
path_a i = if i == 0 then b'a' else 0

path_a-HasLength : HasLength path_a 1
path_a-HasLength = record { ends = refl; before = λ i lt. ground arith }

size_five : parse_size_of archive 512 ≡ 5
unfolding parse_size_of parse_size size_step size_field
size_five = refl

archive_size : real_size archive 512 ≡ 1024
unfolding real_size
archive_size = rw size_five refl

archive-IsArchive : IsArchive archive (0 + tar_block_size) (512 ∷ [])
archive-IsArchive = (refl, omega arith, rw archive_size refl)

abbrev at_start : UstarNode
at_start = record {
  vfs_header = record {
    path = b'a' ∷ [];
    mode = 0;
    seek_position = 0;
    max_seek_position = 5;
    is_device = false;
  };
  ustar_header = 512;
}

abbrev at_three : UstarNode
at_three = record at_start { vfs_header = record (at_start.vfs_header) { seek_position = 3 } }

ustar_open-opened_example :
    ustar_open 2 archive 0 path_a 1 0
    ≡ some (
        if bit_and 0 o_wronly == 0
        then opened archive path_a 1 0 (first_match archive path_a 1 (512 ∷ []))
        else error eacces)
ustar_open-opened_example =
    ustar_open-opened 2 archive 0 path_a 1 0 (512 ∷ []) path_a-HasLength archive-IsArchive
      (omega arith)

-- The node that the path leads to.
abbrev file_node : UstarNode
file_node = record at_start {
  vfs_header = record (at_start.vfs_header) { max_seek_position = parse_size_of archive 512 };
}

ustar_open-file : ustar_open 2 archive 0 path_a 1 0 ≡ some (node file_node)
unfolding prefix
ustar_open-file = rw ustar_open-opened_example refl

ustar_dup-ustar_open_example :
    ustar_dup 2 2 archive 0 (λ i. 0) (at_position file_node 3)
    ≡ some (copied (at_position file_node 3))
ustar_dup-ustar_open_example =
    ustar_dup-ustar_open 2 2 archive 0 path_a (λ i. 0) 1 0 3 (512 ∷ []) file_node path_a-HasLength
      (omega arith) archive-IsArchive (omega arith) refl ustar_open-file
