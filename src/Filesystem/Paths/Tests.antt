-- ===== src/Filesystem/Paths/Tests.antt =====
-- The path "/a/bc".
use ga_os.Base.{◌≡◌, refl, ◌==◌, if◌then◌else◌, arith, some, [], ◌∷◌}
use ga_os.Libc.Memory.{Memory}
use ga_os.Libc.Strings.{CString, HasLength, string_at}
use ga_os.Filesystem.Paths.{vfs_sanatise_path}
use ga_os.Filesystem.Paths.Sanatise.{IsSanatised, vfs_sanatise_path-squeezed}

abbrev nested : Memory
nested i =
    if i == 0
    then b'/'
    else if i == 1
    then b'a'
    else if i == 2
    then b'/'
    else if i == 3
    then b'b'
    else if i == 4
    then b'c'
    else 0

nested-HasLength : HasLength (string_at nested 0) 5
nested-HasLength = record { ends = refl; before = λ i lt. ground arith }

-- The path "/a/".
abbrev folder : CString
folder i = if i == 0 then b'/' else if i == 1 then b'a' else if i == 2 then b'/' else 0

folder-HasLength : HasLength folder 3
folder-HasLength = record { ends = refl; before = λ i lt. ground arith }

vfs_sanatise_path-squeezed_example :
    (vfs_sanatise_path 5 (b'/' ∷ b'/' ∷ b'a' ∷ []) ≡ some (2, b'/' ∷ b'a' ∷ []))
    × IsSanatised (b'/' ∷ b'a' ∷ [])
vfs_sanatise_path-squeezed_example =
    vfs_sanatise_path-squeezed 5 (b'/' ∷ b'/' ∷ b'a' ∷ [])
      (omega arith, (omega arith, (omega arith, tt))) (omega arith) (omega arith)
