-- ===== src/Filesystem/Errors.antt =====
-- The error numbers of kernel/src/misc/libc.h that the modelled functions return, negated, and the
-- constants of kernel/src/filesystem/vfs.h.
use ga_os.Base.{ℕ}
use ga_os.Base.Int.{ℤ, neg}

abbrev pub eperm : ℤ
eperm = neg 1

abbrev pub enoent : ℤ
enoent = neg 2

abbrev pub ebadf : ℤ
ebadf = neg 9

abbrev pub echild : ℤ
echild = neg 10

abbrev pub eacces : ℤ
eacces = neg 13

abbrev pub efault : ℤ
efault = neg 14

abbrev pub einval : ℤ
einval = neg 22

abbrev pub o_rdonly : ℕ
o_rdonly = 1

abbrev pub o_wronly : ℕ
o_wronly = 2

abbrev pub seek_set : ℕ
seek_set = 0

abbrev pub seek_cur : ℕ
seek_cur = 1

abbrev pub seek_end : ℕ
seek_end = 2
