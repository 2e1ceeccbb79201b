-- ===== src/Filesystem/Paths/Split.antt =====
-- `vfs_basename` and `vfs_dirname` of vfs.c: where a path is split.
use ga_os.Base.{
  ℕ, zero, ◌+◌, ◌-◌, ◌^◌, ◌≤◌, ◌<◌, ◌≡◌, refl, ◌≢◌, ◌⊎◌, inl, inr, arith, ◌==◌, Bool-cases, ==→eq,
  ==→ne, min as least, ap, suc,
}
use ga_os.Libc.Memory.{Memory}
use ga_os.Libc.Memory.Moves.{moved, memcpy-moved}
use ga_os.Libc.Strings.{CString, string_at, HasLength}
use ga_os.Libc.Integers.{min-least}
use ga_os.Filesystem.Paths.{back_to_delimiter, base_offset, dir_offset, vfs_basename, vfs_dirname}

-- No delimiter stands from offset `i` up to `n`.
abbrev pub NoDelimiter : CString → ℕ → ℕ → Type 0
NoDelimiter s i n = (k : ℕ) → i ≤ k → k < n → s k ≢ b'/'

-- The walk ends at offset 0 or at a delimiter, and passes none.
record IsBack (s : CString) (n offset : ℕ) : Type 0 where
  inside : offset ≤ n
  stops : (offset ≡ 0) ⊎ (s offset ≡ b'/')
  passed : (k : ℕ) → offset < k → k ≤ n → s k ≢ b'/'

back_to_delimiter-IsBack : (s : CString) (n : ℕ) → IsBack s n (back_to_delimiter s n)
unfolding back_to_delimiter
back_to_delimiter-IsBack s zero = record {
  inside = omega arith;
  stops = inl refl;
  passed = λ k lo hi. absurd (omega arith);
}
back_to_delimiter-IsBack s (suc n) = elim (Bool-cases (s (suc n) == b'/')) [
  | inl here ↦ rw here (record {
    inside = omega arith;
    stops = inr (==→eq _ _ here);
    passed = λ k lo hi. absurd (omega arith);
  })
  | inr past ↦
      let ih = back_to_delimiter-IsBack s n in
      rw past (record {
        inside = omega (arith, ih.inside);
        stops = ih.stops;
        passed = λ k lo hi. elim (Bool-cases (k == suc n)) [
          | inl last ↦ rw (==→eq _ _ last) (==→ne _ _ past)
          | inr before ↦ ih.passed k lo (ground arith)
        ];
      })
]

-- How a path of length `n` splits: the base name runs from `base` to the end and holds no
-- delimiter. The directory name runs up to `dir`, with one delimiter between the two, or the path
-- holds no delimiter, the directory name is empty and the base name is the path.
pub record IsSplit (s : CString) (n dir base : ℕ) : Type 0 where
  pub inside : base ≤ n
  pub name : NoDelimiter s base n
  pub joint : ((base ≡ dir + 1) × (s dir ≡ b'/')) ⊎ ((base ≡ 0) × (dir ≡ 0))

-- The base name and the directory name of a path of length `n` split it at its last delimiter.
pub base_offset-IsSplit :
    (s : CString) (n : ℕ) → HasLength s n → IsSplit s n (dir_offset s n) (base_offset s n)
unfolding dir_offset base_offset
base_offset-IsSplit s n h =
    let back = back_to_delimiter-IsBack s n in
    rw (h.ends) (elim (Bool-cases (s (back_to_delimiter s n) == b'/')) [
      | inl slash ↦ rw slash (record {
        inside = omega (arith, back.inside, not_end (==→eq _ _ slash));
        name = λ k lo hi. back.passed k (omega arith) (omega arith);
        joint = inl (refl, ==→eq _ _ slash);
      })
      | inr other ↦
          let start : back_to_delimiter s n ≡ 0 = ground (arith, back.stops) in
          rw other (record {
            inside = omega (arith, start);
            name = λ k lo hi. elim (Bool-cases (k == 0)) [
              | inl first ↦ rw (==→eq _ _ first) (rw start at (==→ne _ _ other))
              | inr later ↦ back.passed k (ground arith) (omega arith)
            ];
            joint = inr (start, start);
          })
    ])
  where
    not_end : s (back_to_delimiter s n) ≡ b'/' → back_to_delimiter s n ≢ n
    not_end slash e = omega (arith, ap s e, h.ends, slash)

module _ (m : Memory) (path n out max_len : ℕ) (text : HasLength (string_at m path) n)
    (short : n < 2 ^ 31) (small : max_len < 2 ^ 31) where
  abbrev dir : ℕ
  dir = dir_offset (string_at m path) n

  abbrev base : ℕ
  base = base_offset (string_at m path) n

  -- For lengths below 2 ^ 31 and a buffer that does not begin inside the bytes that are copied,
  -- `vfs_basename` copies the base name of the path, or as much of it as `max_len` allows, and
  -- writes nothing else, not even a terminator.
  pub vfs_basename-moved :
      (a : ℕ)
      → (out ≤ path + base) ⊎ (path + base + least max_len (n - base) ≤ out)
      → IsSplit (string_at m path) n dir base
        × (vfs_basename m path n out max_len a
            ≡ moved m out (path + base) (least max_len (n - base)) a)
  unfolding vfs_basename
  vfs_basename-moved a apart = (
    base_offset-IsSplit (string_at m path) n text,
    ground (
      arith,
      min-least max_len (n - base) small (omega arith),
      memcpy-moved out (path + base) (least max_len (n - base)) m a,
    ),
  )

  -- The same of `vfs_dirname` and the directory name, which stands at the start of the path.
  pub vfs_dirname-moved :
      (a : ℕ)
      → (out ≤ path) ⊎ (path + least max_len dir ≤ out)
      → IsSplit (string_at m path) n dir base
        × (vfs_dirname m path n out max_len a ≡ moved m out path (least max_len dir) a)
  unfolding vfs_dirname
  vfs_dirname-moved a apart =
      let split = base_offset-IsSplit (string_at m path) n text in
      (
        split,
        ground (
          arith,
          min-least max_len dir small (omega (arith, split.inside, split.joint)),
          memcpy-moved out path (least max_len dir) m a,
        ),
      )

-- A path that ends in a delimiter has all that stands before it as its directory name, and an empty
-- base name: the test for a folder looks at the terminator and never succeeds.
pub dir_offset_folder :
    (s : CString) (n : ℕ)
    → HasLength s (suc n)
    → s n ≡ b'/'
    → (dir_offset s (suc n) ≡ n) × (base_offset s (suc n) ≡ suc n)
unfolding dir_offset base_offset back_to_delimiter
dir_offset_folder s zero h slash = (ground (arith, h.ends), ground (arith, h.ends))
dir_offset_folder s (suc n) h slash = (ground (arith, h.ends), ground (arith, h.ends))
