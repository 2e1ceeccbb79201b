-- ===== src/Filesystem/Paths/Sanatise.antt =====
-- `vfs_sanatise_path` of vfs.c against a description of the text it leaves.
use mathlib.Core.List.{append_assoc}
use ga_os.Base.{
  ℕ, zero, suc, ◌+◌, ◌-◌, ◌<◌, ◌≡◌, refl, ◌≢◌, inl, inr, arith, ◌==◌, if◌then◌else◌, Bool-cases,
  ne→==, ap, ◌∙◌, sym, List, [], ◌∷◌, ◌++◌, length, length-append, get_or, some, Option, ◌&&◌, ltb,
  true,
}
use ga_os.Filesystem.Paths.{int_limit, shift_left, sanatise_from, vfs_sanatise_path}

-- The bytes of a text before its terminator.
abbrev pub IsText : List ℕ → Type 0
IsText [] = Unit {0}
IsText (x ∷ xs) = (x ≢ 0) × IsText xs

-- What stays of a text behind the byte `prev`: a delimiter goes if it follows one.
abbrev pub squeeze : ℕ → List ℕ → List ℕ
squeeze prev [] = []
squeeze prev (x ∷ xs) =
    let removed = squeeze prev xs in
    let kept = x ∷ squeeze x xs in if (prev == b'/') && (x == b'/') then removed else kept

abbrev pub squeezed : List ℕ → List ℕ
squeezed [] = []
squeezed (x ∷ xs) = x ∷ squeeze x xs

get_or-middle :
    (pre : List ℕ) (x : ℕ) (post : List ℕ) (i : ℕ)
    → i ≡ length pre
    → get_or (pre ++ x ∷ post) i 0 ≡ x
get_or-middle [] x post i e = rw e
get_or-middle (y ∷ pre) x post zero e = absurd (omega arith)
get_or-middle (y ∷ pre) x post (suc i) e = get_or-middle pre x post i (omega arith)

get_or-end : (pre : List ℕ) (i : ℕ) → i ≡ length pre → get_or pre i 0 ≡ 0
get_or-end [] zero e = refl
get_or-end [] (suc i) e = refl
get_or-end (y ∷ pre) zero e = absurd (omega arith)
get_or-end (y ∷ pre) (suc i) e = get_or-end pre i (omega arith)

shift_left-middle :
    (pre : List ℕ) (x : ℕ) (post : List ℕ) (i : ℕ)
    → i ≡ length pre
    → shift_left i (pre ++ x ∷ post) ≡ pre ++ post
unfolding shift_left
shift_left-middle [] x post i e = rw e
shift_left-middle (y ∷ pre) x post zero e = absurd (omega arith)
shift_left-middle (y ∷ pre) x post (suc i) e =
    ap (λ l. y ∷ l) (shift_left-middle pre x post i (omega arith))

some_pair :
    {a b : ℕ} {xs ys : List ℕ}
    → a ≡ b
    → xs ≡ ys
    → ◌≡◌ {A = Option (ℕ × List ℕ)} (some (a, xs)) (some (b, ys))
some_pair e f = cc

-- The loop in the middle of a path: `pre` and `prev` are done, `rest` is to come.
sanatise_from-squeeze :
    (fuel : ℕ) (pre : List ℕ) (prev : ℕ) (rest : List ℕ) (index : ℕ)
    → index ≡ length pre + 1
    → IsText rest
    → length rest < fuel
    → index + length rest < int_limit
    → sanatise_from fuel index (pre ++ prev ∷ rest)
      ≡ some (index + length (squeeze prev rest), pre ++ prev ∷ squeeze prev rest)
unfolding sanatise_from
sanatise_from-squeeze zero pre prev rest index place t lt short = absurd (omega arith)
sanatise_from-squeeze (suc fuel) pre prev [] index place t lt short =
    let stop : get_or (pre ++ prev ∷ []) index 0 ≡ 0 =
      get_or-end (pre ++ prev ∷ []) index (omega (arith, length-append pre (prev ∷ []))) in
    rw stop (some_pair (omega arith) refl)
sanatise_from-squeeze (suc fuel) pre prev (x ∷ xs) index place t lt short =
    let done : List ℕ = pre ++ prev ∷ [] in
    let regroup : pre ++ prev ∷ x ∷ xs ≡ done ++ x ∷ xs =
      sym (append_assoc pre (prev ∷ []) (x ∷ xs)) in
    let size : index ≡ length done = omega (arith, length-append pre (prev ∷ [])) in
    let inner : ltb (length (pre ++ prev ∷ x ∷ xs)) int_limit ≡ true =
      ground (arith, length-append pre (prev ∷ x ∷ xs), place, short) in
    let outer : ltb (index + 1) int_limit ≡ true = ground arith in
    let this : get_or (pre ++ prev ∷ x ∷ xs) index 0 ≡ x =
      ap (λ l. get_or l index 0) regroup ∙ get_or-middle done x xs index size in
    let before : get_or (pre ++ prev ∷ x ∷ xs) (index - 1) 0 ≡ prev =
      get_or-middle pre prev (x ∷ xs) (index - 1) (omega arith) in
    let removed =
      ap (sanatise_from fuel index) (
        ap (shift_left index) regroup
        ∙ shift_left-middle done x xs index size
        ∙ append_assoc pre (prev ∷ []) xs)
      ∙ sanatise_from-squeeze fuel pre prev xs index place t.1 (omega arith) (omega arith) in
    let kept =
      ap (sanatise_from fuel (index + 1)) regroup
      ∙ sanatise_from-squeeze fuel done x xs (index + 1) (omega arith) t.1 (omega arith)
          (omega arith)
      ∙ some_pair (omega arith) (append_assoc pre (prev ∷ []) (x ∷ squeeze x xs)) in
    rw (this, before, inner, outer, ne→== x 0 t.0)
      (elim (Bool-cases ((prev == b'/') && (x == b'/'))) [
        | inl double ↦ rw double removed
        | inr single ↦ rw single kept
      ])

abbrev pub NoDouble : ℕ → List ℕ → Type 0
NoDouble prev [] = Unit {0}
NoDouble prev (x ∷ xs) = ¬ ((prev ≡ b'/') × (x ≡ b'/')) × NoDouble x xs

squeeze-NoDouble : (prev : ℕ) (xs : List ℕ) → NoDouble prev (squeeze prev xs)
squeeze-NoDouble prev [] = tt
squeeze-NoDouble prev (x ∷ xs) = elim (Bool-cases ((prev == b'/') && (x == b'/'))) [
  | inl double ↦ rw double (squeeze-NoDouble prev xs)
  | inr single ↦ rw single ((λ both. ground arith), squeeze-NoDouble x xs)
]

-- No two delimiters in a row.
abbrev pub IsSanatised : List ℕ → Type 0
IsSanatised [] = Unit {0}
IsSanatised (x ∷ xs) = NoDouble x xs

-- On a text of fewer than 2 ^ 31 bytes, which an `int` counts, and with a round for each byte and one more,
-- `vfs_sanatise_path` leaves the text without those delimiters that follow a delimiter, so that no two stand in
-- a row, and returns its length.
pub vfs_sanatise_path-squeezed :
    (fuel : ℕ) (path : List ℕ)
    → IsText path
    → length path < fuel
    → length path < int_limit
    → (vfs_sanatise_path fuel path ≡ some (length (squeezed path), squeezed path))
      × IsSanatised (squeezed path)
unfolding vfs_sanatise_path
vfs_sanatise_path-squeezed fuel [] t lt short = (refl, tt)
vfs_sanatise_path-squeezed fuel (x ∷ xs) t lt short = (
  rw (ne→== x 0 t.0) (
      sanatise_from-squeeze fuel [] x xs 1 refl t.1 (omega arith) (omega arith)
      ∙ some_pair (omega arith) refl),
  squeeze-NoDouble x xs,
)
