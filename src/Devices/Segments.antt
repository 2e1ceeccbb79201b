-- ===== src/Devices/Segments.antt =====
-- The first name of a path, as the walks of kernel/src/devices/manager.c cut it off.
use ga_os.Base.{
  ℕ, zero, suc, ◌+◌, ◌-◌, ◌≤◌, ◌<◌, ◌≡◌, ◌≢◌, ◌||◌, refl, arith, true, false, Bool-cases, inl, inr,
  List, [], ◌∷◌, ◌==◌, get_or, length, take, drop, sym, ==→ne,
}
use ga_os.Libc.Strings.{HasLength}
use ga_os.Libc.Strings.Prefix.{strncmp-same}
use ga_os.Devices.{text, dir_len, goes_deeper, create_as_dir, is_named, plain_device}

pub get_or-take : (xs : List ℕ) (n i : ℕ) → i < n → get_or (take n xs) i 0 ≡ get_or xs i 0
get_or-take [] (suc n) i h = refl
get_or-take xs zero i h = absurd (omega arith)
get_or-take (x ∷ xs) (suc n) zero h = refl
get_or-take (x ∷ xs) (suc n) (suc i) h = get_or-take xs n i (omega arith)

pub length-take : (xs : List ℕ) (n : ℕ) → n ≤ length xs → length (take n xs) ≡ n
length-take xs zero h = refl
length-take [] (suc n) h = absurd (omega arith)
length-take (x ∷ xs) (suc n) h = omega (arith, length-take xs n (omega arith))

pub get_or-nonzero : (xs : List ℕ) (i : ℕ) → get_or xs i 0 ≢ 0 → i < length xs
get_or-nonzero [] i h = absurd (h refl)
get_or-nonzero (x ∷ xs) zero h = omega arith
get_or-nonzero (x ∷ xs) (suc i) h = omega (arith, get_or-nonzero xs i h)

pub get_or-length : (xs : List ℕ) → get_or xs (length xs) 0 ≡ 0
get_or-length [] = refl
get_or-length (x ∷ xs) = get_or-length xs

pub text-HasLength :
    (xs : List ℕ) → ((i : ℕ) → i < length xs → get_or xs i 0 ≢ 0) → HasLength (text xs) (length xs)
text-HasLength xs h = record { ends = get_or-length xs; before = h }

-- A path of no zero bytes that does not end in a delimiter.
pub record IsFilePath (path : List ℕ) : Type 0 where
  pub nonzero : (i : ℕ) → i < length path → get_or path i 0 ≢ 0
  pub no_dir : create_as_dir path ≡ false

pub get_or-drop : (xs : List ℕ) (n i : ℕ) → get_or (drop n xs) i 0 ≡ get_or xs (n + i) 0
get_or-drop xs zero i = (let e : 0 + i ≡ i = omega arith in rw e refl)
get_or-drop [] (suc n) i = refl
get_or-drop (x ∷ xs) (suc n) i =
    let e : suc n + i ≡ suc (n + i) = omega arith in rw e (get_or-drop xs n i)

pub length-drop : (xs : List ℕ) (n : ℕ) → length (drop n xs) ≡ length xs - n
length-drop xs zero = omega arith
length-drop [] (suc n) = omega arith
length-drop (x ∷ xs) (suc n) = omega (arith, length-drop xs n)

drop-IsFilePath : (xs : List ℕ) (n : ℕ) → n < length xs → IsFilePath xs → IsFilePath (drop n xs)
drop-IsFilePath xs n lt p = record {
  nonzero = λ i h. rw (get_or-drop xs n i) (p.nonzero (n + i) (omega (arith, length-drop xs n)));
  no_dir =
      (let e : n + (length xs - n - 1) ≡ length xs - 1 = omega arith in
        rw (length-drop xs n, get_or-drop xs n (length xs - n - 1), e) p.no_dir);
}

pub dir_len-le : (path : List ℕ) → dir_len path ≤ length path
unfolding dir_len
dir_len-le [] = omega arith
dir_len-le (c ∷ cs) = ground (arith, dir_len-le cs)

-- The first name ends at a delimiter or at the terminator.
dir_len-ends :
    (path : List ℕ) → get_or path (dir_len path) 0 ≢ b'/' → get_or path (dir_len path) 0 ≡ 0
unfolding dir_len
dir_len-ends [] h = refl
dir_len-ends (c ∷ cs) h = elim (Bool-cases ((c == b'/') || (c == 0))) [
  | inl stop ↦ ground arith
  | inr go ↦ rw go (dir_len-ends cs (rw go at h))
]

pub plain_device-named :
    (S : Type 0) (path : List ℕ) (n : ℕ)
    → n ≤ length path
    → is_named path n (plain_device {S = S} (take n path)) ≡ true
unfolding is_named
plain_device-named S path n le = rw (length-take path n le) (
    ground (
      arith,
      strncmp-same n (text path) (text (take n path)) (λ i lt. sym (get_or-take path n i lt)),
    ))

last_byte :
    (path : List ℕ) (n : ℕ)
    → length path ≡ n + 1
    → get_or path (length path - 1) 0 ≡ get_or path n 0
last_byte path n e = (let at_n : length path - 1 ≡ n = omega arith in rw at_n refl)

pub dir_len-last :
    (path : List ℕ)
    → IsFilePath path
    → goes_deeper path (dir_len path) ≡ false
    → dir_len path ≡ length path
dir_len-last path file shallow = elim (Bool-cases (get_or path (dir_len path) 0 == b'/')) [
  | inl slash ↦ ground (
    arith,
    get_or-nonzero path (dir_len path),
    file.nonzero (dir_len path + 1),
    file.no_dir,
    (λ (e : length path ≡ dir_len path + 1). last_byte path (dir_len path) e),
  )
  | inr other ↦
      let stop = dir_len-ends path (==→ne _ _ other) in
      let le = dir_len-le path in ground (arith, file.nonzero (dir_len path))
]

pub tail-IsFilePath : (c : ℕ) (cs : List ℕ) → IsFilePath (c ∷ cs) → IsFilePath cs
tail-IsFilePath c [] file = record { nonzero = λ i h. absurd (omega arith); no_dir = refl }
tail-IsFilePath c (d ∷ ds) file = drop-IsFilePath (c ∷ d ∷ ds) 1 (omega arith) file

pub behind-IsFilePath :
    (path : List ℕ) (n : ℕ)
    → goes_deeper path n ≡ true
    → IsFilePath path
    → IsFilePath (drop (n + 1) path)
behind-IsFilePath path n deeper file =
    drop-IsFilePath path (n + 1) (get_or-nonzero path (n + 1) (ground arith)) file
