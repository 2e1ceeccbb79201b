-- ===== src/Devices/ByType/Paths.antt =====
-- The order in which `device_get_by_type` of kernel/src/devices/manager.c counts devices, and the text that
-- `device_generate_path_of` writes.
use ga_os.Base.{
  ap, sym, ◌∙◌, ℕ, zero, suc, ◌+◌, ◌-◌, ◌%◌, ◌^◌, ◌≤◌, ◌<◌, ◌≡◌, refl, arith, false, Bool-cases,
  inl, inr, Option, none, some, ==→eq, List, [], ◌∷◌, ◌++◌, ◌==◌, leb, if◌then◌else◌, get_elem?,
  length, take, length-append,
}
use ga_os.Libc.Memory.{Memory, store}
use ga_os.Libc.Integers.{min, min-least}
use ga_os.Devices.{Devices, end, device, DeviceType, type_value}
use ga_os.Devices.ByType.{
  put_bytes, write_names, device_generate_path_of, find_by_type, first_found, device_get_by_type,
}

suc_sub : (a b : ℕ) → suc a - suc b ≡ a - b
suc_sub a b = omega arith

-- The element at `i` of a list that two make up: it is looked for in one after the other.
pick-append :
    {A : Type 0} (xs ys : List A) (i : ℕ)
    → first_found
        (get_elem? xs i, i - length xs)
        (get_elem? ys (i - length xs), i - length xs - length ys)
      ≡ (get_elem? (xs ++ ys) i, i - length (xs ++ ys))
pick-append [] ys i = ground arith
pick-append (x ∷ xs) ys zero = ground arith
pick-append (x ∷ xs) ys (suc i) =
    rw (suc_sub i (length xs), suc_sub i (length (xs ++ ys))) (pick-append xs ys i)

pick-cons :
    {A : Type 0} (x : A) (xs : List A) (i : ℕ)
    → (i == 0) ≡ false
    → ◌≡◌ {A = Option A × ℕ}
        (get_elem? (x ∷ xs) i, i - length (x ∷ xs))
        (get_elem? xs (i - 1), i - 1 - length xs)
pick-cons x xs zero more = absurd (cc)
pick-cons x xs (suc i) more =
    (let below : suc i - 1 ≡ i = omega arith in rw (below, suc_sub i (length xs)) refl)

get_elem?-past : {A : Type 0} (xs : List A) (i : ℕ) → length xs ≤ i → get_elem? xs i ≡ none
get_elem?-past [] i h = refl
get_elem?-past (x ∷ xs) zero h = absurd (omega arith)
get_elem?-past (x ∷ xs) (suc i) h = get_elem?-past xs i (omega arith)

length-empty : (xs : List ℕ) → length xs ≤ 0 → xs ≡ []
length-empty [] h = refl
length-empty (x ∷ xs) h = absurd (omega arith)

take-all : (xs : List ℕ) (n : ℕ) → length xs ≤ n → take n xs ≡ xs
take-all [] zero h = refl
take-all [] (suc n) h = refl
take-all (x ∷ xs) zero h = absurd (omega arith)
take-all (x ∷ xs) (suc n) h = ap (λ ys. x ∷ ys) (take-all xs n (omega arith))

-- The names, each behind a delimiter.
abbrev pub slashed : List (List ℕ) → List ℕ
slashed [] = []
slashed (name ∷ names) = b'/' ∷ name ++ slashed names

put_bytes-append :
    (m : Memory) (path : ℕ) (xs ys : List ℕ)
    → put_bytes m path (xs ++ ys) ≡ put_bytes (put_bytes m path xs) (path + length xs) ys
unfolding put_bytes
put_bytes-append m path [] ys = (let e : path + 0 ≡ path = omega arith in rw e refl)
put_bytes-append m path (x ∷ xs) ys =
    let e : path + suc (length xs) ≡ path + 1 + length xs = omega arith in
    rw e (put_bytes-append (store m path x) (path + 1) xs ys)

-- Names that fit are written one behind the other.
write_names-slashed :
    (names : List (List ℕ)) (m : Memory) (path path_len offset : ℕ)
    → offset + length (slashed names) ≤ path_len
    → path_len < 2 ^ 31
    → write_names names m path path_len offset
      ≡ (put_bytes m (path + offset) (slashed names), offset + length (slashed names))
unfolding write_names put_bytes
write_names-slashed [] m path path_len offset fits small = ground arith
write_names-slashed (name ∷ names) m path path_len offset fits small =
    let room : offset + (1 + length name + length (slashed names)) ≤ path_len =
      omega (arith, length-append name (slashed names)) in
    let total : offset + suc (length (name ++ slashed names))
        ≡ offset + 1 + length name + length (slashed names) =
      omega (arith, length-append name (slashed names)) in
    let here : leb path_len offset ≡ false = ground arith in
    let at : path + offset + 1 ≡ path + (offset + 1) = omega arith in
    let behind : path + (offset + 1) + length name ≡ path + (offset + 1 + length name) =
      omega arith in
    let slash = store m (path + offset) b'/' in
    let written : put_bytes m (path + offset) (slashed (name ∷ names))
        ≡ put_bytes (put_bytes slash (path + (offset + 1)) name) (path + (offset + 1 + length name))
            (slashed names) =
      put_bytes-append slash (path + offset + 1) name (slashed names) ∙ rw (at, behind) refl in
    elim (Bool-cases (leb path_len (offset + 1))) [
      | inl full ↦
          let nothing : name ++ slashed names ≡ [] =
            length-empty (name ++ slashed names) (ground arith) in
          rw (here, full, nothing) refl
      | inr more ↦
          let whole : take (min (length name) (path_len - (offset + 1))) name ≡ name =
            take-all name _ (
              ground (
                arith,
                min-least (length name) (path_len - (offset + 1)) (omega arith) (omega arith),
              )) in
          rw
            (
              here,
              more,
              whole,
              write_names-slashed names
                  (put_bytes (store m (path + offset) b'/') (path + (offset + 1)) name) path
                  path_len (offset + 1 + length name) (omega arith) small,
              written,
              total,
            )
            refl
    ]

device_generate_path_of-slashed :
    (names : List (List ℕ)) (m : Memory) (path path_len : ℕ)
    → length (slashed names) < path_len
    → path_len < 2 ^ 31
    → device_generate_path_of names m path path_len ≡ put_bytes m path (slashed names ++ 0 ∷ [])
unfolding device_generate_path_of put_bytes
device_generate_path_of-slashed names m path path_len fits small =
    let limit : (path_len + 2 ^ 64 - 1) % 2 ^ 64 ≡ path_len - 1 = omega arith in
    let at : path + 0 ≡ path = omega arith in
    let end_at : path + (0 + length (slashed names)) ≡ path + length (slashed names) =
      omega arith in
    rw
      (
        limit,
        write_names-slashed names m path (path_len - 1) 0 (omega arith) (omega arith),
        at,
        end_at,
        put_bytes-append m path (slashed names) (0 ∷ []),
      )
      refl

-- A name that is as long as the room behind its delimiter, or longer, puts the terminator behind the buffer.
pub device_generate_path_of_outside :
    (name : List ℕ) (m : Memory) (path path_len : ℕ)
    → 3 ≤ path_len
    → path_len < 2 ^ 64
    → path_len ≤ length name + 1
    → (path + path_len ≤ path + (1 + length name))
      × (device_generate_path_of (name ∷ []) m path path_len (path + (1 + length name)) ≡ 0)
unfolding device_generate_path_of write_names
device_generate_path_of_outside name m path path_len three word long =
    let limit : (path_len + 2 ^ 64 - 1) % 2 ^ 64 ≡ path_len - 1 = omega arith in
    let first : leb (path_len - 1) 0 ≡ false = ground arith in
    let second : leb (path_len - 1) (0 + 1) ≡ false = ground arith in
    (omega arith, rw (limit, first, second) (ground arith))

module _ {S : Type 0} where
  -- The devices of the type from the first to the last, a directory before what is in it, each as the names
  -- from the root to it.
  abbrev pub of_type : DeviceType → List (List ℕ) → Devices S → List (List (List ℕ))
  of_type t parents end = []
  of_type t parents (device d linked child next) =
      let trail = parents ++ d.name ∷ [] in
      (if type_value d.device_type == type_value t then trail ∷ [] else [])
      ++ of_type t (if linked then trail else []) child
      ++ of_type t parents next

  -- The search gives the device at the index, and the index less the number of devices that it passed.
  find_by_type-of_type :
      (t : DeviceType) (index : ℕ) (parents : List (List ℕ)) (list : Devices S)
      → find_by_type t index parents list
        ≡ (get_elem? (of_type t parents list) index, index - length (of_type t parents list))
  unfolding find_by_type
  find_by_type-of_type t index parents end = ground arith
  find_by_type-of_type t index parents (device d linked child next) =
      let trail = parents ++ d.name ∷ [] in
      let under = if linked then trail else [] in
      let later = of_type t parents next in
      elim (Bool-cases (type_value d.device_type == type_value t)) [
        | inr differs ↦
            rw
              (
                differs,
                find_by_type-of_type t index under child,
                find_by_type-of_type t (index - length (of_type t under child)) parents next,
              )
              (pick-append (of_type t under child) later index)
        | inl matches ↦ elim (Bool-cases (index == 0)) [
          | inl first ↦ rw (matches, ==→eq index 0 first) (ground arith)
          | inr more ↦
              rw
                (
                  matches,
                  more,
                  find_by_type-of_type t (index - 1) under child,
                  find_by_type-of_type t (index - 1 - length (of_type t under child)) parents next,
                )
                (pick-append (of_type t under child) later (index - 1)
                  ∙ sym (pick-cons trail (of_type t under child ++ later) index more))
        ]
      ]

  -- What `device_get_by_type` does with a buffer that has room: it writes the path of the device at the index
  -- among those of the type, counted from the root with a directory before what is in it, each name behind a
  -- delimiter, and a terminator. Where there are not so many devices of the type it returns `nullptr`.
  pub device_get_by_type-slashed :
      (t : DeviceType) (m : Memory) (path path_len index : ℕ) (devices : Devices S)
      → path_len < 2 ^ 31
      → ((names : List (List ℕ))
          → get_elem? (of_type t [] devices) index ≡ some names
          → length (slashed names) < path_len
          → device_get_by_type t m path path_len index devices
            ≡ some (put_bytes m path (slashed names ++ 0 ∷ [])))
        × (length (of_type t [] devices) ≤ index
            → device_get_by_type t m path path_len index devices ≡ none)
  unfolding device_get_by_type
  device_get_by_type-slashed t m path path_len index devices small = (
    λ names at fits.
        rw (device_get_by_type, find_by_type-of_type t index [] devices, at)
          (ap some (device_generate_path_of-slashed names m path path_len fits small)),
    λ short.
        rw
          (
            device_get_by_type,
            find_by_type-of_type t index [] devices,
            get_elem?-past (of_type t [] devices) index short,
          )
          refl,
  )
