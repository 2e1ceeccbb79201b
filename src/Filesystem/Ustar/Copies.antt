-- ===== src/Filesystem/Ustar/Copies.antt =====
-- `ustar_dup` and `ustar_close` of kernel/src/filesystem/ustar.c; `sys_fork` calls the first for each descriptor.
-- The path of a node is a block without a terminator, so what stands behind it in memory is an argument.
use mathlib.Core.Path.{subst}
use ga_os.Base.{
  ℕ, zero, suc, ◌+◌, ◌-◌, ◌<◌, ◌≡◌, refl, List, [], ◌∷◌, arith, length, get_or, Option, none, some,
  ltb, if◌then◌else◌, ◌==◌, bit_and, Bool-cases, inl, inr, false, ◌∙◌, sym,
}
use ga_os.BlockAllocator.{Blocks, block_deallocate}
use ga_os.Libc.Memory.{Memory}
use ga_os.Libc.Strings.{CString, HasLength, skip, string_at, strlen}
use ga_os.Libc.Strings.Length.{strlen-HasLength}
use ga_os.Libc.Strings.Prefix.{starts}
use ga_os.Filesystem.Errors.{o_wronly}
use ga_os.Filesystem.Node.{node, error}
use ga_os.Filesystem.Ustar.{
  UstarNode, Search, found, missing, out_of_fuel, prefix, ustar_open, tar_block_size,
}
use ga_os.Filesystem.Ustar.Archive.{IsArchive, first_match}
use ga_os.Filesystem.Ustar.Files.{opened, ustar_open-opened}

-- The bytes of a path, and what is behind them.
abbrev pub path_text : List ℕ → CString → CString
path_text path behind i = if ltb i (length path) then get_or path i 0 else behind (i - length path)

-- `fault` is a write through the error that `ustar_open` returned.
pub data Copy : Type 0 where
  copied : UstarNode → Copy
  fault : Copy

abbrev pub at_position : UstarNode → ℕ → UstarNode
at_position n seek_position = record n {
  vfs_header = record (n.vfs_header) { seek_position = seek_position };
}

-- `none` means that the fuel of `strlen` or of the search ran out.
pub ustar_dup :
    (text_fuel fuel : ℕ) → Memory → (initrd : ℕ) → (behind : CString) → UstarNode → Option Copy
ustar_dup text_fuel fuel m initrd behind n =
    let path = path_text n.vfs_header.path behind in
    elim (strlen text_fuel path) [
      | none ↦ none
      | some path_len ↦ elim (ustar_open fuel m initrd path path_len n.vfs_header.mode) [
        | none ↦ none
        | some (error e) ↦ some fault
        | some (node new) ↦ some (copied (at_position new n.vfs_header.seek_position))
      ]
    ]

-- `ustar_close`; the node and its path are known by their addresses.
pub ustar_close : (path ustar_node : ℕ) → Blocks → Blocks
ustar_close path ustar_node s =
    block_deallocate ustar_node (if path == 0 then s else block_deallocate path s)

length-prefix : (n : ℕ) (s : CString) → length (prefix n s) ≡ n
unfolding prefix
length-prefix zero s = refl
length-prefix (suc n) s = rw (length-prefix n (skip s 1)) refl

get_or-prefix : (n i : ℕ) (s : CString) → i < n → get_or (prefix n s) i 0 ≡ s i
unfolding prefix
get_or-prefix zero i s lt = absurd (omega arith)
get_or-prefix (suc n) zero s lt = refl
get_or-prefix (suc n) (suc i) s lt =
    let e : 1 + i ≡ suc i = omega arith in rw e at (get_or-prefix n i (skip s 1) (omega arith))

path_text-inside :
    (n i : ℕ) (path behind : CString) → i < n → path_text (prefix n path) behind i ≡ path i
path_text-inside n i path behind lt =
    ground (arith, length-prefix n path, get_or-prefix n i path lt)

path_text-HasLength :
    (n : ℕ) (path behind : CString)
    → HasLength path n
    → behind 0 ≡ 0
    → HasLength (path_text (prefix n path) behind) n
path_text-HasLength n path behind h stop =
    let past : ltb n n ≡ false = ground arith in
    let none_left : n - n ≡ 0 = omega arith in
    record {
      ends = rw (length-prefix n path, past, none_left) stop;
      before = λ i lt. rw (path_text-inside n i path behind lt) (h.before i lt);
    }

prefix-agree : (n : ℕ) (s t : CString) → ((i : ℕ) → i < n → s i ≡ t i) → prefix n s ≡ prefix n t
unfolding prefix
prefix-agree zero s t same = refl
prefix-agree (suc n) s t same =
    rw
      (
        same 0 (omega arith),
        prefix-agree n (skip s 1) (skip t 1) (λ i lt. same (1 + i) (omega arith)),
      )
      refl

starts_same :
    (n : ℕ) (s t name : CString) → ((i : ℕ) → i < n → s i ≡ t i) → starts s name n ≡ starts t name n
starts_same zero s t name same = refl
starts_same (suc n) s t name same =
    rw
      (
        same 0 (omega arith),
        starts_same n (skip s 1) (skip t 1) (skip name 1) (λ i lt. same (1 + i) (omega arith)),
      )
      refl

first_match_same :
    (m : Memory) (s t : CString) (n : ℕ) (es : List ℕ)
    → ((i : ℕ) → i < n → s i ≡ t i)
    → first_match m s n es ≡ first_match m t n es
first_match_same m s t n [] same = refl
first_match_same m s t n (e ∷ es) same =
    rw (starts_same n s t (string_at m (e + 2)) same, first_match_same m s t n es same) refl

opened_same :
    (m : Memory) (s t : CString) (n mode : ℕ) (search : Search)
    → ((i : ℕ) → i < n → s i ≡ t i)
    → opened m s n mode search ≡ opened m t n mode search
opened_same m s t n mode out_of_fuel same = refl
opened_same m s t n mode missing same = refl
opened_same m s t n mode (found header) same = rw (prefix-agree n s t same) refl

ustar_open_same :
    (fuel : ℕ) (m : Memory) (initrd : ℕ) (s t : CString) (n mode : ℕ) (es : List ℕ)
    → HasLength s n
    → HasLength t n
    → IsArchive m (initrd + tar_block_size) es
    → length es < fuel
    → ((i : ℕ) → i < n → s i ≡ t i)
    → ustar_open fuel m initrd s n mode ≡ ustar_open fuel m initrd t n mode
ustar_open_same fuel m initrd s t n mode es hs ht a lt same =
    rw
      (
        ustar_open-opened fuel m initrd s n mode es hs a lt,
        ustar_open-opened fuel m initrd t n mode es ht a lt,
        first_match_same m s t n es same,
        opened_same m s t n mode (first_match m t n es) same,
      )
      refl

opened_fields :
    (m : Memory) (path : CString) (n mode : ℕ) (search : Search) (x : UstarNode)
    → opened m path n mode search ≡ node x
    → (x.vfs_header.path ≡ prefix n path) × (x.vfs_header.mode ≡ mode)
opened_fields m path n mode out_of_fuel x e = absurd (ground (arith, e))
opened_fields m path n mode missing x e = absurd (ground (arith, e))
opened_fields m path n mode (found header) x e = ground (arith, e)

ustar_open_fields :
    (fuel : ℕ) (m : Memory) (initrd : ℕ) (path : CString) (n mode : ℕ) (es : List ℕ) (x : UstarNode)
    → HasLength path n
    → IsArchive m (initrd + tar_block_size) es
    → length es < fuel
    → ustar_open fuel m initrd path n mode ≡ some (node x)
    → (x.vfs_header.path ≡ prefix n path) × (x.vfs_header.mode ≡ mode)
ustar_open_fields fuel m initrd path n mode es x h a lt e =
    let result = ustar_open-opened fuel m initrd path n mode es h a lt in
    elim (Bool-cases (bit_and mode o_wronly == 0)) [
      | inl readable ↦
          opened_fields m path n mode (first_match m path n es) x
            (ground (arith, result, readable, e))
      | inr written ↦ absurd (ground (arith, result, written, e))
    ]

dup_step :
    (text_fuel fuel : ℕ) (m : Memory) (initrd : ℕ) (behind : CString) (n : UstarNode) (len : ℕ)
    (new : UstarNode)
    → strlen text_fuel (path_text n.vfs_header.path behind) ≡ some len
    → ustar_open fuel m initrd (path_text n.vfs_header.path behind) len n.vfs_header.mode
      ≡ some (node new)
    → ustar_dup text_fuel fuel m initrd behind n
      ≡ some (copied (at_position new n.vfs_header.seek_position))
unfolding ustar_dup
dup_step text_fuel fuel m initrd behind n len new e opens = rw (ustar_dup, e, opens) refl

-- With a zero byte behind the block of its path, and fuel for the path and the headers of the archive, a node that
-- `ustar_open` gave is copied with every field the same, wherever its position was moved to.
pub ustar_dup-ustar_open :
    (text_fuel fuel : ℕ) (m : Memory) (initrd : ℕ) (path behind : CString)
    (n mode seek_position : ℕ) (es : List ℕ) (x : UstarNode)
    → HasLength path n
    → n < text_fuel
    → IsArchive m (initrd + tar_block_size) es
    → length es < fuel
    → behind 0 ≡ 0
    → ustar_open fuel m initrd path n mode ≡ some (node x)
    → ustar_dup text_fuel fuel m initrd behind (at_position x seek_position)
      ≡ some (copied (at_position x seek_position))
ustar_dup-ustar_open text_fuel fuel m initrd path behind n mode seek_position es x h room a lt stop
      e =
    let (same_path, same_mode) = ustar_open_fields fuel m initrd path n mode es x h a lt e in
    let text = path_text (prefix n path) behind in
    let text_length = path_text-HasLength n path behind h stop in
    let agree =
      ustar_open_same fuel m initrd text path n mode es text_length h a lt
        (λ i inside. path_text-inside n i path behind inside) in
    dup_step text_fuel fuel m initrd behind (at_position x seek_position) n x
      (rw same_path (strlen-HasLength text_fuel n text text_length room))
      (subst
        (λ p. ustar_open fuel m initrd (path_text p behind) n x.vfs_header.mode ≡ some (node x))
        (sym same_path)
        (subst (λ k. ustar_open fuel m initrd text n k ≡ some (node x)) (sym same_mode)
          (agree ∙ e)))
