-- ===== src/Libc/Strings.antt =====
-- `strlen`, `strncmp` and `strrev` of kernel/src/misc/libc.c. A `char *` that is only read is the
-- function from an offset to the byte there; `str + k` is `skip str k`.
pub mod Length
pub mod Compare
pub mod Prefix
pub mod Reverse
use ga_os.Base.{ℕ, zero, suc, ◌+◌, ◌-◌, ◌≤◌, ◌<◌, ◌≡◌, ◌≢◌, ◌&&◌, not, if◌then◌else◌, ltb, ◌==◌}
use ga_os.Base.{Option, none, some, Bool, false}
use ga_os.Base.Int.{ℤ, pos, sub_ℕ}
use ga_os.Libc.Memory.{Memory, store}

abbrev pub CString : Type 0
CString = ℕ → ℕ

abbrev pub skip : CString → ℕ → CString
skip s k i = s (k + i)

-- The bytes from address `p` on.
abbrev pub string_at : Memory → ℕ → CString
string_at m p i = m (p + i)

-- The first zero byte stands at offset `n`.
pub record HasLength (s : CString) (n : ℕ) : Type 0 where
  pub ends : s n ≡ 0
  pub before : (i : ℕ) → i < n → s i ≢ 0

-- for (i = 0; str[i]; i++); with fuel: `none` means that no zero byte was met.
strlen_from : ℕ → ℕ → CString → Option ℕ
strlen_from zero i s = none
strlen_from (suc fuel) i s =
    let rest = strlen_from fuel (i + 1) s in if s i == 0 then some i else rest

unfoldable pub strlen : ℕ → CString → Option ℕ
unfolding strlen_from
strlen fuel s = strlen_from fuel 0 s

-- while (n && *s1 && *s1 == *s2) { ++s1; ++s2; --n; }
unfoldable pub strncmp : CString → CString → ℕ → ℤ
strncmp s1 s2 zero = pos 0
strncmp s1 s2 (suc n) =
    let rest = strncmp (skip s1 1) (skip s2 1) n in
    if not (s1 0 == 0) && (s1 0 == s2 0) then rest else sub_ℕ (s1 0) (s2 0)

-- The test of a result of `strncmp` or `memcmp` against 0.
abbrev pub is_zero : ℤ → Bool
is_zero (pos n) = n == 0
is_zero _ = false

-- for (int i = 0, j = len - 1; i < j; i++, j--) swap str[i] and str[j]. `j + 1` is carried, since
-- `j` begins at -1 for an empty text.
unfoldable pub reverse_loop : ℕ → ℕ → ℕ → ℕ → Memory → Memory
reverse_loop zero str i j m = m
reverse_loop (suc fuel) str i j m =
    let rest =
      reverse_loop fuel str (i + 1) (j - 1)
        (store (store m (str + i) (m (str + (j - 1)))) (str + (j - 1)) (m (str + i))) in
    if ltb (i + 1) j then rest else m

pub strrev : ℕ → ℕ → Memory → Option Memory
unfolding strlen reverse_loop
strrev fuel str m = elim (strlen fuel (string_at m str)) [
  | none ↦ none
  | some len ↦ some (reverse_loop len str 0 len m)
]
