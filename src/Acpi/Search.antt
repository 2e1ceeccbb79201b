-- ===== src/Acpi/Search.antt =====
-- The table that `acpi_get_table` of kernel/src/acpi/acpi.c gives.
use ga_os.Base.{
  ℕ, zero, suc, ◌+◌, ◌*◌, ◌%◌, ◌^◌, ◌≤◌, ◌<◌, ◌≡◌, ◌⊎◌, refl, arith, Bool-cases, inl, inr, Option,
  some, none, ◌==◌, ==→eq, if◌then◌else◌, true, false,
}
use ga_os.Libc.Memory.{Memory, memcmp}
use ga_os.Libc.Memory.Order.{memcmp-zero_iff}
use ga_os.Libc.Strings.{CString, string_at, is_zero}
use ga_os.Libc.Integers.{number_at}
use ga_os.Libc.Strings.Prefix.{is_zero_iff}
use ga_os.Acpi.{
  Xsdp, entry_count, header_at, find_table, acpi_get_table_rsdt, acpi_get_table_xsdt,
  acpi_get_table,
}

-- The four bytes of the header are the signature.
abbrev pub HasSignature : Memory → CString → ℕ → Type 0
HasSignature m signature header = (j : ℕ) → j < 4 → m (header + j) ≡ signature j

-- The bytes of an entry.
abbrev pub entry_size : Xsdp → ℕ
entry_size sdp = if sdp.revision == 0 then 4 else 8

-- The length of a table, which stands in its header behind the signature.
abbrev pub length_of : Memory → ℕ → ℕ
length_of m sdt = number_at 4 (string_at m (sdt + 4))

-- The table has room for just `n` entries of `size` bytes behind its header of 36 bytes.
pub record HasEntries (m : Memory) (sdt size n : ℕ) : Type 0 where
  pub fit : 36 + n * size ≤ length_of m sdt
  pub no_more : length_of m sdt < 36 + n * size + size
  pub word : length_of m sdt < 2 ^ 32

-- Where the header is in memory that entry `i` of `size` bytes points to, behind the 36 bytes of the header.
abbrev pub pointed_to : (hhdm_offset : ℕ) → Memory → (sdt size i : ℕ) → ℕ
pointed_to hhdm_offset m sdt size i =
    (number_at size (string_at m (sdt + 36 + i * size)) + hhdm_offset) % 2 ^ 64

module _ (hhdm_offset : ℕ) (m : Memory) (signature : CString) (sdt size : ℕ) where
  -- What a search among the entries from number `i` up to `n` gives.
  pub data IsFirstTable (i n : ℕ) : Option ℕ → Type 0 where
    found :
        (k : ℕ)
        → i ≤ k
        → k < n
        → HasSignature m signature (pointed_to hhdm_offset m sdt size k)
        → ((j : ℕ)
            → i ≤ j
            → j < k
            → HasSignature m signature (pointed_to hhdm_offset m sdt size j)
            → ⊥)
        → IsFirstTable i n (some (pointed_to hhdm_offset m sdt size k))
    missing :
        ((j : ℕ)
          → i ≤ j
          → j < n
          → HasSignature m signature (pointed_to hhdm_offset m sdt size j)
          → ⊥)
        → IsFirstTable i n none

  HasSignature-true :
      (header : ℕ)
      → is_zero (memcmp (string_at m header) signature 4) ≡ true
      → HasSignature m signature header
  HasSignature-true header e =
      (memcmp-zero_iff (string_at m header) signature 4).0 ((is_zero_iff _).0 e)

  HasSignature-false :
      (header : ℕ)
      → is_zero (memcmp (string_at m header) signature 4) ≡ false
      → HasSignature m signature header
      → ⊥
  HasSignature-false header e h = ground (
    arith,
    (is_zero_iff (memcmp (string_at m header) signature 4)).1
        ((memcmp-zero_iff (string_at m header) signature 4).1 h),
  )

  none_up_to :
      {i : ℕ} (j : ℕ)
      → i ≤ j
      → (HasSignature m signature (pointed_to hhdm_offset m sdt size i) → ⊥)
      → (i + 1 ≤ j → ⊥)
      → HasSignature m signature (pointed_to hhdm_offset m sdt size j)
      → ⊥
  none_up_to {i} j lo other later h = elim (Bool-cases (j == i)) [
    | inl same ↦ other (rw (==→eq j i same) at h)
    | inr apart ↦ later (ground arith)
  ]

  IsFirstTable-before :
      (i n : ℕ) {r : Option ℕ}
      → (HasSignature m signature (pointed_to hhdm_offset m sdt size i) → ⊥)
      → IsFirstTable (i + 1) n r
      → IsFirstTable i n r
  IsFirstTable-before i n other (found k from below here none_before) =
      found k (omega arith) below here
        (λ j lo hi h. none_up_to j lo other (λ later. none_before j later hi h) h)
  IsFirstTable-before i n other (missing nowhere) =
      missing (λ j lo hi h. none_up_to j lo other (λ later. nowhere j later hi h) h)

  find_table-IsFirstTable :
      (rounds i : ℕ)
      → IsFirstTable i (i + rounds) (find_table hhdm_offset m signature sdt size rounds i)
  unfolding find_table header_at
  find_table-IsFirstTable zero i = missing (λ j lo hi h. absurd (omega arith))
  find_table-IsFirstTable (suc rounds) i =
      let header = pointed_to hhdm_offset m sdt size i in
      let last : i + suc rounds ≡ i + 1 + rounds = omega arith in
      elim (Bool-cases (is_zero (memcmp (string_at m header) signature 4))) [
        | inl here ↦ rw here (
            found i (omega arith) (omega arith) (HasSignature-true header here)
              (λ j lo hi h. absurd (omega arith)))
        | inr other ↦
            rw (other, last)
              (IsFirstTable-before i (i + 1 + rounds) (HasSignature-false header other)
                (find_table-IsFirstTable rounds (i + 1)))
      ]

entry_count-entries :
    (m : Memory) (sdt size n : ℕ)
    → (size ≡ 4) ⊎ (size ≡ 8)
    → HasEntries m sdt size n
    → entry_count m sdt size ≡ n
unfolding entry_count
entry_count-entries m sdt size n (inl four) has =
    rw four (omega (arith, four, rw four at has.fit, rw four at has.no_more, has.word))
entry_count-entries m sdt size n (inr eight) has =
    rw eight (omega (arith, eight, rw eight at has.fit, rw eight at has.no_more, has.word))

-- In a system descriptor table whose length has room for just `n` entries behind its header, of 4 bytes for
-- revision 0 and of 8 bytes else, `acpi_get_table` gives the header that the first entry with the signature points
-- to, moved to the higher half; it returns `nullptr` where no entry points to a header with the signature.
pub acpi_get_table-IsFirstTable :
    (hhdm_offset : ℕ) (m : Memory) (sdp : Xsdp) (sdt n : ℕ) (signature : CString)
    → HasEntries m sdt (entry_size sdp) n
    → IsFirstTable hhdm_offset m signature sdt
        (entry_size sdp)
        0
        n
        (acpi_get_table hhdm_offset m sdp sdt signature)
unfolding acpi_get_table acpi_get_table_rsdt acpi_get_table_xsdt
acpi_get_table-IsFirstTable hhdm_offset m sdp sdt n signature has =
    let whole : (size : ℕ)
        → IsFirstTable hhdm_offset m signature sdt size 0 n
            (find_table hhdm_offset m signature sdt size n 0) =
      λ size.
        (let same : 0 + n ≡ n = omega arith in
          rw same at (find_table-IsFirstTable hhdm_offset m signature sdt size n 0)) in
    elim (Bool-cases (sdp.revision == 0)) [
      | inl old ↦
          let count = entry_count-entries m sdt 4 n (inl refl) (rw old at has) in
          rw (old, count) (whole 4)
      | inr new ↦
          let count = entry_count-entries m sdt 8 n (inr refl) (rw new at has) in
          rw (new, count) (whole 8)
    ]
