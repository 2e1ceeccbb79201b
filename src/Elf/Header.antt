-- ===== src/Elf/Header.antt =====
-- The header tests and the base address of kernel/src/executables/elf.c.
use ga_os.Base.{
  ℕ, zero, suc, ◌+◌, ◌-◌, ◌*◌, ◌^◌, ◌≤◌, ◌<◌, ◌≡◌, ◌≢◌, ◌⊎◌, ◌↔◌, ◌∙◌, refl, arith, true,
  Bool-cases, inl, inr, ◌==◌, ◌&&◌, ltb, Option-cases,
}
use ga_os.Libc.Memory.{memcmp}
use ga_os.Libc.Memory.Order.{memcmp-zero_iff}
use ga_os.Libc.Strings.{CString, is_zero}
use ga_os.Libc.Strings.Prefix.{is_zero_iff}
use ga_os.Libc.Integers.{number_at}
use ga_os.PageTables.{map, wrap}
use ga_os.Elf.{
  page, stack_flags, physical, FileHeader, ProgramHeader, lower_base, load_segments,
  with_higher_half, read_header, read_program_header, is_executable, elf_magic, elf_data_2msb,
  et_exec, em_x86_64, pt_load, base_from, Image, take_page, failed, load_into, elf_load_from,
}

-- The signature, the object size that is asked for, and at their offsets, lowest byte first, the type of the file
-- and the processor.
pub record IsExecutable (file : CString) : Type 0 where
  pub signature : (j : ℕ) → j < 4 → file j ≡ elf_magic j
  pub object_size : file 4 ≡ elf_data_2msb
  pub file_type : file 16 + 256 * file 17 ≡ et_exec
  pub machine : file 18 + 256 * file 19 ≡ em_x86_64

is_executable-IsExecutable :
    (file : CString) → (is_executable (read_header file) ≡ true) ↔ IsExecutable file
unfolding is_executable read_header number_at
is_executable-IsExecutable file = (
  λ e.
      let same : is_zero (memcmp file elf_magic 4) ≡ true = ground (arith, e) in
      record {
        signature = (memcmp-zero_iff file elf_magic 4).0 ((is_zero_iff _).0 same);
        object_size = ground (arith, e);
        file_type = ground (arith, e);
        machine = ground (arith, e);
      },
  λ x. ground (
    arith,
    (is_zero_iff (memcmp file elf_magic 4)).1 ((memcmp-zero_iff file elf_magic 4).1 x.signature),
    x.object_size,
    x.file_type,
    x.machine,
  ),
)

load_into-not_failed :
    (hhdm_offset : ℕ) (file : CString) (h : FileHeader) (bootstrap table : ℕ) (s : Image)
    → load_into hhdm_offset file h bootstrap table s ≢ failed
unfolding load_into
load_into-not_failed hhdm_offset file h bootstrap table s e =
    elim (Option-cases (
      load_segments hhdm_offset file h table h.e_phnum 0
        (with_higher_half hhdm_offset bootstrap table s))) [
          | inl stuck ↦ absurd (ground arith)
          | inr (loaded, e1) ↦ elim (Option-cases (take_page loaded)) [
            | inl stuck ↦ absurd (ground arith)
            | inr ((stack, s'), e2) ↦
                let stack_base =
                  wrap (base_from file h h.e_phnum 0 (2 ^ 64 - 1) + (2 ^ 64 - page)) in
                elim (Option-cases (
                  map hhdm_offset s'.tables table stack_base (physical hhdm_offset stack)
                    stack_flags)) [
                      | inl stuck ↦ absurd (ground arith)
                      | inr (tables, e3) ↦ absurd (ground arith)
                    ]
          ]
        ]

-- `elf_load_from` returns false exactly for a file that is not an executable for the processor: by its signature,
-- its fifth byte, and the type and the processor in its bytes 16 to 19.
pub elf_load_from-failed_iff :
    (hhdm_offset : ℕ) (file : CString) (bootstrap : ℕ) (s : Image)
    → (elf_load_from hhdm_offset file bootstrap s ≡ failed) ↔ (IsExecutable file → ⊥)
unfolding elf_load_from
elf_load_from-failed_iff hhdm_offset file bootstrap s = (
  λ e x.
      (let ok = (is_executable-IsExecutable file).1 x in
        elim (Option-cases (take_page s)) [
          | inl stuck ↦ ground arith
          | inr ((table, s'), e1) ↦
              ground
                (arith, load_into-not_failed hhdm_offset file (read_header file) bootstrap table s')
        ]),
  λ no. elim (Bool-cases (is_executable (read_header file))) [
    | inl ok ↦ absurd (no ((is_executable-IsExecutable file).0 ok))
    | inr bad ↦ rw bad refl
  ],
)

lower_base-which :
    (p : ProgramHeader) (bound : ℕ)
    → (lower_base p bound ≡ bound) ⊎ ((p.p_type ≡ pt_load) × (lower_base p bound ≡ p.p_vaddr))
unfolding lower_base
lower_base-which p bound = elim (Bool-cases ((p.p_type == pt_load) && ltb p.p_vaddr bound)) [
  | inl lower ↦ inr (ground arith, ground arith)
  | inr kept ↦ inl (ground arith)
]

lower_base-below :
    (p : ProgramHeader) (bound : ℕ)
    → (lower_base p bound ≤ bound) × (p.p_type ≡ pt_load → lower_base p bound ≤ p.p_vaddr)
unfolding lower_base
lower_base-below p bound = (ground arith, (λ load. ground arith))

base_from-below :
    (file : CString) (h : FileHeader) (rounds i bound : ℕ) → base_from file h rounds i bound ≤ bound
unfolding base_from
base_from-below file h zero i bound = omega arith
base_from-below file h (suc rounds) i bound =
    let p = read_program_header file h i in
    omega (
      arith,
      base_from-below file h rounds (i + 1) (lower_base p bound),
      (lower_base-below p bound).0,
    )

base_from-covers :
    (file : CString) (h : FileHeader) (rounds i bound k : ℕ)
    → k < rounds
    → (read_program_header file h (i + k)).p_type ≡ pt_load
    → base_from file h rounds i bound ≤ (read_program_header file h (i + k)).p_vaddr
unfolding base_from
base_from-covers file h zero i bound k lt load = absurd (omega arith)
base_from-covers file h (suc rounds) i bound zero lt load =
    let p = read_program_header file h i in
    let here : i + 0 ≡ i = omega arith in
    let below = (lower_base-below p bound).1 (rw here at load) in
    rw here (omega (arith, base_from-below file h rounds (i + 1) (lower_base p bound), below))
base_from-covers file h (suc rounds) i bound (suc k) lt load =
    let later : i + suc k ≡ i + 1 + k = omega arith in
    rw later (
      base_from-covers file h rounds (i + 1) (lower_base (read_program_header file h i) bound) k
        (omega arith) (rw later at load))

-- `base` is the bound, or the address of a segment to load among `rounds` headers from number `i` on.
abbrev pub IsAmong : CString → FileHeader → (rounds i bound base : ℕ) → Type 0
IsAmong file h rounds i bound base =
    (base ≡ bound)
    ⊎ ((k : ℕ) × (k < rounds)
        × ((read_program_header file h (i + k)).p_type ≡ pt_load)
        × (base ≡ (read_program_header file h (i + k)).p_vaddr))

base_from-IsAmong :
    (file : CString) (h : FileHeader) (rounds i bound : ℕ)
    → IsAmong file h rounds i bound (base_from file h rounds i bound)
unfolding base_from
base_from-IsAmong file h zero i bound = inl refl
base_from-IsAmong file h (suc rounds) i bound =
    let p = read_program_header file h i in
    let here : i + 0 ≡ i = omega arith in
    elim (base_from-IsAmong file h rounds (i + 1) (lower_base p bound)) [
      | inr (k, lt, load, e) ↦
          let later : i + 1 + k ≡ i + suc k = omega arith in
          inr (suc k, omega arith, rw later at load, rw later at e)
      | inl e ↦ elim (lower_base-which p bound) [
        | inl kept ↦ inl (e ∙ kept)
        | inr (load, lower) ↦ inr (0, omega arith, rw here load, rw here (e ∙ lower))
      ]
    ]

-- The base address is the least address of a segment to load among the headers, or the given bound where
-- none is below it.
pub base_from-least :
    (file : CString) (h : FileHeader) (rounds i bound : ℕ)
    → (base_from file h rounds i bound ≤ bound)
      × ((k : ℕ)
          → k < rounds
          → (read_program_header file h (i + k)).p_type ≡ pt_load
          → base_from file h rounds i bound ≤ (read_program_header file h (i + k)).p_vaddr)
      × IsAmong file h rounds i bound (base_from file h rounds i bound)
base_from-least file h rounds i bound = (
  base_from-below file h rounds i bound,
  base_from-covers file h rounds i bound,
  base_from-IsAmong file h rounds i bound,
)
