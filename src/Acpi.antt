-- ===== src/Acpi.antt =====
-- kernel/src/acpi/acpi.c: the system descriptor table, the search for a table in it by its signature, and the
-- devices below "/acpi". Memory holds the tables as the firmware left them; a number of several bytes stands with
-- the lowest first. The kinds of entry differ only in their size, 4 bytes in `acpi_get_table_rsdt` and 8 in
-- `acpi_get_table_xsdt`.
pub mod Search
mod Tests
use ga_os.Base.{
  ℕ, zero, suc, ◌+◌, ◌-◌, ◌*◌, ◌/◌, ◌%◌, ◌^◌, Option, none, some, List, [], ◌∷◌, ◌++◌, ◌==◌, ltb,
  if◌then◌else◌,
}
use ga_os.Base.Int.{ℤ, pos, neg}
use ga_os.Libc.Memory.{Memory, memcmp}
use ga_os.Libc.Strings.{CString, skip, string_at, is_zero}
use ga_os.Libc.Integers.{number_at}
use ga_os.Filesystem.Node.{Node}
use ga_os.Devices.{
  Device, Devices, Created, created, refused, fault, reserved, acpi_table, plain_device,
  device_create_at,
}

-- sizeof(acpi_sdt_header_t)
abbrev pub sdt_header_size : ℕ
sdt_header_size = 36

-- The fields of `acpi_xsdp_t` that are read.
pub record Xsdp : Type 0 where
  pub revision : ℕ
  pub rsdt : ℕ
  pub xsdt : ℕ

-- How many entries of `size` bytes the table has, by its `length`.
pub entry_count : Memory → (sdt size : ℕ) → ℕ
entry_count m sdt size =
    (number_at 4 (string_at m (sdt + 4)) + (2 ^ 64 - sdt_header_size)) % 2 ^ 64 / size

module _ (hhdm_offset : ℕ) where
  abbrev pub mapped : ℕ → ℕ
  mapped address = (address + hhdm_offset) % 2 ^ 64

  -- `acpi_init`: the address of the system descriptor table.
  pub acpi_init : Xsdp → ℕ
  acpi_init sdp = if sdp.revision == 0 then mapped sdp.rsdt else mapped sdp.xsdt

  -- The header that entry `i` points to.
  pub header_at : Memory → (sdt size i : ℕ) → ℕ
  header_at m sdt size i = mapped (number_at size (string_at m (sdt + sdt_header_size + i * size)))

  -- The loop of `acpi_get_table_rsdt` and `acpi_get_table_xsdt`, for `rounds` entries from number `i` on.
  pub find_table : Memory → CString → (sdt size rounds i : ℕ) → Option ℕ
  find_table m signature sdt size zero i = none
  find_table m signature sdt size (suc rounds) i =
      let header = header_at m sdt size i in
      let rest = find_table m signature sdt size rounds (i + 1) in
      if is_zero (memcmp (string_at m header) signature 4) then some header else rest

  pub acpi_get_table_xsdt : Memory → (sdt : ℕ) → CString → Option ℕ
  acpi_get_table_xsdt m sdt signature = find_table m signature sdt 8 (entry_count m sdt 8) 0

  pub acpi_get_table_rsdt : Memory → (sdt : ℕ) → CString → Option ℕ
  acpi_get_table_rsdt m sdt signature = find_table m signature sdt 4 (entry_count m sdt 4) 0

  pub acpi_get_table : Memory → Xsdp → (sdt : ℕ) → CString → Option ℕ
  acpi_get_table m sdp sdt signature =
      if sdp.revision == 0
      then acpi_get_table_rsdt m sdt signature
      else acpi_get_table_xsdt m sdt signature

-- The `ssize_t` that the address of a buffer is taken for.
abbrev pub as_count : ℕ → ℤ
as_count address = if ltb address (2 ^ 63) then pos address else neg (2 ^ 64 - address)

pub acpi_write : {S : Type 0} → Node → (buffer size : ℕ) → S → ℤ × Node × S
acpi_write n buffer size s = (as_count buffer, n, s)

pub acpi_read : {S : Type 0} → Node → (buffer size : ℕ) → S → ℤ × Node × S
acpi_read n buffer size s = (as_count buffer, n, s)

-- The text of at most `n` bytes at `s`.
abbrev pub text_at : ℕ → CString → List ℕ
text_at zero s = []
text_at (suc n) s = let rest = text_at n (skip s 1) in if s 0 == 0 then [] else s 0 ∷ rest

-- The path "/acpi/" with a name behind it.
abbrev pub acpi_path : List ℕ → List ℕ
acpi_path name = b'/' ∷ b'a' ∷ b'c' ∷ b'p' ∷ b'i' ∷ b'/' ∷ name

-- One round more than the bytes of the longest path.
abbrev pub path_rounds : ℕ
path_rounds = 11

module _ {S : Type 0} where
  -- The result of `device_create_at` is not looked at: `none` is a null pointer that it went through.
  pub keep_devices : Option (Created S) → Option (Devices S)
  keep_devices none = none
  keep_devices (some (created devices)) = some devices
  keep_devices (some (refused devices)) = some devices
  keep_devices (some fault) = none

  pub table_device : Device S
  table_device = record (plain_device []) {
    device_type = acpi_table;
    on_read = some acpi_read;
    on_write = some acpi_write;
  }

  -- The loop of `acpi_create_device`, for `rounds` entries from number `i` on.
  pub create_tables :
      (hhdm_offset : ℕ) → Memory → (sdt size rounds i : ℕ) → Devices S → Option (Devices S)
  create_tables hhdm_offset m sdt size zero i devices = some devices
  create_tables hhdm_offset m sdt size (suc rounds) i devices =
      let header = header_at hhdm_offset m sdt size i in
      elim (keep_devices (
        device_create_at path_rounds (acpi_path (text_at 4 (string_at m header))) table_device
          devices)) [
            | none ↦ none
            | some devices' ↦ create_tables hhdm_offset m sdt size rounds (i + 1) devices'
          ]

  pub acpi_create_device :
      (hhdm_offset : ℕ) → Memory → Xsdp → (sdt : ℕ) → Devices S → Option (Devices S)
  acpi_create_device hhdm_offset m sdp sdt devices =
      let size = if sdp.revision == 0 then 4 else 8 in
      elim (keep_devices (device_create_at path_rounds (acpi_path []) (plain_device []) devices)) [
        | none ↦ none
        | some devices' ↦ create_tables hhdm_offset m sdt size (entry_count m sdt size) 0 devices'
      ]
