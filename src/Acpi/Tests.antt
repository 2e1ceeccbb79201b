-- ===== src/Acpi/Tests.antt =====
-- A root table at 1000 with one entry of four bytes, which points to a table with the signature "APIC" at 2000.
use ga_os.Base.{arith, ◌==◌, if◌then◌else◌, ◌-◌, leb, get_or, ◌∷◌, []}
use ga_os.Libc.Memory.{Memory}
use ga_os.Libc.Strings.{CString}
use ga_os.Libc.Integers.{number_at}
use ga_os.Acpi.{Xsdp, acpi_get_table}
use ga_os.Acpi.Search.{HasEntries, IsFirstTable, entry_size, acpi_get_table-IsFirstTable}

abbrev apic : CString
apic i = get_or (b'A' ∷ b'P' ∷ b'I' ∷ b'C' ∷ []) i 0

abbrev tables : Memory
tables a =
    if a == 1004
    then 40
    else if a == 1036
    then 0xD0
    else if a == 1037
    then 7
    else if leb 2000 a
    then apic (a - 2000)
    else 0

abbrev old_pointer : Xsdp
old_pointer = record { revision = 0; rsdt = 1000; xsdt = 0 }

tables-HasEntries : HasEntries tables 1000 4 1
unfolding number_at
tables-HasEntries = record { fit = omega arith; no_more = omega arith; word = omega arith }

acpi_get_table-IsFirstTable_example :
    IsFirstTable 0 tables apic 1000
      (entry_size old_pointer)
      0
      1
      (acpi_get_table 0 tables old_pointer 1000 apic)
acpi_get_table-IsFirstTable_example =
    acpi_get_table-IsFirstTable 0 tables old_pointer 1000 1 apic tables-HasEntries
