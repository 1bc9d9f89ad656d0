-- ===== src/Examples/Firmware.antt =====
-- The tables of the firmware behind the root pointer, on a small machine.
use brownie_os.Base.{
  ◌%◌, subst, sym, inr, ℕ, zero, suc, ◌+◌, ◌-◌, ◌*◌, ◌<◌, ◌≡◌, refl, arith, [], ◌∷◌, false, ◌&&◌,
  leb, ltb, if◌then◌else◌, ◌==◌, add32,
}
use brownie_os.Libc.Memory.{Memory}
use brownie_os.Vmm.{Tables, kmap, kunmap}
use brownie_os.Vmm.Window.{entry_of, kunmap-unmaps_identity}
use brownie_os.Boot.{Ended}
use brownie_os.Acpi.Tables.{AcpiTables, load32, are_mapped, has_signature, find_table, hpet_sig}
use brownie_os.Acpi.Tables.Find.{IsFar, HasSlot, Search, find_table-Search}
use brownie_os.Kmm.{
  kmalloc, alloc, search_blocks, suitable, kmm_checks, kmm_prechecks, align_size, alloc_from_block,
}
use brownie_os.Libc.Memory.{memcpy}
use brownie_os.Acpi.Checksum.{total}
use brownie_os.Acpi.Tables.{copy_table}
use brownie_os.Acpi.Tables.Copy.{IsAt, copy_table-Checked}
use brownie_os.Examples.Regions.{pair}

-- The window onto low memory, and no temporary mapping
abbrev low_window : Tables
low_window i j = if leb 768 i && ltb i 992 then ((i - 768) * 1024 + j) * 4096 + 3 else 0

-- An RSDT of 44 bytes at 0x1000, with the addresses 0x40000000 and 0x40001000, where a FACP and an
-- APIC stand
abbrev rsdt_bytes : Memory
rsdt_bytes p =
    if p == 0x1004
    then 44
    else if p == 0x1027
    then 0x40
    else if p == 0x1029
    then 0x10
    else if p == 0x102B
    then 0x40
    else if p == 0x40000000
    then 70
    else if p == 0x40001000
    then 65
    else if p == 0x40001001
    then 80
    else if p == 0x40001002
    then 73
    else if p == 0x40001003
    then 67
    else 0

abbrev two_tables : AcpiTables
two_tables = record {
  acpi_version = 0;
  rsdp = 0;
  rsdt = 0xC0001000;
  xsdt = 0;
  madt = 0;
  hpet = 0;
  fadt = 0;
  bytes = rsdt_bytes;
  tables = low_window;
  heap = pair;
}

two_tables-HasSlot : HasSlot low_window
two_tables-HasSlot = record {
  slot = 992;
  index = 0;
  from = omega arith;
  to = omega arith;
  page = omega arith;
  free = refl;
}

rsdt_length : load32 0xC0001004 two_tables ≡ Ended.returned 44
unfolding load32 are_mapped
rsdt_length = refl

abbrev table_address : ℕ → ℕ
table_address j = if j == 0 then 0x40000000 else 0x40001000

rsdt_entries :
    (j : ℕ)
    → j < 2
    → (load32 (add32 0xC0001000 (36 + j * 4)) two_tables ≡ Ended.returned (table_address j))
      × IsFar (table_address j)
unfolding load32 are_mapped
rsdt_entries zero h =
    (refl, record { above = omega arith; below = omega arith; inside = omega arith })
rsdt_entries (suc zero) h =
    (refl, record { above = omega arith; below = omega arith; inside = omega arith })
rsdt_entries (suc (suc j)) h = absurd (omega (arith, h))

find_table-Search_example :
    Search 2 0
      (65 ∷ 80 ∷ 73 ∷ 67 ∷ [])
      table_address
      two_tables
      (find_table (65 ∷ 80 ∷ 73 ∷ 67 ∷ []) two_tables)
find_table-Search_example =
    find_table-Search 65 80 73 67 2 table_address two_tables two_tables-HasSlot (omega arith)
      rsdt_length (omega arith) rsdt_entries

no_hpet : (j : ℕ) → j < 2 → has_signature hpet_sig (table_address j) rsdt_bytes ≡ false
unfolding has_signature
no_hpet zero h = refl
no_hpet (suc zero) h = refl
no_hpet (suc (suc j)) h = absurd (omega (arith, h))

kunmap-unmaps_identity_example :
    let after = kunmap 0xC0001000 low_window in
    (kmap 0x1000 low_window ≡ (0xC0001000, low_window))
    × (kmap 0x1000 after ≡ (0xC0001000, after))
    × (entry_of after 0xC0001000 ≡ 0)
unfolding kmap
kunmap-unmaps_identity_example =
    kunmap-unmaps_identity 0x1000 low_window (omega arith) (omega arith)

-- A table of 8 bytes at 0x40000000, whose sum is 256, mapped at 0xF8000000
abbrev short_table : AcpiTables
short_table = record two_tables {
  bytes = λ p. if p == 0x40000004 then 8 else if p == 0x40000000 then 248 else 0;
  tables = λ i j. if i * 1024 + j == 1015808 then 0x40000003 else low_window i j;
}

block_address : (kmalloc pair 8).1 ≡ 0xC0100430
unfolding alloc search_blocks suitable kmm_checks kmm_prechecks align_size alloc_from_block
block_address = refl

short_length : load32 0xF8000004 short_table ≡ Ended.returned 8
unfolding load32 are_mapped
short_length = refl

short_source : IsAt short_table.tables 0xF8000000 0x40000000 8
short_source = record {
  fits = omega arith;
  mapped = λ j h. ground (arith, h);
  target = λ j h. ground (arith, h);
}

short_target : IsAt short_table.tables 0xC0100430 0x100430 8
short_target = record {
  fits = omega arith;
  mapped = λ j h. ground (arith, h);
  target = λ j h. ground (arith, h);
}

copy_table-Checked_example : copy_table 9 0xF8000000 (λ length. length) short_table ≡ (
    if total 8 0x40000000 short_table.bytes % 256 == 0
    then Ended.returned (
      (kmalloc pair 8).1,
      record short_table {
        heap = (kmalloc pair 8).0;
        bytes = memcpy 0x100430 0x40000000 8 short_table.bytes;
        tables = kunmap 0xF8000000 short_table.tables;
      },
    )
    else Ended.panicked)
copy_table-Checked_example =
    copy_table-Checked 9 0xF8000000 0x40000000 0x100430 8 (λ length. length) short_table
      (λ k. ground arith) (omega arith) (omega arith) (omega arith) short_length refl short_source
      (subst (λ d. IsAt short_table.tables d 0x100430 8) (sym block_address) short_target)
      (inr (omega arith))
