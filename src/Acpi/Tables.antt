-- ===== src/Acpi/Tables.antt =====
-- find_rsdt_xsdt, find_table, find_madt, find_hpet, find_fadt and init_acpi of
-- kernel/kernel/core/acpi.c, which read the firmware's tables through temporary mappings. Memory is a
-- function from physical addresses to bytes; `tables` are the kernel's page tables, with the window
-- onto low memory. An address whose entry is not present is a page fault, which ends in a panic.
pub mod Find
pub mod Copy
use brownie_os.Base.{
  ℕ, zero, suc, ◌+◌, ◌*◌, ◌/◌, ◌%◌, Bool, true, false, not, ◌&&◌, Option, none, some, List, [], ◌∷◌,
  ltb, leb, ◌==◌, if◌then◌else◌, update, add32, sub32,
}
use brownie_os.Libc.Memory.{Memory}
use brownie_os.Madt.{u32_at}
use brownie_os.Vmm.{Tables, kmap, kunmap}
use brownie_os.Vmm.Window.{entry_of, translate}
use brownie_os.Kmm.{Kmm, kmalloc}
use brownie_os.Boot.{Ended}
use brownie_os.Paging.{present}
use brownie_os.Paging.Clone.{and_then}
use brownie_os.Acpi.{acpi_sdt_checksum}

-- The variables of acpi.c, memory, the page tables and the heap. The pointers at the sources of the
-- copies are used in one function each.
pub record AcpiTables : Type 0 where
  pub acpi_version : ℕ
  pub rsdp : ℕ
  pub rsdt : ℕ
  pub xsdt : ℕ
  pub madt : ℕ
  pub hpet : ℕ
  pub fadt : ℕ
  pub bytes : Memory
  pub tables : Tables
  pub heap : Kmm

-- Memory by virtual address
abbrev pub view : AcpiTables → Memory
view a v = a.bytes (translate a.tables v)

abbrev pub is_mapped : Tables → ℕ → Bool
is_mapped tables v = leb 0xC0000000 v && present (entry_of tables v)

-- The `n` bytes from `v` on can be read.
unfoldable pub are_mapped : (n v : ℕ) → Tables → Bool
are_mapped zero v tables = true
are_mapped (suc n) v tables = is_mapped tables v && are_mapped n (v + 1) tables

-- A field of four bytes
unfoldable pub load32 : (v : ℕ) → AcpiTables → Ended ℕ
unfolding are_mapped
load32 v a =
    if are_mapped 4 v a.tables then Ended.returned (u32_at (view a) v 0) else Ended.panicked

-- One byte of `memcpy`
abbrev pub copy_byte : (dst src : ℕ) → AcpiTables → Ended AcpiTables
copy_byte dst src a =
    if is_mapped a.tables src && is_mapped a.tables dst
    then Ended.returned (record a { bytes = update a.bytes (translate a.tables dst) (view a src) })
    else Ended.panicked

-- `memcpy` through the mappings, from `i` on with `n` rounds left
unfoldable pub copy_bytes : (n i dst src : ℕ) → AcpiTables → Ended AcpiTables
copy_bytes zero i dst src a = Ended.returned a
copy_bytes (suc n) i dst src a =
    and_then (copy_byte (add32 dst i) (add32 src i) a) (λ t. copy_bytes n (i + 1) dst src t)

-- `strncmp(entry->signature, sig, n) == 0`, by the characters of the literal
unfoldable pub has_signature : (sig : List ℕ) (entry : ℕ) → Memory → Bool
has_signature [] entry m = true
has_signature (c ∷ sig) entry m = (m entry == c) && has_signature sig (entry + 1) m

abbrev pub set_tables : Tables → AcpiTables → AcpiTables
set_tables tables a = record a { tables = tables }

-- The loop of `find_table` over entries of `width` bytes, from `i` on with `n` rounds left: `kmap`
-- takes the low word of an entry.
unfoldable pub find_table_from :
    (n i width table : ℕ) (sig : List ℕ) → AcpiTables → Ended (ℕ × AcpiTables)
find_table_from zero i width table sig a = Ended.returned (0, a)
find_table_from (suc n) i width table sig a =
    and_then (load32 (add32 table (36 + i * width)) a) (λ paddr.
      let got = kmap paddr a.tables in
      let rest = find_table_from n (i + 1) width table sig (set_tables (kunmap got.0 got.1) a) in
      if not (are_mapped 4 got.0 got.1)
      then Ended.panicked
      else if has_signature sig got.0 (view (set_tables got.1 a))
      then Ended.returned (got.0, set_tables got.1 a)
      else rest)

-- `find_table`: the address of the mapping, or 0
unfoldable pub find_table : (sig : List ℕ) → AcpiTables → Ended (ℕ × AcpiTables)
unfolding find_table_from load32
find_table sig a =
    if ltb a.acpi_version 2
    then and_then (load32 (add32 a.rsdt 4) a)
        (λ length. find_table_from (sub32 length 36 / 4) 0 4 a.rsdt sig a)
    else and_then (load32 (add32 a.xsdt 4) a)
        (λ length. find_table_from (sub32 length 36 / 8) 0 8 a.xsdt sig a)

-- The two checksums, of the source and of the copy, either of which may end in a panic
abbrev pub checked : Option Bool → Option Bool → AcpiTables → Ended AcpiTables
checked none dst a = Ended.running
checked (some false) dst a = Ended.panicked
checked (some true) none a = Ended.running
checked (some true) (some false) a = Ended.panicked
checked (some true) (some true) a = Ended.returned a

-- `kunmap` of the source, and the address of the copy
abbrev pub release_source : (dst src : ℕ) → AcpiTables → Ended (ℕ × AcpiTables)
release_source dst src a = Ended.returned (dst, set_tables (kunmap src a.tables) a)

-- What follows the `memcpy`; `f` is the fuel of the checksums.
abbrev pub check_copy : (f dst src : ℕ) → AcpiTables → Ended (ℕ × AcpiTables)
check_copy f dst src a =
    and_then (checked (acpi_sdt_checksum f src (view a)) (acpi_sdt_checksum f dst (view a)) a)
      (release_source dst src)

-- `kmalloc` of `size`, `memcpy` of as many bytes as the header says, and the checks
abbrev pub copy_sized :
    (f src : ℕ) (size : ℕ → ℕ) (length : ℕ) → AcpiTables → Ended (ℕ × AcpiTables)
copy_sized f src size length a =
    let got = kmalloc a.heap (size length) in
    and_then (copy_bytes length 0 got.1 src (record a { heap = got.0 })) (check_copy f got.1 src)

-- The copy of the table that is mapped at `src`: `size` is what is allocated for a table's length.
unfoldable pub copy_table : (f src : ℕ) (size : ℕ → ℕ) → AcpiTables → Ended (ℕ × AcpiTables)
unfolding load32
copy_table f src size a =
    and_then (load32 (add32 src 4) a) (λ length. copy_sized f src size length a)

-- `find_rsdt_xsdt`: the field `rsdt_addr` is at the offset 16.
unfoldable pub find_rsdt_xsdt : (f : ℕ) → AcpiTables → Ended AcpiTables
find_rsdt_xsdt f a =
    if ltb a.acpi_version 2
    then and_then (load32 (add32 a.rsdp 16) a) (λ rsdt_addr.
      let got = kmap rsdt_addr a.tables in
      and_then (copy_table f got.0 (λ length. length) (set_tables got.1 a))
        (λ r. Ended.returned (record (r.1) { rsdt = r.0 })))
    else Ended.panicked

-- MADT_SIG, HPET_SIG, FADT_SIG
abbrev pub madt_sig : List ℕ
madt_sig = 65 ∷ 80 ∷ 73 ∷ 67 ∷ []

abbrev pub hpet_sig : List ℕ
hpet_sig = 72 ∷ 80 ∷ 69 ∷ 84 ∷ []

abbrev pub fadt_sig : List ℕ
fadt_sig = 70 ∷ 65 ∷ 67 ∷ 80 ∷ []

-- `find_madt` and `find_hpet`
unfoldable pub find_madt : (f : ℕ) → AcpiTables → Ended AcpiTables
find_madt f a = and_then (find_table madt_sig a) (λ found.
    and_then (copy_table f found.0 (λ length. length) found.1)
      (λ r. Ended.returned (record (r.1) { madt = r.0 })))

unfoldable pub find_hpet : (f : ℕ) → AcpiTables → Ended AcpiTables
find_hpet f a = and_then (find_table hpet_sig a) (λ found.
    and_then (copy_table f found.0 (λ length. length) found.1)
      (λ r. Ended.returned (record (r.1) { hpet = r.0 })))

-- The widths of the fields of `struct fadt` behind the header
abbrev pub fadt_fields : List ℕ
fadt_fields =
    4 ∷ 4 ∷ 1 ∷ 1 ∷ 2 ∷ 4 ∷ 1 ∷ 1 ∷ 1 ∷ 1 ∷ 4 ∷ 4 ∷ 4 ∷ 4 ∷ 4 ∷ 4 ∷ 4 ∷ 4 ∷ 1 ∷ 1 ∷ 1 ∷ 1 ∷ 1 ∷ 1
    ∷ 1 ∷ 1 ∷ 2 ∷ 2 ∷ 2 ∷ 2 ∷ 1 ∷ 1 ∷ 1 ∷ 1 ∷ 1 ∷ 2 ∷ 1 ∷ 4 ∷ 12 ∷ 1 ∷ 3 ∷ 8 ∷ 8 ∷ 12 ∷ 12 ∷ 12 ∷ 12
    ∷ 12 ∷ 12 ∷ 12 ∷ 12 ∷ []

unfoldable pub total_width : List ℕ → ℕ
total_width [] = 0
total_width (w ∷ ws) = w + total_width ws

-- `find_fadt`: the block has the size of the structure, whatever the table's length.
unfoldable pub find_fadt : (f : ℕ) → AcpiTables → Ended AcpiTables
unfolding total_width
find_fadt f a = and_then (find_table fadt_sig a) (λ found.
    and_then (copy_table f found.0 (λ length. 36 + total_width fadt_fields) found.1)
      (λ r. Ended.returned (record (r.1) { fadt = r.0 })))

-- `init_acpi` behind `find_rsdp`
unfoldable pub init_acpi : (f : ℕ) → AcpiTables → Ended AcpiTables
init_acpi f a =
    and_then (find_rsdt_xsdt f a)
      (λ b. and_then (find_madt f b) (λ c. and_then (find_hpet f c) (λ d. find_fadt f d)))
