-- ===== src/Acpi.antt =====
-- kernel/kernel/core/acpi.c, kernel/include/core/acpi.h: the search for the root pointer of the
-- ACPI tables, and the checksums. Memory is a function from addresses to bytes; the headers of the
-- kernel heap are those of `heap`.
pub mod Checksum
pub mod Search
pub mod Tables
use brownie_os.Base.{
  ℕ, zero, suc, ◌+◌, ◌%◌, Bool, true, false, not, Option, none, some, ltb, ◌==◌, if◌then◌else◌,
  add32,
}
use brownie_os.Libc.Memory.{Memory, Sign, strncmp, memcpy, memset}
use brownie_os.Madt.{u32_at}
use brownie_os.Kmm.{Kmm, kmalloc}

-- The state of the search: `acpi_version`, `rsdp_ptr` and `rsdp`, memory and the heap
pub record Acpi : Type 0 where
  pub acpi_version : ℕ
  pub rsdp_ptr : ℕ
  pub rsdp : ℕ
  pub memory : Memory
  pub heap : Kmm

-- The loop of `rsdp_checksum`, from `i` on with `n` rounds left: `sum` is a `uint8_t`.
pub byte_sum : (n i sum p : ℕ) → Memory → ℕ
byte_sum zero i sum p m = sum
byte_sum (suc n) i sum p m = byte_sum n (i + 1) ((sum + m (p + i)) % 256) p m

-- `rsdp_checksum`
unfoldable pub rsdp_checksum : Acpi → Bool
unfolding byte_sum
rsdp_checksum a =
    if ltb a.acpi_version 2
    then byte_sum 20 0 0 a.rsdp_ptr a.memory % 256 == 0
    else byte_sum 36 0 0 a.rsdp_ptr a.memory % 256 == 0

-- The loop of `acpi_sdt_checksum`, on fuel: `i` is a `uint8_t`, `sum` a `uint32_t`; `none` means that
-- it is still running. Every address can be read here, also past the table.
pub table_sum : (f i byte sum length : ℕ) → Memory → Option ℕ
table_sum zero i byte sum length m = none
table_sum (suc f) i byte sum length m =
    let rest = table_sum f ((i + 1) % 256) (add32 byte 1) (add32 sum (m byte)) length m in
    if ltb i length then rest else some sum

abbrev pub is_zero_sum : Option ℕ → Option Bool
is_zero_sum none = none
is_zero_sum (some sum) = some (sum % 256 == 0)

-- `acpi_sdt_checksum`: the length is the second field of the header.
unfoldable pub acpi_sdt_checksum : (f header : ℕ) → Memory → Option Bool
unfolding table_sum
acpi_sdt_checksum f header m = is_zero_sum (table_sum f 0 header 0 (u32_at m header 4) m)

abbrev pub is_zero_sign : Sign → Bool
is_zero_sign Sign.zero_sign = true
is_zero_sign _ = false

-- `strncmp(ptr, RSDP_SIG, 8) == 0`, with the literal's address
abbrev pub is_signature : (sig ptr : ℕ) → Memory → Bool
is_signature sig ptr m = is_zero_sign (strncmp ptr sig 8 m)

-- A candidate is copied into a block of the heap, and its revision, at offset 15, noted.
abbrev pub take_rsdp : (ptr : ℕ) → Acpi → Acpi
take_rsdp ptr a =
    let got = kmalloc a.heap 36 in
    let memory' = memcpy got.1 ptr 36 a.memory in
    record {
      acpi_version = memory' (got.1 + 15);
      rsdp_ptr = ptr;
      rsdp = got.1;
      memory = memory';
      heap = got.0;
    }

-- `rsdp_ptr = NULL; *rsdp = (rsdp_t){0};`
abbrev pub drop_rsdp : Acpi → Acpi
drop_rsdp a = record a { rsdp_ptr = 0; memory = memset a.rsdp 0 36 a.memory }

-- The loop of `find_rsdp`, from the address `ptr` on with `n` candidates left
pub find_rsdp_from : (n sig ptr : ℕ) → Acpi → Acpi
find_rsdp_from zero sig ptr a = a
find_rsdp_from (suc n) sig ptr a =
    let taken = take_rsdp ptr a in
    let skipped = find_rsdp_from n sig (add32 ptr 16) a in
    let dropped = find_rsdp_from n sig (add32 ptr 16) (drop_rsdp taken) in
    if is_signature sig ptr a.memory
    then (if rsdp_checksum taken then taken else dropped)
    else skipped

-- `find_rsdp`: from 0xC00E0000 to below 0xC00FFFFF there are 8192 candidates.
unfoldable pub find_rsdp : (sig : ℕ) → Acpi → Acpi
unfolding find_rsdp_from
find_rsdp sig a = find_rsdp_from 8192 sig 0xC00E0000 a
