-- ===== src/Madt.antt =====
-- kernel/kernel/core/madt.c, kernel/include/core/madt.h, and struct madt and acpi_sdt_header of
-- kernel/include/core/acpi.h: the walk over the records of the ACPI table "APIC". Memory is a
-- function from addresses to bytes. What the code prints is a list of the records it prints.
pub mod Encode
pub mod Parse
pub mod Contents
pub mod Stuck
use brownie_os.Base.{
  ℕ, zero, suc, ◌+◌, ◌*◌, ◌%◌, Option, none, some, List, [], ◌∷◌, ◌++◌, ltb, ◌==◌, if◌then◌else◌,
  update, add32,
}
use brownie_os.Libc.Memory.{Memory}

-- The field of 16, 32 or 64 bits at the offset `i` of the structure at `p`, the low byte first
abbrev pub u16_at : Memory → (p i : ℕ) → ℕ
u16_at m p i = m (p + i) + m (p + (i + 1)) * 256

abbrev pub u32_at : Memory → (p i : ℕ) → ℕ
u32_at m p i =
    m (p + i) + m (p + (i + 1)) * 256 + m (p + (i + 2)) * 65536 + m (p + (i + 3)) * 16777216

abbrev pub u64_at : Memory → (p i : ℕ) → ℕ
u64_at m p i = u32_at m p i + u32_at m p (i + 4) * 4294967296

-- `struct record_header`
pub record RecordHeader : Type 0 where
  pub type : ℕ
  pub length : ℕ

-- `struct type_0_lapic`
pub record Lapic : Type 0 where
  pub header : RecordHeader
  pub acpi_id : ℕ
  pub apic_id : ℕ
  pub flags : ℕ

-- `struct type_1_ioapic`, whose field `id` is `ioapic_id`
pub record Ioapic : Type 0 where
  pub header : RecordHeader
  pub ioapic_id : ℕ
  pub reserved : ℕ
  pub addr : ℕ
  pub gsi_base : ℕ

-- `struct type_2_ioapic_iso`
pub record IoapicIso : Type 0 where
  pub header : RecordHeader
  pub bus_src : ℕ
  pub irq_src : ℕ
  pub gsi : ℕ
  pub flags : ℕ

-- `struct type_3_nmi_src`, whose field `nmi_src` is `source`
pub record NmiSrc : Type 0 where
  pub header : RecordHeader
  pub source : ℕ
  pub reserved : ℕ
  pub flags : ℕ
  pub gsi : ℕ

-- `struct type_4_lapic_nmi`
pub record LapicNmi : Type 0 where
  pub header : RecordHeader
  pub acpi_id : ℕ
  pub flags : ℕ
  pub lint : ℕ

-- `struct type_5_lapic_addr_ovr`
pub record LapicAddrOvr : Type 0 where
  pub header : RecordHeader
  pub reserved : ℕ
  pub addr : ℕ

-- The record that `ptr` is cast to, by its type
pub data MadtEntry : Type 0 where
  lapic : Lapic → MadtEntry
  ioapic : Ioapic → MadtEntry
  ioapic_iso : IoapicIso → MadtEntry
  nmi_src : NmiSrc → MadtEntry
  lapic_nmi : LapicNmi → MadtEntry
  lapic_addr_ovr : LapicAddrOvr → MadtEntry

abbrev pub header_at : Memory → ℕ → RecordHeader
header_at m p = record { type = m p; length = m (p + 1) }

-- The `switch` with the casts of its cases; the enumeration's LAPIC_X2APIC (9) has no case.
unfoldable pub entry_at : Memory → ℕ → Option MadtEntry
entry_at m p =
    let header = header_at m p in
    if m p == 0
    then some (
        MadtEntry.lapic (record {
          header = header;
          acpi_id = m (p + 2);
          apic_id = m (p + 3);
          flags = u32_at m p 4;
        }))
    else if m p == 1
    then some (
        MadtEntry.ioapic (record {
          header = header;
          ioapic_id = m (p + 2);
          reserved = m (p + 3);
          addr = u32_at m p 4;
          gsi_base = u32_at m p 8;
        }))
    else if m p == 2
    then some (
        MadtEntry.ioapic_iso (record {
          header = header;
          bus_src = m (p + 2);
          irq_src = m (p + 3);
          gsi = u32_at m p 4;
          flags = u16_at m p 8;
        }))
    else if m p == 3
    then some (
        MadtEntry.nmi_src (record {
          header = header;
          source = m (p + 2);
          reserved = m (p + 3);
          flags = u16_at m p 4;
          gsi = u32_at m p 6;
        }))
    else if m p == 4
    then some (
        MadtEntry.lapic_nmi
          (record { header = header; acpi_id = m (p + 2); flags = u16_at m p 3; lint = m (p + 5) }))
    else if m p == 5
    then some (
        MadtEntry.lapic_addr_ovr
          (record { header = header; reserved = u16_at m p 2; addr = u64_at m p 4 }))
    else none

-- The variables of madt.c, and what was printed
pub record Madt : Type 0 where
  pub num_procs : ℕ
  pub lapic_ids : ℕ → ℕ
  pub num_iso_entries : ℕ
  pub iso_entries : ℕ → IoapicIso
  pub lapic_addr : ℕ
  pub ioapic_addr : ℕ
  pub printed : List MadtEntry

-- What the case of a record does: it is printed, then stored; both counters are `uint8_t`.
abbrev pub store : MadtEntry → Madt → Madt
store (MadtEntry.lapic e) s = record s {
  lapic_ids = update s.lapic_ids s.num_procs e.apic_id;
  num_procs = (s.num_procs + 1) % 256;
}
store (MadtEntry.ioapic e) s = record s {
  ioapic_addr = if s.ioapic_addr == 0 then e.addr else s.ioapic_addr;
}
store (MadtEntry.ioapic_iso e) s = record s {
  iso_entries = update s.iso_entries s.num_iso_entries e;
  num_iso_entries = (s.num_iso_entries + 1) % 256;
}
store (MadtEntry.nmi_src e) s = s
store (MadtEntry.lapic_nmi e) s = s
store (MadtEntry.lapic_addr_ovr e) s = s

unfoldable pub enter : MadtEntry → Madt → Madt
enter e s = let t = store e s in record t { printed = t.printed ++ (e ∷ []) }

-- One round of the loop: the new `ptr` and state. A type without a case leaves both as they are.
abbrev pub round : Memory → ℕ → Option MadtEntry → Madt → ℕ × Madt
round m ptr none s = (ptr, s)
round m ptr (some e) s = (add32 ptr (m (ptr + 1)), enter e s)

-- The loop, on fuel; `none` means that it is still running.
pub parse_records : (f end ptr : ℕ) → Memory → Madt → Option Madt
parse_records zero end ptr m s = none
parse_records (suc f) end ptr m s =
    let next = round m ptr (entry_at m ptr) s in
    let rest = parse_records f end next.0 m next.1 in if ltb ptr end then rest else some s

-- `parse_madt`: the records begin behind the header of 36 bytes, the address of the local APIC and
-- the flags.
unfoldable pub parse_madt : (f madt : ℕ) → Memory → Madt → Option Madt
unfolding parse_records
parse_madt f madt m s =
    parse_records f (add32 madt (u32_at m madt 4)) (add32 madt 44) m
      (record s { lapic_addr = u32_at m madt 36 })
