-- ===== src/Examples/Tables.antt =====
-- ACPI tables on concrete bytes.
use brownie_os.Base.{
  ℕ, zero, suc, ◌+◌, ◌-◌, ◌%◌, ◌<◌, ◌≡◌, refl, arith, none, some, List, [], ◌∷◌, if◌then◌else◌,
  ◌==◌,
}
use brownie_os.Libc.Memory.{Memory}
use brownie_os.Madt.{u32_at, Lapic, Ioapic, IoapicIso, MadtEntry, Madt, parse_madt}
use brownie_os.Madt.Encode.{encode_all, size_all, AllEntries, Holds}
use brownie_os.Madt.Parse.{count}
use brownie_os.Madt.Contents.{lapics, isos, length, Contents, parse_madt-Contents}
use brownie_os.Madt.Stuck.{parse_madt-stuck}
use brownie_os.Acpi.{acpi_sdt_checksum}
use brownie_os.Acpi.Checksum.{total, acpi_sdt_checksum-total, acpi_sdt_checksum-runs}

abbrev nth : List ℕ → ℕ → ℕ
nth [] i = 0
nth (x ∷ xs) zero = x
nth (x ∷ xs) (suc i) = nth xs i

-- One local APIC, one IOAPIC and the override of the timer's interrupt
abbrev processor : Lapic
processor = record { header = record { type = 0; length = 8 }; acpi_id = 0; apic_id = 0; flags = 1 }

abbrev controller : Ioapic
controller = record {
  header = record { type = 1; length = 12 };
  ioapic_id = 2;
  reserved = 0;
  addr = 0xFEC00000;
  gsi_base = 0;
}

abbrev timer : IoapicIso
timer = record {
  header = record { type = 2; length = 10 };
  bus_src = 0;
  irq_src = 0;
  gsi = 2;
  flags = 0;
}

abbrev records : List MadtEntry
records = MadtEntry.lapic processor ∷ MadtEntry.ioapic controller ∷ MadtEntry.ioapic_iso timer ∷ []

-- The table with its header, at 0xC0800000
abbrev table_bytes : List ℕ
table_bytes =
    65 ∷ 80 ∷ 73 ∷ 67 ∷ 74 ∷ 0 ∷ 0 ∷ 0 ∷ 0 ∷ 0 ∷ 0 ∷ 0 ∷ 0 ∷ 0 ∷ 0 ∷ 0 ∷ 0 ∷ 0 ∷ 0 ∷ 0 ∷ 0 ∷ 0 ∷ 0
    ∷ 0 ∷ 0 ∷ 0 ∷ 0 ∷ 0 ∷ 0 ∷ 0 ∷ 0 ∷ 0 ∷ 0 ∷ 0 ∷ 0 ∷ 0 ∷ 0 ∷ 0 ∷ 224 ∷ 254 ∷ 1 ∷ 0 ∷ 0 ∷ 0 ∷ 0 ∷ 8
    ∷ 0 ∷ 0 ∷ 1 ∷ 0 ∷ 0 ∷ 0 ∷ 1 ∷ 12 ∷ 2 ∷ 0 ∷ 0 ∷ 0 ∷ 192 ∷ 254 ∷ 0 ∷ 0 ∷ 0 ∷ 0 ∷ 2 ∷ 10 ∷ 0 ∷ 0
    ∷ 2 ∷ 0 ∷ 0 ∷ 0 ∷ 0 ∷ 0 ∷ []

abbrev table : Memory
table a = nth table_bytes (a - 0xC0800000)

records_stand : Holds table 0xC0800000 44 (encode_all records)
unfolding Holds encode_all
records_stand = (
  refl,
  (
    refl,
    (
      refl,
      (
        refl,
        (
          refl,
          (
            refl,
            (
              refl,
              (
                refl,
                (
                  refl,
                  (
                    refl,
                    (
                      refl,
                      (
                        refl,
                        (
                          refl,
                          (
                            refl,
                            (
                              refl,
                              (
                                refl,
                                (
                                  refl,
                                  (
                                    refl,
                                    (
                                      refl,
                                      (
                                        refl,
                                        (
                                          refl,
                                          (
                                            refl,
                                            (
                                              refl,
                                              (
                                                refl,
                                                (
                                                  refl,
                                                  (refl, (refl, (refl, (refl, (refl, record {}))))),
                                                ),
                                              ),
                                            ),
                                          ),
                                        ),
                                      ),
                                    ),
                                  ),
                                ),
                              ),
                            ),
                          ),
                        ),
                      ),
                    ),
                  ),
                ),
              ),
            ),
          ),
        ),
      ),
    ),
  ),
)

records-AllEntries : AllEntries records
unfolding AllEntries
records-AllEntries = (
  (refl, omega arith),
  ((refl, omega arith, omega arith), ((refl, omega arith, omega arith), record {})),
)

sizes : u32_at table 0xC0800000 4 ≡ 44 + size_all records
unfolding size_all
sizes = refl

few :
    (count records < 4)
    × (0xC0800000 + 44 + size_all records < 4294967296)
    × (length (lapics records) < 256)
    × (length (isos records) < 256)
unfolding count size_all lapics isos length
few = (omega arith, omega arith, omega arith, omega arith)

abbrev unknown : Madt
unknown = record {
  num_procs = 0;
  lapic_ids = λ i. 0;
  num_iso_entries = 0;
  iso_entries = λ i. timer;
  lapic_addr = 0;
  ioapic_addr = 0;
  printed = [];
}

parse_madt-Contents_example :
    (t : Madt) × (parse_madt 4 0xC0800000 table unknown ≡ some t) × Contents 0xFEE00000 records t
parse_madt-Contents_example =
    parse_madt-Contents 4 0xC0800000 table records unknown few.0 records-AllEntries records_stand
      sizes few.1 refl refl refl refl few.2 few.3

-- A table of 60 bytes whose record is an x2APIC's
abbrev newer : Memory
newer a = if a == 0xC0800004 then 60 else if a == 0xC080002C then 9 else 0

parse_madt-stuck_example : parse_madt 1000 0xC0800000 newer unknown ≡ none
parse_madt-stuck_example =
    parse_madt-stuck 1000 0xC0800000 newer unknown (omega arith) (omega arith)

table-bytes : (q : ℕ) → newer q < 256
table-bytes q = ground arith

acpi_sdt_checksum-total_example :
    acpi_sdt_checksum 61 0xC0800000 newer ≡ some (total 60 0xC0800000 newer % 256 == 0)
acpi_sdt_checksum-total_example =
    acpi_sdt_checksum-total 61 0xC0800000 newer table-bytes (omega arith) (omega arith)
      (omega arith)

-- The length of this one is 256.
abbrev long_table : Memory
long_table a = if a == 0xC0800005 then 1 else 0

acpi_sdt_checksum-runs_example : acpi_sdt_checksum 1000 0xC0800000 long_table ≡ none
acpi_sdt_checksum-runs_example = acpi_sdt_checksum-runs 1000 0xC0800000 long_table (omega arith)
