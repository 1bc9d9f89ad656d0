-- ===== src/Madt/Encode.antt =====
-- The bytes of a table's records, and that a read of them gives the records back.
use brownie_os.Base.{
  ℕ, ◌+◌, ◌/◌, ◌%◌, ◌<◌, ◌≡◌, ap, subst, ◌∙◌, arith, List, [], ◌∷◌, bytes16, bytes32,
}
use brownie_os.Libc.Memory.{Memory}
use brownie_os.Madt.{MadtEntry}

-- `x` in eight bytes in front of `rest`
abbrev pub bytes64 : ℕ → List ℕ → List ℕ
bytes64 x rest = bytes32 (x % 4294967296) (bytes32 (x / 4294967296) rest)

-- A record in front of `rest`
abbrev pub encode : MadtEntry → List ℕ → List ℕ
encode (MadtEntry.lapic e) rest = 0 ∷ 8 ∷ e.acpi_id ∷ e.apic_id ∷ bytes32 e.flags rest
encode (MadtEntry.ioapic e) rest =
    1 ∷ 12 ∷ e.ioapic_id ∷ e.reserved ∷ bytes32 e.addr (bytes32 e.gsi_base rest)
encode (MadtEntry.ioapic_iso e) rest =
    2 ∷ 10 ∷ e.bus_src ∷ e.irq_src ∷ bytes32 e.gsi (bytes16 e.flags rest)
encode (MadtEntry.nmi_src e) rest =
    3 ∷ 10 ∷ e.source ∷ e.reserved ∷ bytes16 e.flags (bytes32 e.gsi rest)
encode (MadtEntry.lapic_nmi e) rest = 4 ∷ 6 ∷ e.acpi_id ∷ bytes16 e.flags (e.lint ∷ rest)
encode (MadtEntry.lapic_addr_ovr e) rest = 5 ∷ 12 ∷ bytes16 e.reserved (bytes64 e.addr rest)

abbrev pub size : MadtEntry → ℕ
size (MadtEntry.lapic e) = 8
size (MadtEntry.ioapic e) = 12
size (MadtEntry.ioapic_iso e) = 10
size (MadtEntry.nmi_src e) = 10
size (MadtEntry.lapic_nmi e) = 6
size (MadtEntry.lapic_addr_ovr e) = 12

unfoldable pub encode_all : List MadtEntry → List ℕ
encode_all [] = []
encode_all (e ∷ es) = encode e (encode_all es)

unfoldable pub size_all : List MadtEntry → ℕ
size_all [] = 0
size_all (e ∷ es) = size e + size_all es

-- The header is the one of the record's type, and the wide fields fit their widths.
abbrev pub IsEntry : MadtEntry → Type 0
IsEntry (MadtEntry.lapic e) = (e.header ≡ record { type = 0; length = 8 }) × (e.flags < 4294967296)
IsEntry (MadtEntry.ioapic e) =
    (e.header ≡ record { type = 1; length = 12 })
    × (e.addr < 4294967296)
    × (e.gsi_base < 4294967296)
IsEntry (MadtEntry.ioapic_iso e) =
    (e.header ≡ record { type = 2; length = 10 }) × (e.gsi < 4294967296) × (e.flags < 65536)
IsEntry (MadtEntry.nmi_src e) =
    (e.header ≡ record { type = 3; length = 10 }) × (e.flags < 65536) × (e.gsi < 4294967296)
IsEntry (MadtEntry.lapic_nmi e) = (e.header ≡ record { type = 4; length = 6 }) × (e.flags < 65536)
IsEntry (MadtEntry.lapic_addr_ovr e) =
    (e.header ≡ record { type = 5; length = 12 })
    × (e.reserved < 65536)
    × (e.addr < 18446744073709551616)

unfoldable pub AllEntries : List MadtEntry → Type 0
AllEntries [] = Unit
AllEntries (e ∷ es) = IsEntry e × AllEntries es

-- The bytes `bs` stand in memory from `p + i` on.
unfoldable pub Holds : Memory → (p i : ℕ) → List ℕ → Type 0
Holds m p i [] = Unit
Holds m p i (b ∷ bs) = (m (p + i) ≡ b) × Holds m p (i + 1) bs

pub Holds-shift :
    (m : Memory) (p k i : ℕ) (bs : List ℕ) → Holds m p (k + i) bs → Holds m (p + k) i bs
unfolding Holds
Holds-shift m p k i [] h = h
Holds-shift m p k i (b ∷ bs) (h, hs) = (
  ap m (omega arith) ∙ h,
  Holds-shift m p k (i + 1) bs (subst (λ j. Holds m p j bs) (omega arith) hs),
)
