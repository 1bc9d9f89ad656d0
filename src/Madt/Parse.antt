-- ===== src/Madt/Parse.antt =====
-- The walk over an encoded table reads back its records, in their order.
use brownie_os.Base.{
  ℕ, zero, suc, ◌+◌, ◌/◌, ◌%◌, ◌<◌, ◌≡◌, refl, ap, subst, ◌∙◌, arith, some, List, [], ◌∷◌, lt→ltb,
  le→ltb,
}
use native.Mathlib.Nat.{mod-eq_of_lt}
use brownie_os.Libc.Memory.{Memory}
use brownie_os.Madt.{
  u16_at, u32_at, u64_at, parse_records, Madt, enter, Lapic, Ioapic, IoapicIso, NmiSrc, LapicNmi,
  LapicAddrOvr, MadtEntry, entry_at,
}
use brownie_os.Madt.Encode.{
  encode, size, encode_all, size_all, AllEntries, IsEntry, Holds, Holds-shift,
}

-- Sixteen and thirty-two bits read back
u16_at-bytes16 :
    (m : Memory) (p i x : ℕ)
    → x < 65536
    → m (p + i) ≡ x % 256
    → m (p + (i + 1)) ≡ x / 256 % 256
    → u16_at m p i ≡ x
u16_at-bytes16 m p i x small a b = omega (arith, small, a, b)

u32_at-bytes32 :
    (m : Memory) (p i x : ℕ)
    → x < 4294967296
    → m (p + i) ≡ x % 256
    → m (p + (i + 1)) ≡ x / 256 % 256
    → m (p + (i + 2)) ≡ x / 65536 % 256
    → m (p + (i + 3)) ≡ x / 16777216 % 256
    → u32_at m p i ≡ x
u32_at-bytes32 m p i x small a b c d = omega (arith, small, a, b, c, d)

at_zero : (m : Memory) (p v : ℕ) → m (p + 0) ≡ v → m p ≡ v
at_zero m p v h = ap m (omega arith) ∙ h

u64_at-bytes64 :
    (m : Memory) (p x : ℕ)
    → x < 18446744073709551616
    → m (p + 4) ≡ x % 4294967296 % 256
    → m (p + 5) ≡ x % 4294967296 / 256 % 256
    → m (p + 6) ≡ x % 4294967296 / 65536 % 256
    → m (p + 7) ≡ x % 4294967296 / 16777216 % 256
    → m (p + 8) ≡ x / 4294967296 % 256
    → m (p + 9) ≡ x / 4294967296 / 256 % 256
    → m (p + 10) ≡ x / 4294967296 / 65536 % 256
    → m (p + 11) ≡ x / 4294967296 / 16777216 % 256
    → u64_at m p 4 ≡ x
u64_at-bytes64 m p x small a b c d e f g h =
    let low = u32_at-bytes32 m p 4 (x % 4294967296) (omega arith) a b c d in
    let high = u32_at-bytes32 m p 8 (x / 4294967296) (omega (arith, small)) e f g h in
    rw (low, high) (omega arith)

-- The record `e` is read at `p`, its length byte is its size, and the rest stands behind it.
abbrev ReadsAt : Memory → ℕ → MadtEntry → List ℕ → Type 0
ReadsAt m p e rest = (entry_at m p ≡ some e) × (m (p + 1) ≡ size e) × Holds m p (size e) rest

lapic_at :
    (m : Memory) (p : ℕ) (e : Lapic) (rest : List ℕ)
    → IsEntry (MadtEntry.lapic e)
    → Holds m p 0 (encode (MadtEntry.lapic e) rest)
    → ReadsAt m p (MadtEntry.lapic e) rest
unfolding entry_at Holds
lapic_at m p e rest (head, small) (kind, (long, (h₂, (h₃, (f₀, (f₁, (f₂, (f₃, hs)))))))) = (
  rw (u32_at-bytes32 m p 4 e.flags small f₀ f₁ f₂ f₃, h₂, h₃, at_zero m p _ kind, long, head) refl,
  long,
  hs,
)

ioapic_at :
    (m : Memory) (p : ℕ) (e : Ioapic) (rest : List ℕ)
    → IsEntry (MadtEntry.ioapic e)
    → Holds m p 0 (encode (MadtEntry.ioapic e) rest)
    → ReadsAt m p (MadtEntry.ioapic e) rest
unfolding entry_at Holds
ioapic_at m p e rest (head, small, base)
      (kind, (long, (h₂, (h₃, (a₀, (a₁, (a₂, (a₃, (g₀, (g₁, (g₂, (g₃, hs)))))))))))) =
    (
      rw
          (
            u32_at-bytes32 m p 4 e.addr small a₀ a₁ a₂ a₃,
            u32_at-bytes32 m p 8 e.gsi_base base g₀ g₁ g₂ g₃,
            h₂,
            h₃,
            at_zero m p _ kind,
            long,
            head,
          )
          refl,
      long,
      hs,
    )

ioapic_iso_at :
    (m : Memory) (p : ℕ) (e : IoapicIso) (rest : List ℕ)
    → IsEntry (MadtEntry.ioapic_iso e)
    → Holds m p 0 (encode (MadtEntry.ioapic_iso e) rest)
    → ReadsAt m p (MadtEntry.ioapic_iso e) rest
unfolding entry_at Holds
ioapic_iso_at m p e rest (head, small, fits)
      (kind, (long, (h₂, (h₃, (a₀, (a₁, (a₂, (a₃, (f₀, (f₁, hs)))))))))) =
    (
      rw
          (
            u32_at-bytes32 m p 4 e.gsi small a₀ a₁ a₂ a₃,
            u16_at-bytes16 m p 8 e.flags fits f₀ f₁,
            h₂,
            h₃,
            at_zero m p _ kind,
            long,
            head,
          )
          refl,
      long,
      hs,
    )

nmi_src_at :
    (m : Memory) (p : ℕ) (e : NmiSrc) (rest : List ℕ)
    → IsEntry (MadtEntry.nmi_src e)
    → Holds m p 0 (encode (MadtEntry.nmi_src e) rest)
    → ReadsAt m p (MadtEntry.nmi_src e) rest
unfolding entry_at Holds
nmi_src_at m p e rest (head, fits, small)
      (kind, (long, (h₂, (h₃, (f₀, (f₁, (a₀, (a₁, (a₂, (a₃, hs)))))))))) =
    (
      rw
          (
            u16_at-bytes16 m p 4 e.flags fits f₀ f₁,
            u32_at-bytes32 m p 6 e.gsi small a₀ a₁ a₂ a₃,
            h₂,
            h₃,
            at_zero m p _ kind,
            long,
            head,
          )
          refl,
      long,
      hs,
    )

lapic_nmi_at :
    (m : Memory) (p : ℕ) (e : LapicNmi) (rest : List ℕ)
    → IsEntry (MadtEntry.lapic_nmi e)
    → Holds m p 0 (encode (MadtEntry.lapic_nmi e) rest)
    → ReadsAt m p (MadtEntry.lapic_nmi e) rest
unfolding entry_at Holds
lapic_nmi_at m p e rest (head, fits) (kind, (long, (h₂, (f₀, (f₁, (h₅, hs)))))) = (
  rw (u16_at-bytes16 m p 3 e.flags fits f₀ f₁, h₂, h₅, at_zero m p _ kind, long, head) refl,
  long,
  hs,
)

lapic_addr_ovr_at :
    (m : Memory) (p : ℕ) (e : LapicAddrOvr) (rest : List ℕ)
    → IsEntry (MadtEntry.lapic_addr_ovr e)
    → Holds m p 0 (encode (MadtEntry.lapic_addr_ovr e) rest)
    → ReadsAt m p (MadtEntry.lapic_addr_ovr e) rest
unfolding entry_at Holds
lapic_addr_ovr_at m p e rest (head, fits, small)
      (kind, (long, (f₀, (f₁, (a₀, (a₁, (a₂, (a₃, (a₄, (a₅, (a₆, (a₇, hs)))))))))))) =
    (
      rw
          (
            u16_at-bytes16 m p 2 e.reserved fits f₀ f₁,
            u64_at-bytes64 m p e.addr small a₀ a₁ a₂ a₃ a₄ a₅ a₆ a₇,
            at_zero m p _ kind,
            long,
            head,
          )
          refl,
      long,
      hs,
    )

entry_at-encode :
    (m : Memory) (p : ℕ) (e : MadtEntry) (rest : List ℕ)
    → IsEntry e
    → Holds m p 0 (encode e rest)
    → ReadsAt m p e rest
entry_at-encode m p (MadtEntry.lapic e) rest = lapic_at m p e rest
entry_at-encode m p (MadtEntry.ioapic e) rest = ioapic_at m p e rest
entry_at-encode m p (MadtEntry.ioapic_iso e) rest = ioapic_iso_at m p e rest
entry_at-encode m p (MadtEntry.nmi_src e) rest = nmi_src_at m p e rest
entry_at-encode m p (MadtEntry.lapic_nmi e) rest = lapic_nmi_at m p e rest
entry_at-encode m p (MadtEntry.lapic_addr_ovr e) rest = lapic_addr_ovr_at m p e rest

-- The effect of the records, first to last
unfoldable pub enter_all : List MadtEntry → Madt → Madt
enter_all [] s = s
enter_all (e ∷ es) s = enter_all es (enter e s)

unfoldable pub count : List MadtEntry → ℕ
count [] = 0
count (e ∷ es) = suc (count es)

-- What there is of a record in front of others
size-pos : (e : MadtEntry) → 0 < size e
size-pos (MadtEntry.lapic e) = omega arith
size-pos (MadtEntry.ioapic e) = omega arith
size-pos (MadtEntry.ioapic_iso e) = omega arith
size-pos (MadtEntry.nmi_src e) = omega arith
size-pos (MadtEntry.lapic_nmi e) = omega arith
size-pos (MadtEntry.lapic_addr_ovr e) = omega arith

-- The loop over the records of an encoded list ends behind them, with the effect of each.
pub parse_records-encode_all :
    (f end p : ℕ) (m : Memory) (es : List MadtEntry) (s : Madt)
    → count es < f
    → AllEntries es
    → Holds m p 0 (encode_all es)
    → p + size_all es ≡ end
    → end < 4294967296
    → parse_records f end p m s ≡ some (enter_all es s)
unfolding parse_records encode_all size_all AllEntries enter_all count
parse_records-encode_all zero end p m es s enough all holds ends small =
    absurd (omega (arith, enough))
parse_records-encode_all (suc f) end p m [] s enough all holds ends small =
    rw (le→ltb p end (omega (arith, ends))) refl
parse_records-encode_all (suc f) end p m (e ∷ es) s enough (one, all) holds ends small =
    let here = entry_at-encode m p e (encode_all es) one holds in
    let positive = size-pos e in
    let next =
      Holds-shift m p (size e) 0 (encode_all es)
        (subst (λ i. Holds m p i (encode_all es)) (omega arith) here.2) in
    let fits : p + size e < 4294967296 = omega (arith, ends, small) in
    rw (lt→ltb p end (omega (arith, ends, positive)), here.0, here.1, mod-eq_of_lt fits)
      (parse_records-encode_all f end (p + size e) m es (enter e s) (omega (arith, enough)) all next
        (omega (arith, ends)) small)
