-- ===== src/Gdt/Fields.antt =====
-- What the processor reads out of a descriptor.
use brownie_os.Base.{ℕ, ◌+◌, ◌*◌, ◌%◌, ◌<◌, ◌≡◌, arith}
use brownie_os.Gdt.{GdtEntry, gdt_set_gate}

abbrev pub base_of : GdtEntry → ℕ
base_of e = e.base_low + e.base_middle * 65536 + e.base_high * 16777216

abbrev pub limit_of : GdtEntry → ℕ
limit_of e = e.limit_low + e.granularity % 16 * 65536

-- A descriptor that `gdt_set_gate` writes holds the whole base, and the low 20 bits of the limit.
pub gdt_set_gate-fields :
    (index base limit access flags : ℕ) (entries : ℕ → GdtEntry)
    → base < 4294967296
    → let e = gdt_set_gate index base limit access flags entries index in
      (base_of e ≡ base) × (limit_of e ≡ limit % 1048576)
unfolding gdt_set_gate
gdt_set_gate-fields index base limit access flags entries small = (ground arith, ground arith)
