-- ===== src/Gdt.antt =====
-- kernel/kernel/core/gdt.c, kernel/include/core/gdt.h: the segment descriptors of the flat model.
-- The table is a function of the index.
pub mod Fields
use brownie_os.Base.{ℕ, ◌+◌, ◌*◌, ◌/◌, ◌%◌, ◌≡◌, update}

-- `struct gdt_entry`
pub record GdtEntry : Type 0 where
  pub limit_low : ℕ
  pub base_low : ℕ
  pub base_middle : ℕ
  pub access : ℕ
  pub granularity : ℕ
  pub base_high : ℕ

-- `gdt_set_gate`: `& 0xFFFF`, `& 0xFF`, `& 0xF` and `& 0xF0` are written as remainders, and the `|`
-- of the two nibbles as a sum.
unfoldable pub gdt_set_gate : (index base limit access flags : ℕ) → (ℕ → GdtEntry) → ℕ → GdtEntry
gdt_set_gate index base limit access flags entries = update entries index (record {
  limit_low = limit % 65536;
  base_low = base % 65536;
  base_middle = base / 65536 % 256;
  access = access;
  granularity = flags / 16 % 16 * 16 + limit / 65536 % 16;
  base_high = base / 16777216 % 256;
})

-- The five gates that `gdt_init` sets
unfoldable pub gdt_init : (ℕ → GdtEntry) → ℕ → GdtEntry
gdt_init entries = gdt_set_gate 4 0 0xFFFFFF 0b11110010 0b11001111 (
    gdt_set_gate 3 0 0xFFFFFF 0b11111010 0b11001111 (
      gdt_set_gate 2 0 0xFFFFFF 0b10010010 0b11001111
        (gdt_set_gate 1 0 0xFFFFFF 0b10011010 0b11001111 (gdt_set_gate 0 0 0 0 0 entries))))
