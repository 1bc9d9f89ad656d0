-- ===== src/Acpi/Checksum.antt =====
-- acpi_sdt_checksum: the sum of a table of at most 255 bytes, and what happens with a longer one.
use brownie_os.Base.{
  ℕ, zero, suc, ◌+◌, ◌*◌, sym, ◌%◌, ◌<◌, ◌≤◌, ◌≡◌, refl, ap, ◌∙◌, arith, none, some, ◌==◌, add32,
  lt→ltb, le→ltb,
}
use native.Mathlib.Nat.{mod-eq_of_lt}
use brownie_os.Libc.Memory.{Memory}
use brownie_os.Madt.{u32_at}
use brownie_os.Acpi.{table_sum, is_zero_sum, acpi_sdt_checksum}

-- The sum of `n` bytes from `p` on
unfoldable pub total : (n p : ℕ) → Memory → ℕ
total zero p m = 0
total (suc n) p m = m p + total n (p + 1) m

table_sum-total :
    (n f i byte sum : ℕ) (m : Memory)
    → n < f
    → i + n < 256
    → byte + n < 4294967296
    → sum + total n byte m < 4294967296
    → table_sum f i byte sum (i + n) m ≡ some (sum + total n byte m)
unfolding table_sum total
table_sum-total n zero i byte sum m enough short fits small = absurd (omega (arith, enough))
table_sum-total zero (suc f) i byte sum m enough short fits small =
    rw (le→ltb i (i + zero) (omega arith)) (ap some (omega arith))
table_sum-total (suc n) (suc f) i byte sum m enough short fits small =
    let rest =
      table_sum-total n f (i + 1) (byte + 1) (sum + m byte) m (omega (arith, enough))
        (omega (arith, short)) (omega (arith, fits)) (omega (arith, small)) in
    let more = lt→ltb i (i + suc n) (omega arith) in
    let next_i : (i + 1) % 256 ≡ i + 1 = mod-eq_of_lt (omega (arith, short)) in
    let next_byte : add32 byte 1 ≡ byte + 1 = mod-eq_of_lt (omega (arith, fits)) in
    let next_sum : add32 sum (m byte) ≡ sum + m byte = mod-eq_of_lt (omega (arith, small)) in
    let len : i + suc n ≡ i + 1 + n = omega arith in
    rw (more, next_i, next_byte, next_sum, len) (rest ∙ ap some (omega arith))

total_bound : (n p : ℕ) (m : Memory) → ((q : ℕ) → m q < 256) → total n p m ≤ n * 256
unfolding total
total_bound zero p m bytes = omega arith
total_bound (suc n) p m bytes =
    let rest = total_bound n (p + 1) m bytes in omega (arith, rest, bytes p)

-- For a table of at most 255 bytes in the address space, with more fuel than bytes, the checksum is
-- whether the sum of its bytes is a multiple of 256.
pub acpi_sdt_checksum-total :
    (f header : ℕ) (m : Memory)
    → ((q : ℕ) → m q < 256)
    → u32_at m header 4 < 256
    → u32_at m header 4 < f
    → header + u32_at m header 4 < 4294967296
    → acpi_sdt_checksum f header m ≡ some (total (u32_at m header 4) header m % 256 == 0)
unfolding acpi_sdt_checksum
acpi_sdt_checksum-total f header m bytes short enough fits =
    let bound = total_bound (u32_at m header 4) header m bytes in
    let len = u32_at m header 4 in
    let sum =
      table_sum-total len f 0 header 0 m enough (omega (arith, short)) fits
        (omega (arith, bound, short)) in
    let zero_add : 0 + len ≡ len = omega arith in
    ap is_zero_sum (ap (λ k. table_sum f 0 header 0 k m) (sym zero_add) ∙ sum)
    ∙ ap (λ k. some (k % 256 == 0)) (omega arith)

table_sum-runs :
    (f i byte sum length : ℕ) (m : Memory)
    → i < 256
    → 256 ≤ length
    → table_sum f i byte sum length m ≡ none
unfolding table_sum
table_sum-runs zero i byte sum length m small long = refl
table_sum-runs (suc f) i byte sum length m small long =
    rw (lt→ltb i length (omega (arith, small, long))) (
      table_sum-runs f ((i + 1) % 256) (add32 byte 1) (add32 sum (m byte)) length m (omega arith)
        long)

-- The counter is a byte, so that it never reaches the length of a table of 256 bytes or more: as long as
-- every address that it comes to can be read, the loop never ends, whatever the fuel.
pub acpi_sdt_checksum-runs :
    (f header : ℕ) (m : Memory) → 256 ≤ u32_at m header 4 → acpi_sdt_checksum f header m ≡ none
unfolding acpi_sdt_checksum
acpi_sdt_checksum-runs f header m long =
    ap is_zero_sum (table_sum-runs f 0 header 0 (u32_at m header 4) m (omega arith) long)
