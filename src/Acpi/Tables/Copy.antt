-- ===== src/Acpi/Tables/Copy.antt =====
-- copy_table: the copy of a table into the heap, and its two checksums.
use native.Mathlib.Nat.{mod-eq_of_lt}
use brownie_os.Base.{
  ℕ, zero, suc, ◌+◌, ◌%◌, ◌≤◌, ◌<◌, ◌≡◌, refl, ap, ◌∙◌, arith, ◌⊎◌, inl, inr, Bool, true, false,
  some, ◌==◌, if◌then◌else◌, update, add32,
}
use brownie_os.Libc.Memory.{Memory, memcpy, copy_up}
use brownie_os.Libc.Memory.Move.{memcpy-Moved}
use brownie_os.Madt.{u32_at}
use brownie_os.Vmm.{Tables, kunmap}
use brownie_os.Vmm.Window.{translate}
use brownie_os.Kmm.{kmalloc}
use brownie_os.Boot.{Ended}
use brownie_os.Paging.Clone.{and_then}
use brownie_os.Acpi.{acpi_sdt_checksum}
use brownie_os.Acpi.Checksum.{total, acpi_sdt_checksum-total}
use brownie_os.Acpi.Tables.{
  AcpiTables, view, is_mapped, load32, copy_byte, copy_bytes, checked, copy_sized, check_copy,
  release_source, copy_table,
}

-- The `n` bytes from the virtual address `v` on are mapped, to those from `phys` on.
pub record IsAt (tables : Tables) (v phys n : ℕ) : Type 0 where
  pub fits : v + n < 4294967296
  pub mapped : (j : ℕ) → j < n → is_mapped tables (v + j) ≡ true
  pub target : (j : ℕ) → j < n → translate tables (v + j) ≡ phys + j

abbrev pub with_bytes : Memory → AcpiTables → AcpiTables
with_bytes m a = record a { bytes = m }

module _ (dst src to from len : ℕ) where
  copy_byte-update :
      (i : ℕ) (a : AcpiTables)
      → IsAt a.tables dst to len
      → IsAt a.tables src from len
      → i < len
      → copy_byte (dst + i) (src + i) a
        ≡ Ended.returned (with_bytes (update a.bytes (to + i) (a.bytes (from + i))) a)
  copy_byte-update i a d s inside =
      let read : view a (src + i) ≡ a.bytes (from + i) = ap a.bytes (s.target i inside) in
      rw (s.mapped i inside, d.mapped i inside)
        (ap (λ p. Ended.returned (with_bytes (update a.bytes p (view a (src + i))) a))
            (d.target i inside)
          ∙ ap (λ b. Ended.returned (with_bytes (update a.bytes (to + i) b) a)) read)

  -- The loop is a `memcpy` of physical memory.
  copy_bytes-copy_up :
      (n i : ℕ) (a : AcpiTables)
      → IsAt a.tables dst to len
      → IsAt a.tables src from len
      → i + n ≤ len
      → copy_bytes n i dst src a ≡ Ended.returned (with_bytes (copy_up n i to from a.bytes) a)
  unfolding copy_bytes copy_up
  copy_bytes-copy_up zero i a d s short = refl
  copy_bytes-copy_up (suc n) i a d s short =
      let at_dst : add32 dst i ≡ dst + i = mod-eq_of_lt (omega (arith, d.fits, short)) in
      let at_src : add32 src i ≡ src + i = mod-eq_of_lt (omega (arith, s.fits, short)) in
      let inside : i < len = omega (arith, short) in
      let next =
        copy_bytes-copy_up n (i + 1) (with_bytes (update a.bytes (to + i) (a.bytes (from + i))) a)
          (record { fits = d.fits; mapped = d.mapped; target = d.target })
          (record { fits = s.fits; mapped = s.mapped; target = s.target }) (omega (arith, short)) in
      rw (at_dst, at_src)
        (ap (λ r. and_then r (λ t. copy_bytes n (i + 1) dst src t))
            (copy_byte-update i a d s inside)
          ∙ next)

  copy_bytes-memcpy :
      (a : AcpiTables)
      → IsAt a.tables dst to len
      → IsAt a.tables src from len
      → copy_bytes len 0 dst src a ≡ Ended.returned (with_bytes (memcpy to from len a.bytes) a)
  unfolding memcpy
  copy_bytes-memcpy a d s = copy_bytes-copy_up len 0 a d s (omega arith)

-- The sum of the bytes of two places that agree
total-along :
    (n p q : ℕ) (m m' : Memory)
    → ((j : ℕ) → j < n → m (p + j) ≡ m' (q + j))
    → total n p m ≡ total n q m'
unfolding total
total-along zero p q m m' same = refl
total-along (suc n) p q m m' same =
    let first : m p ≡ m' q = ap m (omega arith) ∙ same 0 (omega arith) ∙ ap m' (omega arith) in
    let rest =
      total-along n (p + 1) (q + 1) m m'
        (λ j h. ap m (omega arith) ∙ same (suc j) (omega (arith, h)) ∙ ap m' (omega arith)) in
    omega (arith, first, rest)

u32_at-along :
    (p q i : ℕ) (m m' : Memory)
    → ((j : ℕ) → j < i + 4 → m (p + j) ≡ m' (q + j))
    → u32_at m p i ≡ u32_at m' q i
u32_at-along p q i m m' same = omega (
  arith,
  same i (omega arith),
  same (i + 1) (omega arith),
  same (i + 2) (omega arith),
  same (i + 3) (omega arith),
)

-- A checksum of `len` bytes at `p` in memory that is that of a table of this length
checksum-along :
    (f p q len : ℕ) (m m' : Memory)
    → ((k : ℕ) → m k < 256)
    → 8 ≤ len
    → len < 256
    → len < f
    → p + len < 4294967296
    → u32_at m' q 4 ≡ len
    → ((j : ℕ) → j < len → m (p + j) ≡ m' (q + j))
    → acpi_sdt_checksum f p m ≡ some (total len q m' % 256 == 0)
checksum-along f p q len m m' bytes long short enough fits length same =
    let here : u32_at m p 4 ≡ len =
      u32_at-along p q 4 m m' (λ j h. same j (omega (arith, h, long))) ∙ length in
    acpi_sdt_checksum-total f p m bytes (omega (arith, here, short)) (omega (arith, here, enough))
      (omega (arith, here, fits))
    ∙ ap (λ n. some (total n p m % 256 == 0)) here
    ∙ ap (λ n. some (n % 256 == 0)) (total-along len p q m m' same)

update-bytes :
    (m : Memory) (i v : ℕ) → ((k : ℕ) → m k < 256) → v < 256 → (k : ℕ) → update m i v k < 256
update-bytes m i v bytes small k = ground (arith, bytes k, small)

-- A copy of bytes is made of bytes.
copy_up-bytes :
    (n i to from : ℕ) (m : Memory) → ((k : ℕ) → m k < 256) → (k : ℕ) → copy_up n i to from m k < 256
unfolding copy_up
copy_up-bytes zero i to from m bytes k = bytes k
copy_up-bytes (suc n) i to from m bytes k =
    copy_up-bytes n (i + 1) to from (update m (to + i) (m (from + i)))
      (λ k. update-bytes m (to + i) (m (from + i)) bytes (bytes (from + i)) k) k

memcpy-bytes :
    (to from n : ℕ) (m : Memory) → ((k : ℕ) → m k < 256) → (k : ℕ) → memcpy to from n m k < 256
unfolding memcpy
memcpy-bytes to from n m bytes k = copy_up-bytes n 0 to from m bytes k

-- With the same result of both checksums, it decides.
both_checked :
    (dst src : ℕ) (t : AcpiTables) (sums : Bool)
    → and_then (checked (some sums) (some sums) t) (release_source dst src)
      ≡ (if sums then release_source dst src t else Ended.panicked)
both_checked dst src t true = refl
both_checked dst src t false = refl

module _ (f src from to len : ℕ) (size : ℕ → ℕ) (a : AcpiTables) where
  abbrev dst : ℕ
  dst = (kmalloc a.heap (size len)).1

  -- A table of 8 to 255 bytes, all mapped, the block for its copy mapped, too, and apart from it,
  -- and more fuel than bytes: where the sum of its bytes is a multiple of 256 the copy is made and
  -- the source is unmapped; else copy_table panics.
  pub copy_table-Checked :
      ((k : ℕ) → a.bytes k < 256)
      → 8 ≤ len
      → len < 256
      → len < f
      → load32 (add32 src 4) a ≡ Ended.returned len
      → u32_at a.bytes from 4 ≡ len
      → IsAt a.tables src from len
      → IsAt a.tables dst to len
      → (from + len ≤ to) ⊎ (to + len ≤ from)
      → copy_table f src size a ≡ (
          if total len from a.bytes % 256 == 0
          then Ended.returned (
            dst,
            record a {
              heap = (kmalloc a.heap (size len)).0;
              bytes = memcpy to from len a.bytes;
              tables = kunmap src a.tables;
            },
          )
          else Ended.panicked)
  unfolding copy_table
  copy_table-Checked bytes long short enough load length s d apart =
      let m : Memory = memcpy to from len a.bytes in
      let moved =
        memcpy-Moved to from len a.bytes
          (elim apart [ inl x ↦ inr x | inr x ↦ inl (omega (arith, x)) ]) in
      let b : AcpiTables = record a { heap = (kmalloc a.heap (size len)).0 } in
      let t : AcpiTables = with_bytes m b in
      let small : (k : ℕ) → m k < 256 = memcpy-bytes to from len a.bytes bytes in
      let kept : (j : ℕ) → j < len → m (from + j) ≡ a.bytes (from + j) = λ j h. elim apart [
        | inl x ↦ moved.before (from + j) (omega (arith, x, h))
        | inr x ↦ moved.behind (from + j) (omega (arith, x))
      ] in
      let copied =
        copy_bytes-memcpy dst src to from len b
          (record { fits = d.fits; mapped = d.mapped; target = d.target })
          (record { fits = s.fits; mapped = s.mapped; target = s.target }) in
      let source =
        checksum-along f src from len (view t) a.bytes (λ k. small (translate t.tables k)) long
          short enough s.fits length (λ j h. ap m (s.target j h) ∙ kept j h) in
      let target =
        checksum-along f dst from len (view t) a.bytes (λ k. small (translate t.tables k)) long
          short enough d.fits length (λ j h. ap m (d.target j h) ∙ moved.inside j h) in
      ap (λ r. and_then r (λ length. copy_sized f src size length a)) load
      ∙ ap (λ r. and_then r (check_copy f dst src)) copied
      ∙ ap (λ r. and_then (checked r (acpi_sdt_checksum f dst (view t)) t) (release_source dst src))
          source
      ∙ ap
          (λ r.
            and_then (checked (some (total len from a.bytes % 256 == 0)) r t)
              (release_source dst src))
          target
      ∙ both_checked dst src t (total len from a.bytes % 256 == 0)
