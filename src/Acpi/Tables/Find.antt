-- ===== src/Acpi/Tables/Find.antt =====
-- find_table: the first table with the signature, and the mappings that it leaves.
use native.Mathlib.Decide.{ℕ_discrete}
use brownie_os.Base.{
  ℕ, zero, suc, ◌+◌, ◌*◌, ◌/◌, ◌%◌, ◌≤◌, ◌<◌, ◌≡◌, refl, sym, ap, subst, ◌∙◌, arith, ◌⊎◌, inl, inr,
  Bool, true, false, ◌&&◌, List, [], ◌∷◌, Bool-cases, add32, sub32, lt→ltb,
}
use brownie_os.Libc.Memory.{Memory}
use brownie_os.Vmm.{Tables, identity_end, kmap, kunmap}
use brownie_os.Vmm.Window.{entry_of, translate, kmap-kunmap}
use brownie_os.Boot.{Ended}
use brownie_os.Acpi.Tables.{
  AcpiTables, view, is_mapped, are_mapped, load32, has_signature, set_tables, find_table_from,
  find_table, copy_table, find_hpet, hpet_sig,
}

-- A table above the window onto low memory whose signature does not cross a page's end
pub record IsFar (paddr : ℕ) : Type 0 where
  pub above : identity_end ≤ paddr
  pub below : paddr < 4294967296
  pub inside : paddr % 4096 ≤ 4092

-- The window of temporary mappings has a free entry.
pub record HasSlot (tables : Tables) : Type 0 where
  pub slot : ℕ
  pub index : ℕ
  pub from : 992 ≤ slot
  pub to : slot < 1024
  pub page : index < 1024
  pub free : tables slot index ≡ 0

-- A mapping of `paddr` at `v`: its first four bytes can be read, and unmapping gives the tables back.
pub record Reaches (paddr v : ℕ) (tables mapped : Tables) : Type 0 where
  pub readable : are_mapped 4 v mapped ≡ true
  pub target : (j : ℕ) → j < 4 → translate mapped (v + j) ≡ paddr + j
  pub undone : kunmap v mapped ≡ tables

same_page : (v j : ℕ) (t : Tables) → v % 4096 ≤ 4092 → j < 4 → entry_of t (v + j) ≡ entry_of t v
same_page v j t inside small =
    let table : (v + j) / 4194304 ≡ v / 4194304 = omega (arith, inside, small) in
    let page : (v + j) % 4194304 / 4096 ≡ v % 4194304 / 4096 = omega (arith, inside, small) in
    rw (table, page) refl

byte-mapped :
    (v j : ℕ) (t : Tables)
    → v % 4096 ≤ 4092
    → 4160749568 ≤ v
    → entry_of t v % 8 ≡ 3
    → j < 4
    → is_mapped t (v + j) ≡ true
byte-mapped v j t inside low bits small =
    let word = same_page v j t inside small in ground (arith, word, bits, low)

both : (a b : Bool) → a ≡ true → b ≡ true → (a && b) ≡ true
both a b e f = rw (e, f) refl

all_mapped :
    (n v : ℕ) (t : Tables)
    → ((j : ℕ) → j < n → is_mapped t (v + j) ≡ true)
    → are_mapped n v t ≡ true
unfolding are_mapped
all_mapped zero v t each = refl
all_mapped (suc n) v t each =
    both (is_mapped t v) (are_mapped n (v + 1) t)
      (ap (is_mapped t) (omega arith) ∙ each 0 (omega arith))
      (all_mapped n (v + 1) t
        (λ j h. ap (is_mapped t) (omega arith) ∙ each (suc j) (omega (arith, h))))

kmap-Reaches :
    (paddr : ℕ) (tables : Tables)
    → IsFar paddr
    → HasSlot tables
    → let r = kmap paddr tables in Reaches paddr r.0 tables r.1
kmap-Reaches paddr tables far slot = elim (kmap-kunmap paddr tables far.above far.below) [
  | inr (none_left, used) ↦ absurd (used slot.slot slot.index slot.from slot.to slot.page slot.free)
  | inl (low, was_free, bits, target, undone) ↦
      let r = kmap paddr tables in
      let inside : r.0 % 4096 ≤ 4092 = omega (arith, target, far.inside) in
      record {
        readable = all_mapped 4 r.0 r.1 (λ j h. byte-mapped r.0 j r.1 inside low bits h);
        target = λ j h.
            let word = same_page r.0 j r.1 inside h in omega (arith, word, target, inside, h);
        undone = λ i p k. undone p k i;
      }
]

-- The table at the physical address `paddr` has the signature.
abbrev pub IsNamed : (sig : List ℕ) (bytes : Memory) (paddr : ℕ) → Type 0
IsNamed sig bytes paddr = has_signature sig paddr bytes ≡ true

has_signature-along :
    (c₀ c₁ c₂ c₃ v paddr : ℕ) (m bytes : Memory)
    → ((j : ℕ) → j < 4 → m (v + j) ≡ bytes (paddr + j))
    → has_signature (c₀ ∷ c₁ ∷ c₂ ∷ c₃ ∷ []) v m
      ≡ has_signature (c₀ ∷ c₁ ∷ c₂ ∷ c₃ ∷ []) paddr bytes
unfolding has_signature
has_signature-along c₀ c₁ c₂ c₃ v paddr m bytes same =
    let b₀ : m v ≡ bytes paddr =
      ap m (omega arith) ∙ same 0 (omega arith) ∙ ap bytes (omega arith) in
    let b₁ = same 1 (omega arith) in
    let b₂ : m (v + 1 + 1) ≡ bytes (paddr + 1 + 1) =
      ap m (omega arith) ∙ same 2 (omega arith) ∙ ap bytes (omega arith) in
    let b₃ : m (v + 1 + 1 + 1) ≡ bytes (paddr + 1 + 1 + 1) =
      ap m (omega arith) ∙ same 3 (omega arith) ∙ ap bytes (omega arith) in
    rw (b₀, b₁, b₂, b₃) refl

-- What the search returns, for the tables at `paddr j` from `i` on, `n` of them: the first one with
-- the signature stays mapped, at the address returned, and all else is as before; or none has it,
-- 0 is returned, and nothing has changed.
pub data Search (n i : ℕ) (sig : List ℕ) (paddr : ℕ → ℕ) (a : AcpiTables)
    (r : Ended (ℕ × AcpiTables)) : Type 0 where
  found :
      (k v : ℕ) (mapped : Tables)
      → i ≤ k
      → k < i + n
      → r ≡ Ended.returned (v, set_tables mapped a)
      → Reaches (paddr k) v a.tables mapped
      → IsNamed sig a.bytes (paddr k)
      → ((j : ℕ) → i ≤ j → j < k → has_signature sig (paddr j) a.bytes ≡ false)
      → Search n i sig paddr a r
  absent :
      r ≡ Ended.returned (0, a)
      → ((j : ℕ) → i ≤ j → j < i + n → has_signature sig (paddr j) a.bytes ≡ false)
      → Search n i sig paddr a r

Search-later :
    (n i : ℕ) (sig : List ℕ) (paddr : ℕ → ℕ) (a : AcpiTables) (r : Ended (ℕ × AcpiTables))
    → has_signature sig (paddr i) a.bytes ≡ false
    → Search n (i + 1) sig paddr a r
    → Search (suc n) i sig paddr a r
Search-later n i sig paddr a r miss (Search.found k v mapped lo hi e reaches named before) =
    Search.found k v mapped (omega (arith, lo)) (omega (arith, hi)) e reaches named (λ j low high.
      elim (ℕ_discrete j i) [
        | yes here ↦ ap (λ x. has_signature sig (paddr x) a.bytes) here ∙ miss
        | no past ↦ before j (omega (arith, low, past)) high
      ])
Search-later n i sig paddr a r miss (Search.absent e nowhere) = Search.absent e (λ j low high.
    elim (ℕ_discrete j i) [
      | yes here ↦ ap (λ x. has_signature sig (paddr x) a.bytes) here ∙ miss
      | no past ↦ nowhere j (omega (arith, low, past)) (omega (arith, high))
    ])

module _ (c₀ c₁ c₂ c₃ width table : ℕ) (paddr : ℕ → ℕ) (a : AcpiTables)
    (slot : HasSlot a.tables) where
  abbrev sig : List ℕ
  sig = c₀ ∷ c₁ ∷ c₂ ∷ c₃ ∷ []

  -- One round: the entry is looked at, and unmapped unless it has the signature.
  round :
      (n i : ℕ)
      → load32 (add32 table (36 + i * width)) a ≡ Ended.returned (paddr i)
      → IsFar (paddr i)
      → let got = kmap (paddr i) a.tables in
        ((has_signature sig (paddr i) a.bytes ≡ true)
          × (find_table_from (suc n) i width table sig a
              ≡ Ended.returned (got.0, set_tables got.1 a)))
        ⊎ ((has_signature sig (paddr i) a.bytes ≡ false)
            × (find_table_from (suc n) i width table sig a
                ≡ find_table_from n (i + 1) width table sig a))
  unfolding find_table_from
  round n i load far =
      let got = kmap (paddr i) a.tables in
      let reaches = kmap-Reaches (paddr i) a.tables far slot in
      let same =
        has_signature-along c₀ c₁ c₂ c₃ got.0 (paddr i) (view (set_tables got.1 a)) a.bytes
          (λ j h. ap a.bytes (reaches.target j h)) in
      elim (Bool-cases (has_signature sig (paddr i) a.bytes)) [
        | inl named ↦ inl (named, rw (load, reaches.readable, same, named) refl)
        | inr other ↦ inr (
          other,
          rw (load, reaches.readable, same, other)
              (ap (λ t. find_table_from n (i + 1) width table sig (set_tables t a)) reaches.undone),
        )
      ]

  find_table_from-Search :
      (n i : ℕ)
      → ((j : ℕ)
          → i ≤ j
          → j < i + n
          → (load32 (add32 table (36 + j * width)) a ≡ Ended.returned (paddr j)) × IsFar (paddr j))
      → Search n i sig paddr a (find_table_from n i width table sig a)
  unfolding find_table_from
  find_table_from-Search zero i entries =
      Search.absent refl (λ j lo hi. absurd (omega (arith, lo, hi)))
  find_table_from-Search (suc n) i entries =
      let here = entries i (omega arith) (omega arith) in
      elim (round n i here.0 here.1) [
        | inl (named, e) ↦
            Search.found i (kmap (paddr i) a.tables).0 (kmap (paddr i) a.tables).1 (omega arith)
              (omega arith) e (kmap-Reaches (paddr i) a.tables here.1 slot) named
              (λ j lo hi. absurd (omega (arith, lo, hi)))
        | inr (other, e) ↦ subst (Search (suc n) i sig paddr a) (sym e) (
            Search-later n i sig paddr a (find_table_from n (i + 1) width table sig a) other (
              find_table_from-Search n (i + 1)
                (λ j lo hi. entries j (omega (arith, lo)) (omega (arith, hi)))))
      ]

-- With an ACPI version below 2, an RSDT of `n` entries that can be read, for tables above the window
-- onto low memory whose signatures do not cross a page's end, and a free entry for temporary
-- mappings, find_table of a signature of four characters returns the first table that has it,
-- mapped, with every table that it passed unmapped again; or 0, with nothing changed, where no table
-- has it.
pub find_table-Search :
    (c₀ c₁ c₂ c₃ n : ℕ) (paddr : ℕ → ℕ) (a : AcpiTables)
    → HasSlot a.tables
    → a.acpi_version < 2
    → load32 (add32 a.rsdt 4) a ≡ Ended.returned (36 + n * 4)
    → 36 + n * 4 < 4294967296
    → ((j : ℕ)
        → j < n
        → (load32 (add32 a.rsdt (36 + j * 4)) a ≡ Ended.returned (paddr j)) × IsFar (paddr j))
    → Search n 0 (c₀ ∷ c₁ ∷ c₂ ∷ c₃ ∷ []) paddr a (find_table (c₀ ∷ c₁ ∷ c₂ ∷ c₃ ∷ []) a)
unfolding find_table
find_table-Search c₀ c₁ c₂ c₃ n paddr a slot old length short entries =
    let count : sub32 (36 + n * 4) 36 / 4 ≡ n = omega (arith, short) in
    rw (lt→ltb a.acpi_version 2 old, length, count)
      (find_table_from-Search c₀ c₁ c₂ c₃ 4 a.rsdt paddr a slot n 0
        (λ j lo hi. entries j (omega (arith, hi))))

-- A table that is not there: its NULL pointer is read, which panics.
null_copy : (f : ℕ) (size : ℕ → ℕ) (a : AcpiTables) → copy_table f 0 size a ≡ Ended.panicked
unfolding copy_table load32 are_mapped
null_copy f size a = refl

-- With an ACPI version below 2, an RSDT of `n` entries that can be read, for tables above the window
-- onto low memory whose signatures do not cross a page's end, none of which is "HPET", and a free
-- entry for temporary mappings: find_hpet does not test for the 0 of find_table, reads the length
-- of a table at NULL, and so panics.
pub find_hpet-absent :
    (f n : ℕ) (paddr : ℕ → ℕ) (a : AcpiTables)
    → HasSlot a.tables
    → a.acpi_version < 2
    → load32 (add32 a.rsdt 4) a ≡ Ended.returned (36 + n * 4)
    → 36 + n * 4 < 4294967296
    → ((j : ℕ)
        → j < n
        → (load32 (add32 a.rsdt (36 + j * 4)) a ≡ Ended.returned (paddr j)) × IsFar (paddr j))
    → ((j : ℕ) → j < n → has_signature hpet_sig (paddr j) a.bytes ≡ false)
    → find_hpet f a ≡ Ended.panicked
unfolding find_hpet
find_hpet-absent f n paddr a slot old length short entries nowhere =
    elim (find_table-Search 72 80 69 84 n paddr a slot old length short entries) [
      | Search.found k v mapped lo hi e reaches named before ↦
          absurd (ground (arith, named, nowhere k (omega (arith, hi))))
      | Search.absent e others ↦ rw (e, null_copy f (λ length. length) a) refl
    ]
