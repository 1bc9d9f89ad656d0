-- ===== src/Vmm/Window.antt =====
-- kmap and kunmap: what is mapped where, and that unmapping undoes it.
use native.Mathlib.Nat.{mod-eq_of_lt}
use native.Mathlib.Decide.{ℕ_discrete}
use brownie_os.Base.{
  ℕ, zero, suc, ◌+◌, ◌*◌, ◌/◌, ◌%◌, ◌≤◌, ◌<◌, ◌≡◌, refl, ◌≢◌, ◌⊎◌, inl, inr, arith, some, none,
  Bool-cases, add32, lt→ltb, le→ltb, ◌==◌, ==→eq, ==→ne, ne→==, update,
}
use brownie_os.Vmm.{Tables, identity_end, set_page, free_page, free_slot, map_at, kmap, kunmap}

free_page_lem :
    (n j : ℕ) (table : ℕ → ℕ)
    → ((k : ℕ) × (j ≤ k) × (k < j + n) × (free_page n j table ≡ some k) × (table k ≡ 0))
      ⊎ ((free_page n j table ≡ none) × ((k : ℕ) → j ≤ k → k < j + n → table k ≢ 0))
unfolding free_page
free_page_lem zero j table = inr (refl, λ k a b. absurd (omega arith))
free_page_lem (suc n) j table = elim (Bool-cases (table j == 0)) [
  | inl hit ↦ rw hit (inl (j, omega arith, omega arith, refl, ==→eq (table j) 0 hit))
  | inr miss ↦ rw miss (elim (free_page_lem n (j + 1) table) [
    | inl (k, lo, hi, e, z) ↦ inl (k, omega arith, omega arith, e, z)
    | inr (e, used) ↦ inr (
      e,
      λ k a b. elim (ℕ_discrete k j) [
        | yes here ↦ rw here (==→ne (table j) 0 miss)
        | no past ↦ used k (omega arith) (omega arith)
      ],
    )
  ])
]

free_slot_lem :
    (n i : ℕ) (tables : Tables)
    → ((p : ℕ) × (k : ℕ) × (i ≤ p)
        × (p < i + n)
        × (k < 1024)
        × (free_slot n i tables ≡ some (p, k))
        × (tables p k ≡ 0))
      ⊎ ((free_slot n i tables ≡ none)
          × ((p k : ℕ) → i ≤ p → p < i + n → k < 1024 → tables p k ≢ 0))
unfolding free_slot
free_slot_lem zero i tables = inr (refl, λ p k a b c. absurd (omega arith))
free_slot_lem (suc n) i tables = elim (free_page_lem 1024 0 (tables i)) [
  | inl (k, lo, hi, e, z) ↦ rw e (inl (i, k, omega arith, omega arith, omega arith, refl, z))
  | inr (e, used) ↦ rw e (elim (free_slot_lem n (i + 1) tables) [
    | inl (p, k, lo, hi, small, f, z) ↦ inl (p, k, omega arith, omega arith, small, f, z)
    | inr (f, all_used) ↦ inr (
      f,
      λ p k a b c. elim (ℕ_discrete p i) [
        | yes here ↦ rw here (used k (omega arith) (omega arith))
        | no past ↦ all_used p k (omega arith) (omega arith) c
      ],
    )
  ])
]

-- The word at the virtual address, and the physical address that it translates to.
abbrev pub entry_of : Tables → ℕ → ℕ
entry_of tables vaddr = tables (vaddr / 4194304) (vaddr % 4194304 / 4096)

abbrev pub translate : Tables → ℕ → ℕ
translate tables vaddr = entry_of tables vaddr / 4096 * 4096 + vaddr % 4096

update₂_self :
    (tables : Tables) (p k word : ℕ) → update tables p (update (tables p) k word) p k ≡ word
update₂_self tables p k word = ground arith

update₂_undone :
    (tables : Tables) (p k word : ℕ)
    → tables p k ≡ 0
    → let mapped = update tables p (update (tables p) k word) in
      (q j : ℕ) → update mapped p (update (mapped p) k 0) q j ≡ tables q j
update₂_undone tables p k word z q j = ground (arith, z)

-- The mapping at entry `k` of table `p`.
mapped_at :
    (paddr : ℕ) (tables : Tables) (p k : ℕ)
    → paddr < 4294967296
    → 992 ≤ p
    → p < 1024
    → k < 1024
    → tables p k ≡ 0
    → let r = map_at paddr tables (some (p, k)) in
      (0xF8000000 ≤ r.0)
      × (entry_of tables r.0 ≡ 0)
      × (entry_of r.1 r.0 % 8 ≡ 3)
      × (translate r.1 r.0 ≡ paddr)
      × ((q j : ℕ) → kunmap r.0 r.1 q j ≡ tables q j)
unfolding kunmap set_page
mapped_at paddr tables p k small lo hi page z =
    let vaddr : ℕ = p * 4194304 + k * 4096 + paddr % 4096 in
    let in_window : 0xF8000000 ≤ vaddr = omega arith in
    let table : vaddr / 4194304 ≡ p = omega arith in
    let entry : vaddr % 4194304 / 4096 ≡ k = omega arith in
    let offset : vaddr % 4096 ≡ paddr % 4096 = omega arith in
    let word : ℕ = paddr / 4096 % 1048576 * 4096 + tables p k / 8 % 512 * 8 + 0 * 4 + 1 * 2 + 1 in
    let self = update₂_self tables p k word in
    let nonnull = ne→== vaddr 0 (λ e. absurd (omega (arith, in_window))) in
    let kernel = le→ltb vaddr 0xC0000000 (omega (arith, in_window)) in
    rw (nonnull, kernel, table, entry, offset)
      (
        in_window,
        z,
        omega (arith, self, z),
        omega (arith, self, z, small),
        update₂_undone tables p k word z,
      )

-- `kmap` of a page above the identity window. Where the window of the last 32 tables has a free
-- entry, it returns an address in the window, whose entry was free and is present and writable
-- now; the address translates to the physical one, and `kunmap` of it restores every entry. Where
-- there is none it returns NULL and changes nothing.
pub kmap-kunmap :
    (paddr : ℕ) (tables : Tables)
    → identity_end ≤ paddr
    → paddr < 4294967296
    → let r = kmap paddr tables in
      ((0xF8000000 ≤ r.0)
        × (entry_of tables r.0 ≡ 0)
        × (entry_of r.1 r.0 % 8 ≡ 3)
        × (translate r.1 r.0 ≡ paddr)
        × ((p k : ℕ) → kunmap r.0 r.1 p k ≡ tables p k))
      ⊎ ((r ≡ (0, tables)) × ((p k : ℕ) → 992 ≤ p → p < 1024 → k < 1024 → tables p k ≢ 0))
unfolding kmap
kmap-kunmap paddr tables high small =
    let nonnull = ne→== paddr 0 (λ e. absurd (omega arith)) in
    let above = le→ltb paddr identity_end high in
    elim (free_slot_lem 32 992 tables) [
      | inr (e, used) ↦ rw (nonnull, above, e) (inr (refl, λ p k a b c. used p k a (omega arith) c))
      | inl (p, k, lo, hi, page, e, z) ↦
          rw (nonnull, above, e) (inl (mapped_at paddr tables p k small lo hi page z))
    ]

-- Where `kmap` of a page above the identity window puts it: into a free entry of the window.
pub kmap-slot :
    (paddr : ℕ) (tables : Tables)
    → identity_end ≤ paddr
    → ((p : ℕ) × (k : ℕ) × (992 ≤ p)
        × (p < 1024)
        × (k < 1024)
        × (kmap paddr tables ≡ map_at paddr tables (some (p, k)))
        × (tables p k ≡ 0))
      ⊎ ((kmap paddr tables ≡ (0, tables))
          × ((p k : ℕ) → 992 ≤ p → p < 1024 → k < 1024 → tables p k ≢ 0))
unfolding kmap
kmap-slot paddr tables high =
    let nonnull = ne→== paddr 0 (λ e. absurd (omega (arith, e, high))) in
    let above = le→ltb paddr identity_end high in
    elim (free_slot_lem 32 992 tables) [
      | inr (e, used) ↦
          rw (nonnull, above, e) (inr (refl, λ p k a b c. used p k a (omega (arith, b)) c))
      | inl (p, k, lo, hi, page, e, z) ↦
          rw (nonnull, above, e) (inl (p, k, lo, omega (arith, hi), page, refl, z))
    ]

-- `kmap` of a page in the identity window gives its address there and maps nothing, so `kunmap` of that
-- address takes the page out of the window: the next `kmap` of it returns the same address, whose
-- entry is not present.
pub kunmap-unmaps_identity :
    (paddr : ℕ) (tables : Tables)
    → paddr ≢ 0
    → paddr < identity_end
    → let v = (kmap paddr tables).0 in
      let after = kunmap v (kmap paddr tables).1 in
      ((kmap paddr tables) ≡ (paddr + 0xC0000000, tables))
      × (kmap paddr after ≡ (v, after))
      × (entry_of after v ≡ 0)
unfolding kmap kunmap
kunmap-unmaps_identity paddr tables some_page low =
    let nonnull = ne→== paddr 0 some_page in
    let below = lt→ltb paddr identity_end low in
    let v : add32 paddr 0xC0000000 ≡ paddr + 0xC0000000 = mod-eq_of_lt (omega (arith, low)) in
    let no_null = ne→== (paddr + 0xC0000000) 0 (λ e. absurd (omega (arith, e))) in
    let kernel = le→ltb (paddr + 0xC0000000) 0xC0000000 (omega arith) in
    let table : ℕ = (paddr + 0xC0000000) / 4194304 in
    let page : ℕ = (paddr + 0xC0000000) % 4194304 / 4096 in
    rw (nonnull, below, v, no_null, kernel) (refl, refl, update₂_self tables table page 0)
