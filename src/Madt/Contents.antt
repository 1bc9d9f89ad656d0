-- ===== src/Madt/Contents.antt =====
-- What parse_madt leaves in the variables of madt.c, by the list of the table's records.
use brownie_os.Base.{
  ℕ, suc, ◌+◌, ◌%◌, ◌<◌, ◌≡◌, refl, ap, sym, subst, ◌∙◌, arith, some, List, [], ◌∷◌, ◌++◌, ◌==◌,
  Bool-cases, ==→eq, inl, inr, if◌then◌else◌, update, update_self, update_ne, add32,
}
use native.Mathlib.Nat.{mod-eq_of_lt}
use mathlib.Core.List.{append_assoc, append-nil}
use brownie_os.Libc.Memory.{Memory}
use brownie_os.Madt.{u32_at, IoapicIso, MadtEntry, Madt, enter, store, parse_madt}
use brownie_os.Madt.Encode.{encode_all, size_all, AllEntries, Holds, Holds-shift}
use brownie_os.Madt.Parse.{enter_all, count, parse_records-encode_all}

-- The identifiers of the local APICs, the source overrides, and the address of the first IOAPIC
-- that has one, in a list of records
unfoldable pub lapics : List MadtEntry → List ℕ
lapics [] = []
lapics (MadtEntry.lapic e ∷ es) = e.apic_id ∷ lapics es
lapics (MadtEntry.ioapic e ∷ es) = lapics es
lapics (MadtEntry.ioapic_iso e ∷ es) = lapics es
lapics (MadtEntry.nmi_src e ∷ es) = lapics es
lapics (MadtEntry.lapic_nmi e ∷ es) = lapics es
lapics (MadtEntry.lapic_addr_ovr e ∷ es) = lapics es

unfoldable pub isos : List MadtEntry → List IoapicIso
isos [] = []
isos (MadtEntry.lapic e ∷ es) = isos es
isos (MadtEntry.ioapic e ∷ es) = isos es
isos (MadtEntry.ioapic_iso e ∷ es) = e ∷ isos es
isos (MadtEntry.nmi_src e ∷ es) = isos es
isos (MadtEntry.lapic_nmi e ∷ es) = isos es
isos (MadtEntry.lapic_addr_ovr e ∷ es) = isos es

pub first_ioapic : List MadtEntry → ℕ
first_ioapic [] = 0
first_ioapic (MadtEntry.lapic e ∷ es) = first_ioapic es
first_ioapic (MadtEntry.ioapic e ∷ es) = if e.addr == 0 then first_ioapic es else e.addr
first_ioapic (MadtEntry.ioapic_iso e ∷ es) = first_ioapic es
first_ioapic (MadtEntry.nmi_src e ∷ es) = first_ioapic es
first_ioapic (MadtEntry.lapic_nmi e ∷ es) = first_ioapic es
first_ioapic (MadtEntry.lapic_addr_ovr e ∷ es) = first_ioapic es

module _ {A : Type 0} where
  unfoldable pub length : List A → ℕ
  length [] = 0
  length (x ∷ xs) = suc (length xs)

  -- The list stands in the array from the index `n` on.
  pub Placed : (ℕ → A) → ℕ → List A → Type 0
  Placed f n [] = Unit
  Placed f n (x ∷ xs) = (f n ≡ x) × Placed f (n + 1) xs

  -- The list written into the array from the index `n` on
  place_all : ℕ → List A → (ℕ → A) → ℕ → A
  place_all n [] f = f
  place_all n (x ∷ xs) f = place_all (n + 1) xs (update f n x)

  place_all_below : (n : ℕ) (xs : List A) (f : ℕ → A) (i : ℕ) → i < n → place_all n xs f i ≡ f i
  unfolding place_all
  place_all_below n [] f i below = refl
  place_all_below n (x ∷ xs) f i below =
      place_all_below (n + 1) xs (update f n x) i (omega (arith, below))
      ∙ update_ne f n i x (λ e. omega (arith, below, e))

  place_all-Placed : (n : ℕ) (xs : List A) (f : ℕ → A) → Placed (place_all n xs f) n xs
  unfolding place_all Placed
  place_all-Placed n [] f = record {}
  place_all-Placed n (x ∷ xs) f = (
    place_all_below (n + 1) xs (update f n x) n (omega arith) ∙ update_self f n x,
    place_all-Placed (n + 1) xs (update f n x),
  )

-- The effect of the records on the array of the local APICs
enter_all-lapics :
    (es : List MadtEntry) (s : Madt)
    → s.num_procs + length (lapics es) < 256
    → ((enter_all es s).lapic_ids ≡ place_all s.num_procs (lapics es) s.lapic_ids)
      × ((enter_all es s).num_procs ≡ s.num_procs + length (lapics es))
unfolding enter_all enter lapics length place_all
enter_all-lapics [] s room = (refl, omega arith)
enter_all-lapics (MadtEntry.lapic e ∷ es) s room =
    let next : (s.num_procs + 1) % 256 ≡ s.num_procs + 1 = mod-eq_of_lt (omega (arith, room)) in
    let rest =
      enter_all-lapics es (enter (MadtEntry.lapic e) s) (rw (next) (omega (arith, room))) in
    (
      rest.0 ∙ ap (λ k. place_all k (lapics es) (update s.lapic_ids s.num_procs e.apic_id)) next,
      rest.1 ∙ omega (arith, next),
    )
enter_all-lapics (MadtEntry.ioapic e ∷ es) s room =
    enter_all-lapics es (enter (MadtEntry.ioapic e) s) room
enter_all-lapics (MadtEntry.ioapic_iso e ∷ es) s room =
    enter_all-lapics es (enter (MadtEntry.ioapic_iso e) s) room
enter_all-lapics (MadtEntry.nmi_src e ∷ es) s room =
    enter_all-lapics es (enter (MadtEntry.nmi_src e) s) room
enter_all-lapics (MadtEntry.lapic_nmi e ∷ es) s room =
    enter_all-lapics es (enter (MadtEntry.lapic_nmi e) s) room
enter_all-lapics (MadtEntry.lapic_addr_ovr e ∷ es) s room =
    enter_all-lapics es (enter (MadtEntry.lapic_addr_ovr e) s) room

-- The effect of the records on the array of the source overrides
enter_all-isos :
    (es : List MadtEntry) (s : Madt)
    → s.num_iso_entries + length (isos es) < 256
    → ((enter_all es s).iso_entries ≡ place_all s.num_iso_entries (isos es) s.iso_entries)
      × ((enter_all es s).num_iso_entries ≡ s.num_iso_entries + length (isos es))
unfolding enter_all enter isos length place_all
enter_all-isos [] s room = (refl, omega arith)
enter_all-isos (MadtEntry.ioapic_iso e ∷ es) s room =
    let next : (s.num_iso_entries + 1) % 256 ≡ s.num_iso_entries + 1 =
      mod-eq_of_lt (omega (arith, room)) in
    let rest =
      enter_all-isos es (enter (MadtEntry.ioapic_iso e) s) (rw (next) (omega (arith, room))) in
    (
      rest.0 ∙ ap (λ k. place_all k (isos es) (update s.iso_entries s.num_iso_entries e)) next,
      rest.1 ∙ omega (arith, next),
    )
enter_all-isos (MadtEntry.lapic e ∷ es) s room =
    enter_all-isos es (enter (MadtEntry.lapic e) s) room
enter_all-isos (MadtEntry.ioapic e ∷ es) s room =
    enter_all-isos es (enter (MadtEntry.ioapic e) s) room
enter_all-isos (MadtEntry.nmi_src e ∷ es) s room =
    enter_all-isos es (enter (MadtEntry.nmi_src e) s) room
enter_all-isos (MadtEntry.lapic_nmi e ∷ es) s room =
    enter_all-isos es (enter (MadtEntry.lapic_nmi e) s) room
enter_all-isos (MadtEntry.lapic_addr_ovr e ∷ es) s room =
    enter_all-isos es (enter (MadtEntry.lapic_addr_ovr e) s) room

-- The effect of the records on the address of the IOAPIC
enter_all-ioapic :
    (es : List MadtEntry) (s : Madt)
    → (enter_all es s).ioapic_addr ≡ (if s.ioapic_addr == 0 then first_ioapic es else s.ioapic_addr)
unfolding enter_all enter first_ioapic
enter_all-ioapic [] s = ground (arith, ==→eq s.ioapic_addr 0)
enter_all-ioapic (MadtEntry.ioapic e ∷ es) s =
    enter_all-ioapic es (enter (MadtEntry.ioapic e) s) ∙ elim (Bool-cases (s.ioapic_addr == 0)) [
      | inl none_yet ↦ rw (none_yet) refl
      | inr known ↦ rw (known, known) refl
    ]
enter_all-ioapic (MadtEntry.ioapic_iso e ∷ es) s =
    enter_all-ioapic es (enter (MadtEntry.ioapic_iso e) s)
enter_all-ioapic (MadtEntry.lapic e ∷ es) s = enter_all-ioapic es (enter (MadtEntry.lapic e) s)
enter_all-ioapic (MadtEntry.nmi_src e ∷ es) s = enter_all-ioapic es (enter (MadtEntry.nmi_src e) s)
enter_all-ioapic (MadtEntry.lapic_nmi e ∷ es) s =
    enter_all-ioapic es (enter (MadtEntry.lapic_nmi e) s)
enter_all-ioapic (MadtEntry.lapic_addr_ovr e ∷ es) s =
    enter_all-ioapic es (enter (MadtEntry.lapic_addr_ovr e) s)

-- The records are printed in their order, and none touches the address of the local APIC.
enter_all-printed :
    (es : List MadtEntry) (s : Madt)
    → ((enter_all es s).printed ≡ s.printed ++ es) × ((enter_all es s).lapic_addr ≡ s.lapic_addr)
unfolding enter_all enter
enter_all-printed [] s = (sym (append-nil s.printed), refl)
enter_all-printed (e ∷ es) s =
    let rest = enter_all-printed es (enter e s) in
    let same = store-same e s in
    (
      rest.0 ∙ append_assoc (store e s).printed (e ∷ []) es ∙ ap (λ l. l ++ (e ∷ es)) same.0,
      rest.1 ∙ same.1,
    )
  where
    store-same :
        (e : MadtEntry) (s : Madt)
        → ((store e s).printed ≡ s.printed) × ((store e s).lapic_addr ≡ s.lapic_addr)
    store-same (MadtEntry.lapic e) s = (refl, refl)
    store-same (MadtEntry.ioapic e) s = (refl, refl)
    store-same (MadtEntry.ioapic_iso e) s = (refl, refl)
    store-same (MadtEntry.nmi_src e) s = (refl, refl)
    store-same (MadtEntry.lapic_nmi e) s = (refl, refl)
    store-same (MadtEntry.lapic_addr_ovr e) s = (refl, refl)

-- What the kernel knows after a table with the records `es`
pub record Contents (addr : ℕ) (es : List MadtEntry) (t : Madt) : Type 0 where
  pub local_apic : t.lapic_addr ≡ addr
  pub processors : t.num_procs ≡ length (lapics es)
  pub ids : Placed t.lapic_ids 0 (lapics es)
  pub overrides : t.num_iso_entries ≡ length (isos es)
  pub entries : Placed t.iso_entries 0 (isos es)
  pub io_apic : t.ioapic_addr ≡ first_ioapic es
  pub listing : t.printed ≡ es

-- A MADT at `madt`, below 4 GiB, that holds the records `es` in their encoding, fewer than 256 local
-- APICs and fewer than 256 overrides among them, in the boot state with both counters and the
-- IOAPIC's address 0 and nothing printed, and with more fuel than records: parse_madt ends and
-- leaves the table's contents.
pub parse_madt-Contents :
    (f madt : ℕ) (m : Memory) (es : List MadtEntry) (s : Madt)
    → count es < f
    → AllEntries es
    → Holds m madt 44 (encode_all es)
    → u32_at m madt 4 ≡ 44 + size_all es
    → madt + 44 + size_all es < 4294967296
    → s.num_procs ≡ 0
    → s.num_iso_entries ≡ 0
    → s.ioapic_addr ≡ 0
    → s.printed ≡ []
    → length (lapics es) < 256
    → length (isos es) < 256
    → (t : Madt) × (parse_madt f madt m s ≡ some t) × Contents (u32_at m madt 36) es t
unfolding parse_madt
parse_madt-Contents f madt m es s enough all holds len small procs num addr shown few_procs
      few_isos =
    let s₀ : Madt = record s { lapic_addr = u32_at m madt 36 } in
    let one = enter_all-lapics es s₀ (omega (arith, few_procs, procs)) in
    let two = enter_all-isos es s₀ (omega (arith, few_isos, num)) in
    let three = enter_all-ioapic es s₀ in
    let four = enter_all-printed es s₀ in
    let start : add32 madt 44 ≡ madt + 44 = mod-eq_of_lt (omega (arith, small)) in
    let stop : add32 madt (u32_at m madt 4) ≡ madt + 44 + size_all es =
      ap (add32 madt) len ∙ mod-eq_of_lt (omega (arith, small)) ∙ omega arith in
    let walk =
      parse_records-encode_all f (madt + 44 + size_all es) (madt + 44) m es s₀ enough all
        (Holds-shift m madt 44 0 (encode_all es) holds) refl small in
    (
      enter_all es s₀,
      rw (start, stop) walk,
      record {
        local_apic = four.1;
        processors = one.1 ∙ ap (λ k. k + length (lapics es)) procs ∙ omega arith;
        ids =
            subst (λ g. Placed g 0 (lapics es))
              (sym (one.0 ∙ ap (λ k. place_all k (lapics es) s.lapic_ids) procs))
              (place_all-Placed 0 (lapics es) s.lapic_ids);
        overrides = two.1 ∙ ap (λ k. k + length (isos es)) num ∙ omega arith;
        entries =
            subst (λ g. Placed g 0 (isos es))
              (sym (two.0 ∙ ap (λ k. place_all k (isos es) s.iso_entries) num))
              (place_all-Placed 0 (isos es) s.iso_entries);
        io_apic = three ∙ (rw (addr) refl);
        listing = four.0 ∙ ap (λ l. l ++ es) shown;
      },
    )
