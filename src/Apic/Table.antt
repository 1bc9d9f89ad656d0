-- ===== src/Apic/Table.antt =====
-- init_ioapic: what the redirection table holds in the end.
use native.Mathlib.Decide.{ℕ_discrete}
use native.Mathlib.Nat.{mod-eq_of_lt}
use brownie_os.Base.{
  ℕ, zero, suc, ◌+◌, ◌*◌, ◌/◌, ◌%◌, ◌^◌, ◌≤◌, ◌<◌, ◌≡◌, ◌≢◌, refl, sym, ap, subst, ◌∙◌, arith, ◌⊎◌,
  inl, inr, update, update_self, update_ne,
}
use brownie_os.Madt.{IoapicIso}
use brownie_os.Vmm.{Tables, kmap}
use brownie_os.Apic.{
  RedirEntryLo, RedirEntryHi, lo_word, lo_entry, hi_word, hi_entry, Device, IoapicState,
  red_tbl_reg, redirected, redirect_entry, redirect_entries, init_ioapic,
}
use brownie_os.Apic.Overrides.{IsOrdered, IsCounted, redirected-Counted}
use brownie_os.Apic.Codec.{IsLoEntry, IsHiEntry, lo_entry-lo_word, hi_entry-hi_word}

-- The device takes the fields that are not read-only.
pub record Takes (accept : Device) : Type 0 where
  pub vector : (reg old val : ℕ) → (lo_entry (accept reg old val)).vector ≡ (lo_entry val).vector
  pub deliv_mode :
      (reg old val : ℕ) → (lo_entry (accept reg old val)).deliv_mode ≡ (lo_entry val).deliv_mode
  pub trigger_mode :
      (reg old val : ℕ) → (lo_entry (accept reg old val)).trigger_mode ≡ (lo_entry val).trigger_mode
  pub pin_polarity :
      (reg old val : ℕ) → (lo_entry (accept reg old val)).pin_polarity ≡ (lo_entry val).pin_polarity
  pub masked : (reg old val : ℕ) → (lo_entry (accept reg old val)).masked ≡ (lo_entry val).masked
  pub dest : (reg old val : ℕ) → (hi_entry (accept reg old val)).dest ≡ (hi_entry val).dest

-- The entry of the interrupt `k` with the words `lo` and `hi`: the vector of its override, or its
-- own; fixed delivery, edge-triggered, active high, not masked; and the destination.
pub record Redirects (gsi_entries : ℕ → IoapicIso) (m k destination lo hi : ℕ) : Type 0 where
  pub overridden :
      (j : ℕ)
      → j < m
      → (gsi_entries j).gsi ≡ k
      → (lo_entry lo).vector ≡ (32 + (gsi_entries j).irq_src) % 256
  pub identity : ((j : ℕ) → j < m → (gsi_entries j).gsi ≢ k) → (lo_entry lo).vector ≡ (32 + k) % 256
  pub fixed : (lo_entry lo).deliv_mode ≡ 0
  pub edge : (lo_entry lo).trigger_mode ≡ 0
  pub active_high : (lo_entry lo).pin_polarity ≡ 0
  pub unmasked : (lo_entry lo).masked ≡ 0
  pub destination_is : (hi_entry hi).dest ≡ destination

module _ (accept : Device) (irr garbage : ℕ → ℕ) (gsi_entries : ℕ → IoapicIso) (m : ℕ)
    (takes : Takes accept) (ordered : IsOrdered gsi_entries m)
    (bits : (i : ℕ) → (irr i < 2) × (garbage i < 256)) where
  abbrev lo_of : ℕ → IoapicState → ℕ
  lo_of k s = s.registers (16 + 2 * k)

  abbrev hi_of : ℕ → IoapicState → ℕ
  hi_of k s = s.registers (17 + 2 * k)

  -- The entries that the loop writes, as the words before its writes
  abbrev lo_written : ℕ → IoapicState → RedirEntryLo
  lo_written i s = record {
    vector = redirected gsi_entries s.gsi_count i;
    deliv_mode = 0;
    dest_mode = 0;
    deliv_status = 0;
    pin_polarity = 0;
    remote_irr = irr i;
    trigger_mode = 0;
    masked = 0;
    lo_reserved = (lo_entry (s.registers (red_tbl_reg i))).lo_reserved;
  }

  abbrev hi_written : ℕ → IoapicState → RedirEntryHi
  hi_written i s = record {
    hi_reserved = (hi_entry (s.registers ((0x10 + 2 * i + 1) % 256))).hi_reserved;
    dest = garbage i;
  }

  lo_written-IsLoEntry : (i : ℕ) (s : IoapicState) → IsLoEntry (lo_written i s)
  unfolding lo_entry
  lo_written-IsLoEntry i s = record {
    vector = ground arith;
    deliv_mode = omega arith;
    dest_mode = omega arith;
    deliv_status = omega arith;
    pin_polarity = omega arith;
    remote_irr = (bits i).0;
    trigger_mode = omega arith;
    masked = omega arith;
    lo_reserved = omega arith;
  }

  hi_written-IsHiEntry : (i : ℕ) (s : IoapicState) → IsHiEntry (hi_written i s)
  unfolding hi_entry
  hi_written-IsHiEntry i s = record { hi_reserved = omega arith; dest = (bits i).1 }

  -- The words of an entry once the device has taken them
  taken-Redirects :
      (i lo_reg hi_reg lo hi : ℕ) (s : IoapicState)
      → IsCounted gsi_entries m s.gsi_count i
      → Redirects gsi_entries m i
          (garbage i)
          (accept lo_reg lo (lo_word (lo_written i s)))
          (accept hi_reg hi (hi_word (hi_written i s)))
  taken-Redirects i lo_reg hi_reg lo hi s c =
      let w = lo_word (lo_written i s) in
      let fields = lo_entry-lo_word (lo_written i s) (lo_written-IsLoEntry i s) in
      let choice = redirected-Counted gsi_entries m ordered s.gsi_count i c in
      record {
        overridden = λ j small e.
            takes.vector lo_reg lo w
            ∙ ap (λ (x : RedirEntryLo). x.vector) fields
            ∙ choice.0 j small e;
        identity = λ never.
            takes.vector lo_reg lo w ∙ ap (λ (x : RedirEntryLo). x.vector) fields ∙ choice.1 never;
        fixed = takes.deliv_mode lo_reg lo w ∙ ap (λ (x : RedirEntryLo). x.deliv_mode) fields;
        edge = takes.trigger_mode lo_reg lo w ∙ ap (λ (x : RedirEntryLo). x.trigger_mode) fields;
        active_high =
            takes.pin_polarity lo_reg lo w ∙ ap (λ (x : RedirEntryLo). x.pin_polarity) fields;
        unmasked = takes.masked lo_reg lo w ∙ ap (λ (x : RedirEntryLo). x.masked) fields;
        destination_is =
            takes.dest hi_reg hi (hi_word (hi_written i s))
            ∙ ap (λ (x : RedirEntryHi). x.dest)
                (hi_entry-hi_word (hi_written i s) (hi_written-IsHiEntry i s));
      }

  -- One round: its entry is redirected, every other register is as before.
  record Round (i : ℕ) (s t : IoapicState) : Type 0 where
    pub here : Redirects gsi_entries m i (garbage i) (lo_of i t) (hi_of i t)
    pub others : (r : ℕ) → r ≢ 16 + 2 * i → r ≢ 17 + 2 * i → t.registers r ≡ s.registers r
    pub counted : IsCounted gsi_entries m t.gsi_count (i + 1)

  redirect_entry-Round :
      (i : ℕ) (s : IoapicState)
      → IsCounted gsi_entries m s.gsi_count i
      → i < 120
      → Round i s (redirect_entry accept irr garbage gsi_entries i s)
  unfolding redirect_entry
  redirect_entry-Round i s c small =
      let lo_idx : red_tbl_reg i ≡ 16 + 2 * i = omega (arith, small) in
      let hi_idx : (0x10 + 2 * i + 1) % 256 ≡ 17 + 2 * i = omega (arith, small) in
      let l : ℕ = red_tbl_reg i in
      let h : ℕ = (0x10 + 2 * i + 1) % 256 in
      let apart : l ≢ h = λ e. omega (arith, e, small) in
      let lo' : ℕ = accept l (s.registers l) (lo_word (lo_written i s)) in
      let once : ℕ → ℕ = update s.registers l lo' in
      let hi' : ℕ = accept h (once h) (hi_word (hi_written i s)) in
      let twice : ℕ → ℕ = update once h hi' in
      let e_lo : twice (16 + 2 * i) ≡ lo' =
        ap twice (sym lo_idx) ∙ update_ne once h l hi' apart ∙ update_self s.registers l lo' in
      let e_hi : twice (17 + 2 * i) ≡ hi' = ap twice (sym hi_idx) ∙ update_self once h hi' in
      let taken = taken-Redirects i l h (s.registers l) (once h) s c in
      record {
        here =
            subst (λ x. Redirects gsi_entries m i (garbage i) x (twice (17 + 2 * i))) (sym e_lo)
              (subst (λ x. Redirects gsi_entries m i (garbage i) lo' x) (sym e_hi) taken);
        others = λ r not_lo not_hi.
            update_ne once h r hi' (λ e. not_hi (e ∙ hi_idx))
            ∙ update_ne s.registers l r lo' (λ e. not_lo (e ∙ lo_idx));
        counted = (redirected-Counted gsi_entries m ordered s.gsi_count i c).2;
      }

  -- The rounds from `i` on: the entries from there are redirected, the others are as before.
  record Rounds (k i : ℕ) (s t : IoapicState) : Type 0 where
    pub entries :
        (j : ℕ) → i ≤ j → j < i + k → Redirects gsi_entries m j (garbage j) (lo_of j t) (hi_of j t)
    pub before : (r : ℕ) → (r < 16 + 2 * i) ⊎ (16 + 2 * (i + k) ≤ r) → t.registers r ≡ s.registers r
    pub kept :
        (t.ioapic ≡ s.ioapic)
        × (t.ioapic_ver ≡ s.ioapic_ver)
        × (t.max_redir_entries ≡ s.max_redir_entries)

  Rounds-cons :
      (k i : ℕ) (s t u : IoapicState)
      → Round i s t
      → Rounds k (i + 1) t u
      → (t.ioapic ≡ s.ioapic)
        × (t.ioapic_ver ≡ s.ioapic_ver)
        × (t.max_redir_entries ≡ s.max_redir_entries)
      → Rounds (suc k) i s u
  Rounds-cons k i s t u one rest (a, b, c) = record {
    entries = λ j lo hi. elim (ℕ_discrete j i) [
      | no ne ↦ rest.entries j (omega (arith, lo, ne)) (omega (arith, hi))
      | yes e ↦
          subst (λ x. Redirects gsi_entries m x (garbage x) (lo_of x u) (hi_of x u)) (sym e)
            (subst (λ x. Redirects gsi_entries m i (garbage i) x (hi_of i u))
              (sym (rest.before (16 + 2 * i) (inl (omega arith))))
              (subst (λ x. Redirects gsi_entries m i (garbage i) (lo_of i t) x)
                (sym (rest.before (17 + 2 * i) (inl (omega arith)))) one.here))
    ];
    before = λ r out.
        rest.before r (elim out [ inl x ↦ inl (omega (arith, x)) | inr x ↦ inr (omega (arith, x)) ])
        ∙ one.others r (λ e. elim out [ inl x ↦ omega (arith, x, e) | inr x ↦ omega (arith, x, e) ])
            (λ e. elim out [ inl x ↦ omega (arith, x, e) | inr x ↦ omega (arith, x, e) ]);
    kept = (rest.kept.0 ∙ a, rest.kept.1 ∙ b, rest.kept.2 ∙ c);
  }

  redirect_entries-Rounds :
      (k i : ℕ) (s : IoapicState)
      → IsCounted gsi_entries m s.gsi_count i
      → i + k ≤ 120
      → Rounds k i s (redirect_entries k i accept irr garbage gsi_entries s)
  unfolding redirect_entries redirect_entry
  redirect_entries-Rounds zero i s c small = record {
    entries = λ j lo hi. absurd (omega (arith, lo, hi));
    before = λ r out. refl;
    kept = (refl, refl, refl);
  }
  redirect_entries-Rounds (suc k) i s c small =
      let one = redirect_entry-Round i s c (omega (arith, small)) in
      let t = redirect_entry accept irr garbage gsi_entries i s in
      Rounds-cons k i s t (redirect_entries k (i + 1) accept irr garbage gsi_entries t) one
        (redirect_entries-Rounds k (i + 1) t one.counted (omega (arith, small))) (refl, refl, refl)

-- init_ioapic, for an I/O APIC with at most 120 entries whose writable fields take what is written,
-- fewer than 256 overrides, by ascending interrupt, with zeros behind them in their array, and the count
-- of the overrides at 0: every entry of
-- the table has the vector of its override, or its own where there is none, with fixed delivery,
-- edge-triggered, active high and not masked; its destination is what stood in the uninitialised
-- variable. No register outside the table changes, and the address is that of the mapping.
pub init_ioapic-Redirects :
    (accept : Device) (irr garbage : ℕ → ℕ) (gsi_entries : ℕ → IoapicIso) (m ioapic_addr : ℕ)
    (s : IoapicState) (tables : Tables)
    → s.registers 1 / 2 ^ 16 % 256 < 120
    → s.gsi_count ≡ 0
    → Takes accept
    → IsOrdered gsi_entries m
    → ((i : ℕ) → (irr i < 2) × (garbage i < 256))
    → let n = s.registers 1 / 2 ^ 16 % 256 + 1 in
      let t = init_ioapic accept irr garbage gsi_entries ioapic_addr (s, tables) in
      ((k : ℕ)
        → k < n
        → Redirects gsi_entries m k
            (garbage k)
            (t.0.registers (16 + 2 * k))
            (t.0.registers (17 + 2 * k)))
      × ((r : ℕ) → (r < 16) ⊎ (16 + 2 * n ≤ r) → t.0.registers r ≡ s.registers r)
      × (t.0.ioapic ≡ (kmap ioapic_addr tables).0)
      × (t.0.ioapic_ver ≡ s.registers 1 % 256)
      × (t.0.max_redir_entries ≡ n)
unfolding init_ioapic
init_ioapic-Redirects accept irr garbage gsi_entries m ioapic_addr s tables few fresh takes ordered
      bits =
    let n : ℕ = s.registers 1 / 2 ^ 16 % 256 + 1 in
    let wrap : (s.registers 1 / 2 ^ 16 % 256 + 1) % 256 ≡ n = mod-eq_of_lt (omega (arith, few)) in
    let start : IoapicState = record s {
      ioapic = (kmap ioapic_addr tables).0;
      ioapic_ver = s.registers 1 % 256;
      max_redir_entries = n;
    } in
    let all =
      redirect_entries-Rounds accept irr garbage gsi_entries m takes ordered bits n 0 start
        (record {
          bound = omega (arith, fresh);
          begun = λ h. absurd (omega (arith, h, fresh));
          passed = λ j h small. absurd (omega (arith, h, fresh));
          coming = λ j h small. omega arith;
        })
        (omega (arith, few)) in
    rw wrap (
      λ k h. all.entries k (omega arith) (omega (arith, h)),
      λ r out.
          all.before r
            (elim out [ inl x ↦ inl (omega (arith, x)) | inr x ↦ inr (omega (arith, x)) ]),
      all.kept.0,
      all.kept.1,
      all.kept.2,
    )
