-- ===== src/Apic/Overrides.antt =====
-- init_ioapic: the walk along the overrides, which come in the order of their interrupts.
use native.Mathlib.Decide.{ℕ_discrete, dec_lt}
use native.Mathlib.Nat.{mod-eq_of_lt}
use brownie_os.Base.{
  ℕ, ◌+◌, ◌%◌, ◌≤◌, ◌<◌, ◌≡◌, ◌≢◌, refl, sym, ap, ◌∙◌, arith, ◌==◌, eq→==, ne→==, if◌then◌else◌,
}
use brownie_os.Madt.{IoapicIso}
use brownie_os.Apic.{redirected}

-- The `m` overrides are in the order of their interrupts, and the places of `iso_entries` behind them
-- are zero, as parse_madt leaves them.
pub record IsOrdered (gsi_entries : ℕ → IoapicIso) (m : ℕ) : Type 0 where
  pub few : m < 256
  pub sorted : (a b : ℕ) → a < b → b < m → (gsi_entries a).gsi < (gsi_entries b).gsi
  pub unused_gsi : (a : ℕ) → m ≤ a → a < 256 → (gsi_entries a).gsi ≡ 0
  pub unused_src : (a : ℕ) → m ≤ a → a < 256 → (gsi_entries a).irq_src ≡ 0

-- The overrides below `count` are those of interrupts below `i`. Without overrides the first round
-- takes the zero at the first place for one of interrupt 0, so that the count may be past `m`.
pub record IsCounted (gsi_entries : ℕ → IoapicIso) (m count i : ℕ) : Type 0 where
  pub bound : count < 256
  pub begun : 0 < count → 0 < i
  pub passed : (j : ℕ) → j < count → j < m → (gsi_entries j).gsi < i
  pub coming : (j : ℕ) → count ≤ j → j < m → i ≤ (gsi_entries j).gsi

module _ (gsi_entries : ℕ → IoapicIso) (m : ℕ) (ordered : IsOrdered gsi_entries m) where
  -- The override at the count is the only one of its interrupt.
  only :
      (count i : ℕ)
      → IsCounted gsi_entries m count i
      → i ≡ (gsi_entries count).gsi
      → (j : ℕ) → j < m
      → (gsi_entries j).gsi ≡ i
      → count ≡ j
  only count i c hit j small e = elim (ℕ_discrete count j) [
    | yes same ↦ same
    | no ne ↦ elim (dec_lt count j) [
      | yes past ↦ absurd (omega (arith, hit, e, ordered.sorted count j past small))
      | no before ↦ absurd (omega (arith, e, c.passed j (omega (arith, ne, before)) small))
    ]
  ]

  -- Where the override at the count is of another interrupt, no override is of this one.
  later :
      (count i : ℕ)
      → IsCounted gsi_entries m count i
      → i ≢ (gsi_entries count).gsi
      → (j : ℕ) → j < m
      → (gsi_entries j).gsi ≢ i
  later count i c miss j small e = elim (dec_lt j count) [
    | yes before ↦ absurd (omega (arith, e, c.passed j before small))
    | no from ↦ elim (ℕ_discrete count j) [
      | yes same ↦ miss (sym e ∙ ap (λ a. (gsi_entries a).gsi) (sym same))
      | no ne ↦
          let past : count < j = omega (arith, ne, from) in
          absurd (
            omega (
              arith,
              e,
              ordered.sorted count j past small,
              c.coming count (omega arith) (omega (arith, past, small)),
            ))
    ]
  ]

  -- The count after a round
  abbrev counted : (count i : ℕ) → ℕ
  counted count i = if i == (gsi_entries count).gsi then (count + 1) % 256 else count

  -- An override of the interrupt `i` is passed.
  hit-Counted :
      (count i : ℕ)
      → IsCounted gsi_entries m count i
      → i ≡ (gsi_entries count).gsi
      → count < m
      → IsCounted gsi_entries m (count + 1) (i + 1)
  hit-Counted count i c hit below = record {
    bound = omega (arith, below, ordered.few);
    begun = λ h. omega arith;
    passed = λ j h small. elim (ℕ_discrete j count) [
      | yes e ↦ omega (arith, hit, ap (λ a. (gsi_entries a).gsi) e)
      | no ne ↦ omega (arith, c.passed j (omega (arith, h, ne)) small)
    ];
    coming = λ j h small. omega (arith, hit, ordered.sorted count j (omega (arith, h)) small);
  }

  -- A zero behind the overrides is met at interrupt 0, and only where there is no override.
  zero_met :
      (count i : ℕ)
      → IsCounted gsi_entries m count i
      → i ≡ (gsi_entries count).gsi
      → m ≤ count
      → (i ≡ 0) × (count ≡ 0) × (m ≡ 0)
  zero_met count i c hit past =
      let first : i ≡ 0 = hit ∙ ordered.unused_gsi count past c.bound in
      let none_yet : count ≡ 0 = elim (ℕ_discrete count 0) [
        | yes e ↦ e
        | no ne ↦ absurd (omega (arith, first, c.begun (omega (arith, ne))))
      ] in
      (first, none_yet, omega (arith, none_yet, past))

  missed-Counted :
      (count i : ℕ)
      → IsCounted gsi_entries m count i
      → i ≢ (gsi_entries count).gsi
      → IsCounted gsi_entries m count (i + 1)
  missed-Counted count i c miss = record {
    bound = c.bound;
    begun = λ h. omega arith;
    passed = λ j h small. omega (arith, c.passed j h small);
    coming = λ j h small.
        let at_least = c.coming j h small in
        elim (ℕ_discrete (gsi_entries j).gsi i) [
          | yes e ↦ absurd (later count i c miss j small e)
          | no ne ↦ omega (arith, ne, at_least)
        ];
  }

  pub redirected-Counted :
      (count i : ℕ)
      → IsCounted gsi_entries m count i
      → ((j : ℕ)
          → j < m
          → (gsi_entries j).gsi ≡ i
          → redirected gsi_entries count i ≡ (32 + (gsi_entries j).irq_src) % 256)
        × (((j : ℕ) → j < m → (gsi_entries j).gsi ≢ i)
            → redirected gsi_entries count i ≡ (32 + i) % 256)
        × IsCounted gsi_entries m (counted count i) (i + 1)
  redirected-Counted count i c = elim (ℕ_discrete i (gsi_entries count).gsi) [
    | no miss ↦ rw (ne→== i (gsi_entries count).gsi miss) (
      λ j small e. absurd (later count i c miss j small e),
      λ never. refl,
      missed-Counted count i c miss,
    )
    | yes hit ↦ elim (dec_lt count m) [
      | yes below ↦
          let wrap : (count + 1) % 256 ≡ count + 1 =
            mod-eq_of_lt (omega (arith, below, ordered.few)) in
          rw (eq→== i (gsi_entries count).gsi hit, wrap)
            (
              λ j small e.
                  ap (λ a. (32 + (gsi_entries a).irq_src) % 256) (only count i c hit j small e),
              λ never. absurd (never count below (sym hit)),
              hit-Counted count i c hit below,
            )
      | no past ↦
          let behind : m ≤ count = omega (arith, past) in
          let (first, none_yet, none) = zero_met count i c hit behind in
          let wrap : (count + 1) % 256 ≡ 1 = omega (arith, none_yet) in
          rw (eq→== i (gsi_entries count).gsi hit, wrap)
            (
              λ j small e. absurd (omega (arith, small, none)),
              λ never. omega (arith, first, ordered.unused_src count behind c.bound),
              record {
                bound = omega arith;
                begun = λ h. omega arith;
                passed = λ j h small. absurd (omega (arith, small, none));
                coming = λ j h small. absurd (omega (arith, small, none));
              },
            )
    ]
  ]
