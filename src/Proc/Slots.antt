-- ===== src/Proc/Slots.antt =====
-- The slot that create_proc takes.
use native.Mathlib.Decide.{ℕ_discrete}
use brownie_os.Base.{
  ℕ, zero, suc, ◌+◌, ◌-◌, ◌<◌, ◌≤◌, ◌≡◌, ◌⊎◌, inl, inr, refl, ◌∙◌, ap, arith, true, false, none,
  some, Bool-cases,
}
use brownie_os.Proc.{System, ProcPriority, max_proc}
use brownie_os.Boot.{Ended}
use brownie_os.Proc.Create.{Os, is_free, find_unused, with_slot, create_proc}

-- The search finds the first free slot, or there is none.
find_unused_lem :
    (n i : ℕ) (s : System)
    → ((k : ℕ) × (i ≤ k)
        × (k < i + n)
        × (find_unused n i s ≡ some k)
        × (is_free s k ≡ true)
        × ((j : ℕ) → i ≤ j → j < k → is_free s j ≡ false))
      ⊎ ((find_unused n i s ≡ none) × ((j : ℕ) → i ≤ j → j < i + n → is_free s j ≡ false))
unfolding find_unused
find_unused_lem zero i s = inr (refl, λ j lo hi. absurd (omega (arith, lo, hi)))
find_unused_lem (suc n) i s = elim (Bool-cases (is_free s i)) [
  | inl hit ↦
      inl
        (i, omega arith, omega arith, (rw hit refl), hit, λ j lo hi. absurd (omega (arith, lo, hi)))
  | inr miss ↦ elim (find_unused_lem n (i + 1) s) [
    | inl (k, lo, hi, e, f, before) ↦ inl (
      k,
      omega (arith, lo),
      omega (arith, hi),
      (rw miss e),
      f,
      λ j low high. elim (ℕ_discrete j i) [
        | yes here ↦ ap (is_free s) here ∙ miss
        | no past ↦ before j (omega (arith, low, past)) high
      ],
    )
    | inr (e, busy) ↦ inr (
      rw miss e,
      λ j low high. elim (ℕ_discrete j i) [
        | yes here ↦ ap (is_free s) here ∙ miss
        | no past ↦ busy j (omega (arith, low, past)) (omega (arith, high))
      ],
    )
  ]
]

-- create_proc goes on with the first free slot behind the kernel's; with none it returns NULL and
-- changes nothing.
pub create_proc-first :
    (fuel loaded kernel_directory code stack_size : ℕ) (priority : ProcPriority) (o : Os)
    → let made = create_proc fuel loaded kernel_directory code stack_size priority o in
      ((k : ℕ) × (1 ≤ k)
        × (k < max_proc)
        × (made ≡ with_slot fuel loaded kernel_directory code stack_size priority o (some k))
        × (is_free o.system k ≡ true)
        × ((j : ℕ) → 1 ≤ j → j < k → is_free o.system j ≡ false))
      ⊎ ((made ≡ Ended.returned (o, 0))
          × ((j : ℕ) → 1 ≤ j → j < max_proc → is_free o.system j ≡ false))
unfolding create_proc
create_proc-first fuel loaded kernel_directory code stack_size priority o =
    elim (find_unused_lem (max_proc - 1) 1 o.system) [
      | inl (k, lo, hi, e, f, before) ↦ inl (
        k,
        lo,
        hi,
        ap (with_slot fuel loaded kernel_directory code stack_size priority o) e,
        f,
        before,
      )
      | inr (e, busy) ↦
          inr (ap (with_slot fuel loaded kernel_directory code stack_size priority o) e, busy)
    ]
