-- ===== src/Proc/Pick.antt =====
-- Which process `pick_next_proc` returns.
use brownie_os.Base.{
  ℕ, zero, suc, ◌+◌, ◌-◌, ◌≤◌, ◌<◌, ◌≡◌, refl, ◌⊎◌, inl, inr, true, false, Option, none, some,
  arith, ◌==◌, Bool-cases,
}
use native.Mathlib.Decide.{dec_lt, ℕ_discrete}
use brownie_os.Proc.{System, max_proc, find_slot, eligible, scan_slots, start_slot, pick_next_proc}

module _ (s : System) (cur : ℕ) where
  -- A pass takes the first eligible slot, or none if none is eligible.
  record Hit (i n : ℕ) (r : Option ℕ) : Type 0 where
    slot : ℕ
    from : i ≤ slot
    to : slot < i + n
    good : eligible s cur slot ≡ true
    first : (j : ℕ) → i ≤ j → j < slot → eligible s cur j ≡ false
    result : r ≡ some (s.proc_list slot)

  record Miss (i n : ℕ) (r : Option ℕ) : Type 0 where
    all_bad : (j : ℕ) → i ≤ j → j < i + n → eligible s cur j ≡ false
    result : r ≡ none

  scan_slots_lem : (n i : ℕ) → Hit i n (scan_slots n i s cur) ⊎ Miss i n (scan_slots n i s cur)
  unfolding scan_slots
  scan_slots_lem zero i = inr (record { all_bad = λ j a b. absurd (omega arith); result = refl })
  scan_slots_lem (suc n) i = elim (Bool-cases (eligible s cur i)) [
    | inl yes_here ↦ rw yes_here (
        inl (record {
          slot = i;
          from = omega arith;
          to = omega arith;
          good = yes_here;
          first = λ j a b. absurd (omega arith);
          result = refl;
        }))
    | inr not_here ↦ rw not_here (elim (scan_slots_lem n (i + 1)) [
      | inl h ↦ inl (record {
        slot = h.slot;
        from = omega (arith, h.from);
        to = omega (arith, h.to);
        good = h.good;
        first = λ j a b. elim (ℕ_discrete j i) [
          | yes e ↦ rw e not_here
          | no ne ↦ h.first j (omega arith) b
        ];
        result = h.result;
      })
      | inr m ↦ inr (record {
        all_bad = λ j a b. elim (ℕ_discrete j i) [
          | yes e ↦ rw e not_here
          | no ne ↦ m.all_bad j (omega arith) (omega arith)
        ];
        result = m.result;
      })
    ])
  ]

start_le : (t : ℕ → ℕ) (cur n i : ℕ) → start_slot (find_slot n i t cur) ≤ i + n
unfolding find_slot
start_le t cur zero i = omega arith
start_le t cur (suc n) i = elim (Bool-cases (t i == cur)) [
  | inl e ↦ rw e (omega arith)
  | inr ne ↦ rw ne (omega (arith, start_le t cur n (i + 1)))
]

-- The slot behind that of `cur`, or 0 where `cur` is in no slot.
abbrev pub next_slot : System → ℕ → ℕ
next_slot s cur = start_slot (find_slot max_proc 0 s.proc_list cur)

-- Slot `j` comes before slot `k` on the way round from `start`.
abbrev pub Before : (start j k : ℕ) → Type 0
Before start j k = ((start ≤ j) × ((j < k) ⊎ (k < start))) ⊎ ((j < k) × (k < start))

-- `pick_next_proc` returns the process of the first eligible slot on the way round the table from
-- the slot behind the current one: another process than the current one, which is running and in
-- user mode. It returns NULL exactly when no slot is eligible.
pub pick_next_proc_first :
    (s : System) (cur : ℕ)
    → ((k : ℕ) × (k < max_proc)
        × (pick_next_proc s cur ≡ s.proc_list k)
        × (eligible s cur k ≡ true)
        × ((j : ℕ) → j < max_proc → Before (next_slot s cur) j k → eligible s cur j ≡ false))
      ⊎ ((pick_next_proc s cur ≡ 0) × ((j : ℕ) → j < max_proc → eligible s cur j ≡ false))
unfolding pick_next_proc
pick_next_proc_first s cur =
    let start = next_slot s cur in
    let bound = start_le s.proc_list cur max_proc 0 in
    elim (scan_slots_lem s cur (max_proc - start) start) [
      | inl h ↦ rw h.result (
          inl (
            h.slot,
            omega (arith, h.to, bound),
            refl,
            h.good,
            λ j hj b. elim b [
              | inl ahead ↦ h.first j ahead.0 (omega (arith, h.from, ahead.1))
              | inr wrapped ↦ absurd (omega (arith, h.from))
            ],
          ))
      | inr m ↦ rw m.result (elim (scan_slots_lem s cur max_proc 0) [
        | inl h ↦ rw h.result (
            inl (
              h.slot,
              omega (arith, h.to),
              refl,
              h.good,
              λ j hj b. elim (dec_lt j h.slot) [
                | yes early ↦ h.first j (omega arith) early
                | no late ↦ m.all_bad j (omega (arith, b)) (omega (arith, bound))
              ],
            ))
        | inr none_at_all ↦
            rw none_at_all.result
              (inr (refl, λ j hj. none_at_all.all_bad j (omega arith) (omega arith)))
      ])
    ]
