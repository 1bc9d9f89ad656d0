-- ===== src/Libc/Itoa/Swap.antt =====
-- The swap loop reverses the characters between its two pointers.
use native.Mathlib.Decide.{ℕ_discrete}
use brownie_os.Base.{
  ℕ, zero, suc, ◌+◌, ◌-◌, ◌≤◌, ◌<◌, ◌≡◌, refl, ◌≢◌, arith, ltb, update, Bool-cases, inl, inr,
  ltb→lt, ltb→le, ◌∙◌, ap, update_self, update_ne,
}
use brownie_os.Libc.Itoa.{Buffer, swap_ends}

module _ (lo hi : ℕ) (m : Buffer) (order : lo < hi) where
  abbrev swapped : Buffer
  swapped = update (update m lo (m hi)) hi (m lo)

  swapped_lo : swapped lo ≡ m hi
  swapped_lo = update_ne (update m lo (m hi)) hi lo (m lo) (omega arith) ∙ update_self m lo (m hi)

  swapped_hi : swapped hi ≡ m lo
  swapped_hi = update_self (update m lo (m hi)) hi (m lo)

  swapped_else : (j : ℕ) → j ≢ lo → j ≢ hi → swapped j ≡ m j
  swapped_else j p q = update_ne (update m lo (m hi)) hi j (m lo) q ∙ update_ne m lo j (m hi) p

-- Outside `lo ≤ j ≤ hi` nothing changes, and inside the characters stand in reverse.
pub record Reversed (lo hi : ℕ) (m m' : Buffer) : Type 0 where
  pub inside : (j : ℕ) → lo ≤ j → j ≤ hi → m' j ≡ m (lo + hi - j)
  pub below : (j : ℕ) → j < lo → m' j ≡ m j
  pub above : (j : ℕ) → hi < j → m' j ≡ m j

Reversed-one : (lo hi : ℕ) (m : Buffer) → hi ≤ lo → Reversed lo hi m m
Reversed-one lo hi m h = record {
  inside = λ j p q. ap m (omega arith);
  below = λ j p. refl;
  above = λ j p. refl;
}

Reversed-step :
    (lo hi : ℕ) (m m' : Buffer)
    → lo < hi
    → Reversed (lo + 1) (hi - 1) (update (update m lo (m hi)) hi (m lo)) m'
    → Reversed lo hi m m'
Reversed-step lo hi m m' order r = record {
  inside = λ j p q. elim (ℕ_discrete j lo) [
    | yes first ↦
        ap m' first ∙ r.below lo (omega arith) ∙ swapped_lo lo hi m order ∙ ap m (omega arith)
    | no later ↦ elim (ℕ_discrete j hi) [
      | yes last ↦
          ap m' last ∙ r.above hi (omega arith) ∙ swapped_hi lo hi m order ∙ ap m (omega arith)
      | no between ↦
          r.inside j (omega arith) (omega arith)
          ∙ swapped_else lo hi m order (lo + 1 + (hi - 1) - j) (omega arith) (omega arith)
          ∙ ap m (omega arith)
    ]
  ];
  below = λ j p. r.below j (omega arith) ∙ swapped_else lo hi m order j (omega arith) (omega arith);
  above = λ j p. r.above j (omega arith) ∙ swapped_else lo hi m order j (omega arith) (omega arith);
}

pub swap_ends-Reversed :
    (f lo hi : ℕ) (m : Buffer) → hi ≤ lo + f → Reversed lo hi m (swap_ends f lo hi m)
unfolding swap_ends
swap_ends-Reversed zero lo hi m fuel = Reversed-one lo hi m (omega arith)
swap_ends-Reversed (suc f) lo hi m fuel = elim (Bool-cases (ltb lo hi)) [
  | inl go ↦ rw go (
      Reversed-step lo hi m _ (ltb→lt lo hi go) (
        swap_ends-Reversed f (lo + 1) (hi - 1) (update (update m lo (m hi)) hi (m lo))
          (omega arith)))
  | inr stop ↦ rw stop (Reversed-one lo hi m (ltb→le lo hi stop))
]
