-- ===== src/OrderedArray/Find.antt =====
-- Search: the first index that holds the value, or 0xFFFFFFFF.
use brownie_os.Base.{
  ℕ, zero, suc, ◌+◌, ◌<◌, ◌≤◌, ◌≡◌, refl, ◌≢◌, ◌⊎◌, inl, inr, arith, ◌==◌, ==→eq, Bool-cases,
}
use brownie_os.OrderedArray.{OrderedArray, find_from, find_ordered_array}

-- What the loop returns when it starts at index `i` with `n` cells to go.
FindsFirst : (a : ℕ → ℕ) (val i n r : ℕ) → Type 0
FindsFirst a val i n r =
    ((i ≤ r) × (r < i + n) × (a r ≡ val) × ((j : ℕ) → i ≤ j → j < r → a j ≢ val))
    ⊎ ((r ≡ 4294967295) × ((j : ℕ) → i ≤ j → j < i + n → a j ≢ val))

find_from-FindsFirst : (a : ℕ → ℕ) (val n i : ℕ) → FindsFirst a val i n (find_from a val n i)
unfolding FindsFirst find_from
find_from-FindsFirst a val zero i = inr (refl, λ j h l. absurd (omega arith))
find_from-FindsFirst a val (suc n) i = elim (Bool-cases (a i == val)) [
  | inl hit ↦ rw hit (inl (omega arith, omega arith, ==→eq _ _ hit, λ j h l. absurd (omega arith)))
  | inr miss ↦ rw miss (elim (find_from-FindsFirst a val n (i + 1)) [
    | inl f ↦ inl (omega arith, omega arith, f.2, λ j h l. ground (arith, f.3 j))
    | inr f ↦ inr (f.0, λ j h l. ground (arith, f.1 j))
  ])
]

-- `find_ordered_array` returns the first index in use that holds the value; where there is none
-- it returns 0xFFFFFFFF, and then no element in use equals the value.
pub find_ordered_array-first :
    (o : OrderedArray) (val : ℕ)
    → let r = find_ordered_array o val in
      ((r < o.size) × (o.array r ≡ val) × ((j : ℕ) → j < r → o.array j ≢ val))
      ⊎ ((r ≡ 4294967295) × ((j : ℕ) → j < o.size → o.array j ≢ val))
unfolding find_ordered_array FindsFirst
find_ordered_array-first o val = elim (find_from-FindsFirst o.array val o.size 0) [
  | inl f ↦ inl (omega arith, f.2, λ j l. f.3 j (omega arith) l)
  | inr f ↦ inr (f.0, λ j l. f.1 j (omega arith) (omega arith))
]

-- With no two elements equal, the search finds the index of each.
pub find_ordered_array_index :
    (o : OrderedArray) (i : ℕ)
    → i < o.size
    → ((j : ℕ) → j < o.size → o.array j ≡ o.array i → j ≡ i)
    → find_ordered_array o (o.array i) ≡ i
find_ordered_array_index o i inside distinct = elim (find_ordered_array-first o (o.array i)) [
  | inl f ↦ distinct _ f.0 f.1
  | inr f ↦ absurd (f.1 i inside refl)
]
