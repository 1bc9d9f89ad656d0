-- ===== src/OrderedArray/Insert.antt =====
-- Insertion: where the value goes, what moves, and that order is kept.
use brownie_os.Base.{
  ℕ, zero, suc, ◌+◌, ◌-◌, ◌<◌, ◌≤◌, ◌≡◌, refl, Bool, true, false, arith, update, inl, inr,
  Bool-cases, lt→ltb, le→ltb,
}
use native.Mathlib.Decide.{dec_lt}
use brownie_os.OrderedArray.{OrderedArray, less_predicate, shift_up, insert_ordered_array}

-- The array `b` is `a` with `val` put in at index `k` of its first `n` cells.
pub record Inserted (a : ℕ → ℕ) (n val : ℕ) (b : ℕ → ℕ) (k : ℕ) : Type 0 where
  pub index : k ≤ n
  pub below : (j : ℕ) → j < k → b j ≡ a j
  pub at : b k ≡ val
  pub moved : (j : ℕ) → k ≤ j → j < n → b (j + 1) ≡ a j
  pub beyond : (j : ℕ) → n < j → b j ≡ a j

-- The array as the loop leaves it, before `val` is written.
record Shifted (p : ℕ → ℕ → Bool) (a : ℕ → ℕ) (n val : ℕ) (b : ℕ → ℕ) (k : ℕ) : Type 0 where
  index : k ≤ n
  below : (j : ℕ) → j ≤ k → b j ≡ a j
  moved : (j : ℕ) → k ≤ j → j < n → b (j + 1) ≡ a j
  beyond : (j : ℕ) → n < j → b j ≡ a j
  stop : (j : ℕ) → j + 1 ≡ k → p val (a j) ≡ false
  passed : (j : ℕ) → k ≤ j → j < n → p val (a j) ≡ true

shift_up-Shifted :
    (p : ℕ → ℕ → Bool) (val n : ℕ) (a : ℕ → ℕ)
    → let (b, k) = shift_up p val n a in Shifted p a n val b k
unfolding shift_up
shift_up-Shifted p val zero a = record {
  index = omega arith;
  below = λ j h. refl;
  moved = λ j h l. absurd (omega arith);
  beyond = λ j h. refl;
  stop = λ j h. absurd (omega arith);
  passed = λ j h l. absurd (omega arith);
}
shift_up-Shifted p val (suc n) a =
    let ih = shift_up-Shifted p val n (update a (suc n) (a n)) in
    elim (Bool-cases (p val (a n))) [
      | inl go ↦ rw go (record {
        index = omega (arith, ih.index);
        below = λ j h. ground (arith, ih.below j h, ih.index);
        moved = λ j h l. ground (arith, ih.moved j h, ih.beyond (j + 1));
        beyond = λ j h. ground (arith, ih.beyond j);
        stop = λ j h. ground (arith, ih.stop j h, ih.index);
        passed = λ j h l. ground (arith, ih.passed j h);
      })
      | inr halt ↦ rw halt (record {
        index = omega arith;
        below = λ j h. refl;
        moved = λ j h l. absurd (omega arith);
        beyond = λ j h. refl;
        stop = λ j h. let e : j ≡ n = omega arith in rw e halt;
        passed = λ j h l. absurd (omega arith);
      })
    ]

module _ (o : OrderedArray) (val : ℕ) (room : o.size < o.max_size) where
  abbrev result : OrderedArray × ℕ
  result = insert_ordered_array o val

  -- Insertion into an array with room puts the value at the returned index, moves the elements
  -- behind it up by one and changes nothing else, and makes the array one longer.
  pub insert_ordered_array-Inserted :
      Inserted o.array o.size val result.0.array result.1
      × (result.0.size ≡ o.size + 1)
      × (result.0.max_size ≡ o.max_size)
      × (result.0.predicate ≡ o.predicate)
  unfolding insert_ordered_array
  insert_ordered_array-Inserted =
      let s = shift_up-Shifted o.predicate val o.size o.array in
      rw (lt→ltb o.size o.max_size room) (
        record {
          index = s.index;
          below = λ j h. ground (arith, s.below j);
          at = ground arith;
          moved = λ j h l. ground (arith, s.moved j h l);
          beyond = λ j h. ground (arith, s.beyond j h, s.index);
        },
        refl,
        refl,
        refl,
      )

  -- The value goes behind every element that the predicate does not put after it, and before the
  -- run of those that it does.
  pub insert_ordered_array-place :
      ((j : ℕ) → j + 1 ≡ result.1 → o.predicate val (o.array j) ≡ false)
      × ((j : ℕ) → result.1 ≤ j → j < o.size → o.predicate val (o.array j) ≡ true)
  unfolding insert_ordered_array
  insert_ordered_array-place =
      let s = shift_up-Shifted o.predicate val o.size o.array in
      rw (lt→ltb o.size o.max_size room) (s.stop, s.passed)

-- A full array is left as it is, and the index returned is 0.
pub insert_ordered_array_full :
    (o : OrderedArray) (val : ℕ) → o.max_size ≤ o.size → insert_ordered_array o val ≡ (o, 0)
unfolding insert_ordered_array
insert_ordered_array_full o val h = rw (le→ltb o.size o.max_size h)

-- The elements in use never fall.
abbrev pub IsSorted : OrderedArray → Type 0
IsSorted o = (i j : ℕ) → i < j → j < o.size → o.array i ≤ o.array j

module _ {a b : ℕ → ℕ} {n val k : ℕ} (ins : Inserted a n val b k) where
  Inserted-sorted :
      ((j : ℕ) → j + 1 ≡ k → a j ≤ val)
      → ((j : ℕ) → k ≤ j → j < n → val ≤ a j)
      → ((i j : ℕ) → i < j → j < n → a i ≤ a j)
      → (i j : ℕ) → i < j
      → j < n + 1
      → b i ≤ b j
  Inserted-sorted lo hi sorted i j lt top = ground (
    arith,
    ins.index,
    ins.below i,
    ins.below j,
    ins.at,
    ins.moved (i - 1),
    ins.moved (j - 1),
    sorted i j,
    sorted i (j - 1),
    sorted (i - 1) (j - 1),
    sorted i (k - 1),
    lo (k - 1),
    hi (j - 1),
  )

-- Insertion with `less_predicate`, the ordering that both init functions install, keeps the
-- array sorted.
pub insert_ordered_array-IsSorted :
    (o : OrderedArray) (val : ℕ)
    → o.size < o.max_size
    → o.predicate ≡ less_predicate
    → IsSorted o
    → IsSorted (insert_ordered_array o val).0
insert_ordered_array-IsSorted o val room less sorted i j lt top =
    let (ins, size, _, _) = insert_ordered_array-Inserted o val room in
    let (lo, hi) = insert_ordered_array-place o val room in
    Inserted-sorted ins (λ j h. lower j (rw (← less) (lo j h)))
      (λ j h l. upper j (rw (← less) (hi j h l))) sorted i j lt (omega arith)
  where
    lower : (j : ℕ) → less_predicate val (o.array j) ≡ false → o.array j ≤ val
    lower j h = unfold less_predicate in ground arith

    upper : (j : ℕ) → less_predicate val (o.array j) ≡ true → val ≤ o.array j
    upper j h = unfold less_predicate in ground arith

-- Where the value belongs at index `k`, that is where it goes.
pub insert_ordered_array_at :
    (o : OrderedArray) (val k : ℕ)
    → o.size < o.max_size
    → o.predicate ≡ less_predicate
    → k ≤ o.size
    → ((j : ℕ) → j < k → o.array j ≤ val)
    → ((j : ℕ) → k ≤ j → j < o.size → val < o.array j)
    → Inserted o.array o.size val (insert_ordered_array o val).0.array k
insert_ordered_array_at o val k room less inside below above =
    let (ins, _, _, _) = insert_ordered_array-Inserted o val room in
    let (lo, hi) = insert_ordered_array-place o val room in
    let r = (insert_ordered_array o val).1 in
    let e : r ≡ k = elim (dec_lt r k) [
      | yes early ↦
          absurd
            (omega (arith, below r early, upper r (rw (← less) (hi r (omega arith) (omega arith)))))
      | no late ↦ elim (dec_lt k r) [
        | yes past ↦ absurd (
            omega (
              arith,
              above (r - 1) (omega arith) (omega (arith, ins.index)),
              lower (r - 1) (rw (← less) (lo (r - 1) (omega arith))),
            ))
        | no here ↦ omega arith
      ]
    ] in
    rw e at ins
  where
    lower : (j : ℕ) → less_predicate val (o.array j) ≡ false → o.array j ≤ val
    lower j h = unfold less_predicate in ground arith

    upper : (j : ℕ) → less_predicate val (o.array j) ≡ true → val < o.array j
    upper j h = unfold less_predicate in ground arith
