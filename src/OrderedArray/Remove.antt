-- ===== src/OrderedArray/Remove.antt =====
-- Removal: the elements behind the index move down by one.
use brownie_os.Base.{
  ℕ, zero, suc, ◌+◌, ◌-◌, ◌<◌, ◌≤◌, ◌≡◌, refl, arith, ◌%◌, ltb, if◌then◌else◌, update, u32,
}
use brownie_os.OrderedArray.{OrderedArray, shift_down, remove_ordered_array}
use brownie_os.OrderedArray.Insert.{IsSorted}

shift_down_lem :
    (n i : ℕ) (a : ℕ → ℕ) (j : ℕ)
    → shift_down n i a j ≡ (if ltb j i then a j else if ltb j (i + n) then a (j + 1) else a j)
unfolding shift_down
shift_down_lem zero i a j = ground arith
shift_down_lem (suc n) i a j = ground (arith, shift_down_lem n (i + 1) (update a i (a (i + 1))) j)

-- The array `b` is `a` with the element at index `k` of its first `n` cells taken out.
pub record Removed (a : ℕ → ℕ) (n k : ℕ) (b : ℕ → ℕ) : Type 0 where
  pub below : (j : ℕ) → j < k → b j ≡ a j
  pub moved : (j : ℕ) → k ≤ j → j + 1 < n → b j ≡ a (j + 1)
  pub cleared : b (n - 1) ≡ 0
  pub beyond : (j : ℕ) → n ≤ j → b j ≡ a j

-- Removal at an index in use moves the elements behind it down by one, writes 0 to the cell that
-- falls free, changes nothing else and makes the array one shorter.
pub remove_ordered_array-Removed :
    (o : OrderedArray) (k : ℕ)
    → k < o.size
    → o.size < u32
    → let o' = remove_ordered_array o k in
      Removed o.array o.size k o'.array
      × (o'.size + 1 ≡ o.size)
      × (o'.max_size ≡ o.max_size)
      × (o'.predicate ≡ o.predicate)
unfolding remove_ordered_array
remove_ordered_array-Removed o k inside small = (
  record {
    below = λ j h. ground (arith, at j);
    moved = λ j h l. ground (arith, at j);
    cleared = ground (arith, at (o.size - 1));
    beyond = λ j h. ground (arith, at j);
  },
  omega arith,
  refl,
  refl,
)
  where
    at :
        (j : ℕ)
        → shift_down ((o.size + u32 - 1) % u32 - k) k o.array j ≡ (
            if ltb j k
            then o.array j
            else if ltb j (k + ((o.size + u32 - 1) % u32 - k))
            then o.array (j + 1)
            else o.array j)
    at j = shift_down_lem ((o.size + u32 - 1) % u32 - k) k o.array j

-- Removal keeps the array sorted.
pub remove_ordered_array-IsSorted :
    (o : OrderedArray) (k : ℕ)
    → k < o.size
    → o.size < u32
    → IsSorted o
    → IsSorted (remove_ordered_array o k)
remove_ordered_array-IsSorted o k inside small sorted i j lt top =
    let (rem, size, _, _) = remove_ordered_array-Removed o k inside small in
    ground (
      arith,
      rem.below i,
      rem.below j,
      rem.moved i,
      rem.moved j,
      sorted i j,
      sorted i (j + 1),
      sorted (i + 1) (j + 1),
    )
