-- ===== src/OrderedArray.antt =====
-- kernel/kernel/core/common.c: the ordered array that the kernel heap keeps its headers and
-- footers in. The backing store is a function of the index; an index at or above `max_size` is
-- out of bounds in C, and the lemmas on each operation say which indices it leaves alone.
pub mod Insert
pub mod Remove
pub mod Find
use brownie_os.Base.{
  ℕ, zero, suc, ◌+◌, ◌-◌, ◌<◌, ◌≤◌, ◌≡◌, Bool, true, false, ltb, ◌==◌, if◌then◌else◌, update, u32,
  add32, sub32,
}

-- `ordered_array_t`; the predicate is a function pointer in C.
pub record OrderedArray : Type 0 where
  pub array : ℕ → ℕ
  pub size : ℕ
  pub max_size : ℕ
  pub predicate : ℕ → ℕ → Bool

-- `less_predicate`
unfoldable pub less_predicate : ℕ → ℕ → Bool
less_predicate a b = if ltb a b then true else false

-- memset of `max_size` words
clear_words : (ℕ → ℕ) → ℕ → ℕ → ℕ
clear_words a n i = if ltb i n then 0 else a i

-- `init_ordered_array_place`: `place` is the memory at `addr` before the call.
unfoldable pub init_ordered_array_place : (ℕ → ℕ) → ℕ → OrderedArray
unfolding clear_words
init_ordered_array_place place max_size = record {
  array = clear_words place max_size;
  size = 0;
  max_size = max_size;
  predicate = less_predicate;
}

-- `while(i > 0 && predicate(val, array[i - 1])) { array[i] = array[i - 1]; i--; }`
shift_up : (ℕ → ℕ → Bool) → ℕ → ℕ → (ℕ → ℕ) → (ℕ → ℕ) × ℕ
shift_up p val zero a = (a, 0)
shift_up p val (suc i) a =
    let rest = shift_up p val i (update a (suc i) (a i)) in if p val (a i) then rest else (a, suc i)

-- `insert_ordered_array`: the new array and the index returned.
unfoldable pub insert_ordered_array : OrderedArray → ℕ → OrderedArray × ℕ
unfolding shift_up
insert_ordered_array o val =
    let (a, i) = shift_up o.predicate val o.size o.array in
    if ltb o.size o.max_size
    then (record o { array = update a i val; size = o.size + 1 }, i)
    else (o, 0)

-- `while(i < size - 1) { array[i] = array[i + 1]; i++; }` on the rounds left.
shift_down : ℕ → ℕ → (ℕ → ℕ) → ℕ → ℕ
shift_down zero i a = a
shift_down (suc n) i a = shift_down n (i + 1) (update a i (a (i + 1)))

-- `remove_ordered_array`: the loop runs from `i` up to `size - 1`, in `uint32_t`.
unfoldable pub remove_ordered_array : OrderedArray → ℕ → OrderedArray
unfolding shift_down
remove_ordered_array o i =
    let last = sub32 o.size 1 in
    let stop = if ltb i last then last else i in
    record o { array = update (shift_down (last - i) i o.array) stop 0; size = sub32 o.size 1 }

-- `get_ordered_array`
abbrev pub get_ordered_array : OrderedArray → ℕ → ℕ
get_ordered_array o i = o.array i

-- the loop of `find_ordered_array` on the rounds left
find_from : (ℕ → ℕ) → ℕ → ℕ → ℕ → ℕ
find_from a val zero i = 4294967295
find_from a val (suc n) i = let rest = find_from a val n (i + 1) in if a i == val then i else rest

-- `find_ordered_array`
unfoldable pub find_ordered_array : OrderedArray → ℕ → ℕ
unfolding find_from
find_ordered_array o val = find_from o.array val o.size 0
