-- ===== src/Examples/Arrays.antt =====
-- The ordered array on concrete inputs.
use brownie_os.Base.{◌+◌, ◌*◌, ◌≡◌, refl, arith, ltb, if◌then◌else◌}
use brownie_os.OrderedArray.{OrderedArray, less_predicate, find_ordered_array}
use brownie_os.OrderedArray.Insert.{IsSorted}

-- 10, 30, 50 in an array of four
abbrev three : OrderedArray
three = record {
  array = λ i. if ltb i 3 then 20 * i + 10 else 7;
  size = 3;
  max_size = 4;
  predicate = less_predicate;
}

three-IsSorted : IsSorted three
three-IsSorted i j lt top = ground arith

find_30 : find_ordered_array three 30 ≡ 1
unfolding find_ordered_array
find_30 = refl
