-- ===== src/Libc/Memory.antt =====
-- libc/string: memcpy, memmove, memset, memcmp, strcmp and strncmp. Memory is a function from the
-- address to the byte; the objects lie within the address space, so that no address wraps.
pub mod Move
pub mod Compare
use brownie_os.Base.{
  ℕ, zero, suc, ◌+◌, ◌-◌, ◌%◌, Bool, true, false, Option, none, some, ltb, ◌==◌, if◌then◌else◌,
  update,
}

abbrev pub Memory : Type 0
Memory = ℕ → ℕ

-- `for (i = ...; i < size; i++) dst[i] = src[i]`, from `i` on with `n` rounds left
unfoldable pub copy_up : (n i dst src : ℕ) → Memory → Memory
copy_up zero i dst src m = m
copy_up (suc n) i dst src m = copy_up n (i + 1) dst src (update m (dst + i) (m (src + i)))

-- `for (i = size; i != 0; i--) dst[i-1] = src[i-1]`, with `i` rounds left
pub copy_down : (i dst src : ℕ) → Memory → Memory
copy_down zero dst src m = m
copy_down (suc i) dst src m = copy_down i dst src (update m (dst + i) (m (src + i)))

unfoldable pub memcpy : (dst src size : ℕ) → Memory → Memory
memcpy dst src size m = copy_up size 0 dst src m

unfoldable pub memmove : (dst src size : ℕ) → Memory → Memory
memmove dst src size m = if ltb dst src then copy_up size 0 dst src m else copy_down size dst src m

-- The loop of `memset`, from `i` on with `n` rounds left
pub fill_up : (n i buf value : ℕ) → Memory → Memory
fill_up zero i buf value m = m
fill_up (suc n) i buf value m = fill_up n (i + 1) buf value (update m (buf + i) (value % 256))

unfoldable pub memset : (buf value size : ℕ) → Memory → Memory
memset buf value size m = fill_up size 0 buf value m

-- The results -1, 0 and 1.
pub data Sign : Type 0 where
  minus zero_sign plus : Sign

-- The loop of `memcmp` and `strncmp`, from `i` on with `n` rounds left
pub compare_up : (n i a b : ℕ) → Memory → Sign
compare_up zero i a b m = Sign.zero_sign
compare_up (suc n) i a b m =
    let rest = compare_up n (i + 1) a b m in
    if ltb (m (a + i)) (m (b + i))
    then Sign.minus
    else if ltb (m (b + i)) (m (a + i))
    then Sign.plus
    else rest

unfoldable pub memcmp : (a b size : ℕ) → Memory → Sign
memcmp a b size m = compare_up size 0 a b m

unfoldable pub strncmp : (a b size : ℕ) → Memory → Sign
strncmp a b size m = compare_up size 0 a b m

-- The loop of `strcmp` on fuel: `none` means that it is still running.
pub compare_strings : (f i a b : ℕ) → Memory → Option Sign
compare_strings zero i a b m = none
compare_strings (suc f) i a b m =
    let rest = compare_strings f (i + 1) a b m in
    if ltb (m (a + i)) (m (b + i))
    then some Sign.minus
    else if ltb (m (b + i)) (m (a + i))
    then some Sign.plus
    else if m (a + i) == 0
    then some Sign.zero_sign
    else rest

unfoldable pub strcmp : (f a b : ℕ) → Memory → Option Sign
strcmp f a b m = compare_strings f 0 a b m
