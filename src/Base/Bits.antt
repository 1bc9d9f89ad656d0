-- ===== src/Base/Bits.antt =====
-- `&` of the native numbers, and the masks that the kernel writes with it.
use Prim.Native.Nat.{
  ℕ, zero, suc, ◌+◌, ◌*◌, ◌/◌, ◌%◌, ◌^◌, ◌≤◌, ◌<◌, min, bit_and, digits, bit_and-bitwise,
}
use mathlib.Core.Path.{◌≡◌, refl, ap}
use native.Mathlib.Nat.{pow-suc, one-le-pow}
use native.Mathlib.Omega.{arith}

-- The digits of `x & y` on `f` rounds and on `g` rounds agree where both are at least `x`.
abbrev and_rounds : (x y f : ℕ) → ℕ
and_rounds x y f = digits (λ _. 0) min f x y

rounds_agree : (x y f g : ℕ) → x ≤ g → x ≤ f → and_rounds x y f ≡ and_rounds x y g
rounds_agree (suc x) y zero g enough_g enough_f = absurd (omega arith)
rounds_agree (suc x) y (suc f) zero enough_g enough_f = absurd (omega arith)
rounds_agree (suc x) y (suc f) (suc g) enough_g enough_f =
    let halves = rounds_agree (suc x / 2) (y / 2) f g (omega arith) (omega arith) in
    omega (arith, halves)
rounds_agree zero y zero (suc g) enough_g enough_f = refl
rounds_agree zero y (suc f) (suc g) enough_g enough_f = refl
rounds_agree zero y (suc f) zero enough_g enough_f = refl
rounds_agree zero y zero zero enough_g enough_f = refl

none_and : (y : ℕ) → bit_and 0 y ≡ 0
none_and y = bit_and-bitwise 0 y

-- The lowest digit of `x & y`, and the others.
and_lowest : (x y : ℕ) → bit_and x y ≡ min (x % 2) (y % 2) + 2 * bit_and (x / 2) (y / 2)
and_lowest (suc x) y =
    let half : ℕ = suc x / 2 in
    omega (
      arith,
      rounds_agree half (y / 2) x half (omega arith) (omega arith),
      bit_and-bitwise half (y / 2),
      bit_and-bitwise (suc x) y,
    )
and_lowest zero y = omega (arith, none_and (y / 2), none_and y)

and_none : (bound x : ℕ) → x ≤ bound → bit_and x 0 ≡ 0
and_none zero (suc x) small = absurd (omega arith)
and_none bound zero small = none_and 0
and_none (suc bound) (suc x) small =
    let halves = and_none bound (suc x / 2) (omega arith) in
    omega (arith, halves, and_lowest (suc x) 0)

pub bit_and-zero : (a : ℕ) → bit_and a 0 ≡ 0
bit_and-zero a = and_none a a (omega arith)

-- The mask of `k` ones.
abbrev pub ones : ℕ → ℕ
ones zero = 0
ones (suc k) = 2 * ones k + 1

mul-two_pow : (q k : ℕ) → q * 2 ^ suc k ≡ 2 * (q * 2 ^ k)
mul-two_pow q k = omega (arith, ap (λ (t : ℕ). q * t) (pow-suc 2 k))

and_ones_fields : (k q r : ℕ) → r < 2 ^ k → bit_and (q * 2 ^ k + r) (ones k) ≡ r
and_ones_fields zero q r h = ground (arith, bit_and-zero (q * 1 + r))
and_ones_fields (suc k) q r h = ground (
  arith,
  and_lowest (q * 2 ^ suc k + r) (2 * ones k + 1),
  mul-two_pow q k,
  pow-suc 2 k,
  and_ones_fields k q (r / 2),
)

-- A mask of low ones is a remainder.
pub bit_and-ones : (k a : ℕ) → bit_and a (ones k) ≡ a % 2 ^ k
bit_and-ones k a = ground (arith, one-le-pow k 2, and_ones_fields k (a / 2 ^ k) (a % 2 ^ k))

and_high_fields :
    (k q r m : ℕ) → r < 2 ^ k → bit_and (q * 2 ^ k + r) (m * 2 ^ k) ≡ bit_and q m * 2 ^ k
and_high_fields zero q r m h =
    let e : r ≡ 0 = omega arith in
    let e1 : q * 2 ^ zero + r ≡ q = omega arith in
    let e2 : m * 2 ^ zero ≡ m = omega arith in rw (e1, e2) (omega arith)
and_high_fields (suc k) q r m h = ground (
  arith,
  and_lowest (q * 2 ^ suc k + r) (m * 2 ^ suc k),
  mul-two_pow q k,
  mul-two_pow m k,
  mul-two_pow (bit_and q m) k,
  pow-suc 2 k,
  and_high_fields k q (r / 2) m,
)

-- A mask with zeros below and `j` ones from bit `k` up keeps the digits that it covers.
pub bit_and_band : (k j a : ℕ) → bit_and a (ones j * 2 ^ k) ≡ a / 2 ^ k % 2 ^ j * 2 ^ k
bit_and_band k j a = ground (
  arith,
  one-le-pow k 2,
  and_high_fields k (a / 2 ^ k) (a % 2 ^ k) (ones j),
  bit_and-ones j (a / 2 ^ k),
)
