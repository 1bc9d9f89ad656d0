-- ===== src/Base/Words.antt =====
-- `uint32_t` as a number below 2 ^ 32, with its wrap-around written out.
use Prim.Native.Nat.{ℕ, ◌+◌, ◌-◌, ◌*◌, ◌/◌, ◌%◌}
use mathlib.Core.List.{List, ◌∷◌}

-- 2 ^ 32
abbrev pub u32 : ℕ
u32 = 4294967296

abbrev pub add32 : ℕ → ℕ → ℕ
add32 a b = (a + b) % u32

-- `-` on ℕ stops at 0, so the modulus is added first.
abbrev pub sub32 : ℕ → ℕ → ℕ
sub32 a b = (a + u32 - b) % u32

abbrev pub mul32 : ℕ → ℕ → ℕ
mul32 a b = (a * b) % u32

-- `x` in two and in four bytes in front of `rest`
abbrev pub bytes16 : ℕ → List ℕ → List ℕ
bytes16 x rest = x % 256 ∷ x / 256 % 256 ∷ rest

abbrev pub bytes32 : ℕ → List ℕ → List ℕ
bytes32 x rest = x % 256 ∷ x / 256 % 256 ∷ x / 65536 % 256 ∷ x / 16777216 % 256 ∷ rest
