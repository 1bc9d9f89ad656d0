-- ===== src/Libc/Itoa/Table.antt =====
-- The digit characters: the table read at both signs, and the value of a digit.
use brownie_os.Base.{
  ℕ, ◌+◌, ◌-◌, ◌%◌, ◌≤◌, ◌≡◌, refl, Bool, true, false, ◌&&◌, arith, ltb, leb, ◌==◌, if◌then◌else◌,
  holds_below, check_below, ==→eq,
}
use brownie_os.Libc.Itoa.{chars, digit_char}

-- The value of `0`-`9` and `a`-`z` as a digit; anything else has the value 36.
unfoldable pub digit_value : ℕ → ℕ
digit_value c =
    if leb b'0' c && leb c b'9'
    then c - b'0'
    else if leb b'a' c && leb c b'z'
    then c - b'a' + 10
    else 36

right_half : holds_below 36 (λ d. digit_value (chars (35 + d)) == d) ≡ true
unfolding holds_below digit_value chars
right_half = refl

left_half : holds_below 36 (λ d. digit_value (chars (35 - d)) == d) ≡ true
unfolding holds_below digit_value chars
left_half = refl

not_nul : holds_below 71 (λ d. ltb 0 (chars d)) ≡ true
unfolding holds_below chars
not_nul = refl

pub digit_value-digit_char :
    (negative : Bool) (n base : ℕ)
    → 2 ≤ base
    → base ≤ 36
    → digit_value (digit_char negative n base) ≡ n % base
digit_value-digit_char true n base lo hi =
    ==→eq _ _ (check_below 36 _ (n % base) left_half (omega arith))
digit_value-digit_char false n base lo hi =
    ==→eq _ _ (check_below 36 _ (n % base) right_half (omega arith))
