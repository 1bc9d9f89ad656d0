-- ===== src/Libc/Itoa/Signed.antt =====
-- The signed conversions: what they write for a negative number.
use brownie_os.Base.{
  ℕ, suc, ◌+◌, ◌-◌, ◌^◌, ◌≤◌, ◌<◌, ◌≡◌, refl, ◌&&◌, some, true, false, arith, update, ap, ◌∙◌, ◌==◌,
  update_self, le→ltb,
}
use brownie_os.Libc.Itoa.{
  ℤ, pos, negsuc, Buffer, magnitude, is_negative, finish, signed_to_ascii, itoa, ltoa, lltoa,
}
use brownie_os.Libc.Itoa.Emit.{emit_digits-Emitted}
use brownie_os.Libc.Itoa.Unsigned.{IsNumeral, EndsAt, finish-IsNumeral}

plain :
    (width : ℕ) (i : ℤ) (base : ℕ) (m : Buffer)
    → 0 < width
    → magnitude i < 2 ^ width
    → 2 ≤ base
    → base ≤ 36
    → (is_negative i && base == 10) ≡ false
    → (m' : Buffer) × (k : ℕ) × (signed_to_ascii width i base m ≡ some m')
      × IsNumeral base width (magnitude i) k m'
      × EndsAt m' k
unfolding signed_to_ascii
plain width i base m some_bits small lo hi no_sign =
    let (m₁, q, e, r) =
      emit_digits-Emitted base lo hi width (is_negative i) (magnitude i) 0 m small some_bits in
    let (num, nul, _) =
      finish-IsNumeral base width (magnitude i) 0 q q (is_negative i) m m₁ (omega arith) r in
    (finish (m₁, q), q, rw (le→ltb base 2 lo, le→ltb 36 base hi, no_sign, e), num, nul)

-- `itoa`, `ltoa` and `lltoa` of a number that is not negative write its numeral.
pub itoa_pos :
    (n base : ℕ) (m : Buffer)
    → 2 ≤ base
    → base ≤ 36
    → (n < 2 ^ 31
        → (m' : Buffer) × (k : ℕ) × (itoa (pos n) base m ≡ some m')
          × (ltoa (pos n) base m ≡ some m')
          × IsNumeral base 32 n k m'
          × EndsAt m' k)
      × (n < 2 ^ 63
          → (m' : Buffer) × (k : ℕ) × (lltoa (pos n) base m ≡ some m')
            × IsNumeral base 64 n k m'
            × EndsAt m' k)
unfolding itoa ltoa lltoa
itoa_pos n base m lo hi = (
  λ small.
      let (m', k, e, num, nul) = plain 32 (pos n) base m (omega arith) (omega arith) lo hi refl in
      (m', k, e, e, num, nul),
  λ small. plain 64 (pos n) base m (omega arith) (omega arith) lo hi refl,
)

signed_negative :
    (width n : ℕ) (m : Buffer)
    → 0 < width
    → suc n < 2 ^ width
    → (m' : Buffer) × (k : ℕ) × (signed_to_ascii width (negsuc n) 10 m ≡ some m')
      × IsNumeral 10 width (suc n) k m'
      × (m' k ≡ b'-')
      × EndsAt m' (k + 1)
unfolding signed_to_ascii
signed_negative width n m some_bits small =
    let m₀ = update m 0 b'-' in
    let (m₁, q, e, r) =
      emit_digits-Emitted 10 (omega arith) (omega arith) width true (suc n) 1 m₀ small some_bits in
    let (num, nul, front) =
      finish-IsNumeral 10 width (suc n) 1 q (q - 1) true m₀ m₁ (omega (arith, r.longer)) r in
    let m' = finish (m₁, q) in
    (
      m',
      q - 1,
      rw e,
      num,
      front (q - 1) 0 (omega arith) (omega (arith, r.longer)) ∙ update_self m 0 b'-',
      ap m' (omega (arith, r.longer)) ∙ nul,
    )

-- For every negative `int`, `long` and `long long` in base 10 the minus sign comes out behind the
-- digits, since the swaps take it for a digit: the text is the numeral of the absolute value and
-- then the sign.
pub itoa_negative :
    (n : ℕ) (m : Buffer)
    → (n < 2 ^ 31
        → (m' : Buffer) × (k : ℕ) × (itoa (negsuc n) 10 m ≡ some m')
          × (ltoa (negsuc n) 10 m ≡ some m')
          × IsNumeral 10 32 (suc n) k m'
          × (m' k ≡ b'-')
          × EndsAt m' (k + 1))
      × (n < 2 ^ 63
          → (m' : Buffer) × (k : ℕ) × (lltoa (negsuc n) 10 m ≡ some m')
            × IsNumeral 10 64 (suc n) k m'
            × (m' k ≡ b'-')
            × EndsAt m' (k + 1))
unfolding itoa ltoa lltoa
itoa_negative n m = (
  λ small.
      let (m', k, e, num, sign, nul) = signed_negative 32 n m (omega arith) (omega arith) in
      (m', k, e, e, num, sign, nul),
  λ small. signed_negative 64 n m (omega arith) (omega arith),
)
