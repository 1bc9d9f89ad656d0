-- ===== src/Libc/Itoa/Unsigned.antt =====
-- The unsigned conversions write the numeral of their argument.
use brownie_os.Base.{
  ℕ, ◌+◌, ◌-◌, ◌^◌, ◌≤◌, ◌<◌, ◌≡◌, ◌⊎◌, inl, inr, Bool, some, false, arith, update, ap, ◌∙◌,
  update_self, update_ne, le→ltb,
}
use brownie_os.Libc.Itoa.{Buffer, finish, unsigned_to_ascii, utoa, ultoa, ulltoa}
use brownie_os.Libc.Itoa.Table.{digit_value}
use brownie_os.Libc.Itoa.Emit.{value_at, read_at, read_at-reversed, Emitted, emit_digits-Emitted}
use brownie_os.Libc.Itoa.Swap.{Reversed, swap_ends-Reversed}

-- The first `k` characters of the buffer are digits of the base and read, highest first, as `n`;
-- they are at most `width`, and there is no leading zero but in the numeral 0.
pub record IsNumeral (base width n k : ℕ) (m : Buffer) : Type 0 where
  pub some_digits : 0 < k
  pub within : k ≤ width
  pub digits : (j : ℕ) → j < k → digit_value (m j) < base
  pub value : read_at base m 0 k 0 ≡ n
  pub no_leading_zero : (k ≡ 1) ⊎ (0 < digit_value (m 0))

-- The first `size` characters of the buffer and a NUL behind them: what `strlen` measures.
abbrev pub EndsAt : Buffer → ℕ → Type 0
EndsAt m k = m k ≡ 0

-- Digits written from offset `p` on, then reversed with the `p` characters before them.
pub finish-IsNumeral :
    (base width n p q k : ℕ) (negative : Bool) (m m₁ : Buffer)
    → p + k ≡ q
    → Emitted base width negative n p m m₁ q
    → let m' = finish (m₁, q) in
      IsNumeral base width n k m' × EndsAt m' q × ((i j : ℕ) → j < p → i + j + 1 ≡ q → m' i ≡ m j)
finish-IsNumeral base width n p q k negative m m₁ whole r = (
  record {
    some_digits = omega (arith, r.longer);
    within = omega (arith, r.within);
    digits = λ j h.
        rw (at j (omega arith)) (r.digits (q - 1 - j) (omega arith) (omega (arith, r.longer)));
    value =
        read_at-reversed base m₁ m' p 0 k 0 (λ j h. at (0 + j) (omega arith) ∙ ap m₁ (omega arith))
        ∙ omega (arith, r.value, ap (value_at base m₁ p) span);
    no_leading_zero = elim r.highest [
      | inl one ↦ inl (omega arith)
      | inr high ↦ inr (
          omega (
            arith,
            high,
            ap digit_value (at 0 (omega (arith, r.longer))),
            ap (λ (j : ℕ). digit_value (m₁ j)) zero_back,
          ))
    ];
  },
  rev.above q (omega (arith, r.longer)) ∙ update_self m₁ q 0,
  λ i j h e. at i (omega arith) ∙ ap m₁ (omega arith) ∙ r.before j h,
)
  where
    m' : Buffer
    m' = finish (m₁, q)

    span : q - p ≡ k
    span = omega arith

    zero_back : q - 1 - 0 ≡ q - 1
    zero_back = omega arith

    rev : Reversed 0 (q - 1) (update m₁ q 0) m'
    rev = swap_ends-Reversed q 0 (q - 1) (update m₁ q 0) (omega arith)

    at : (j : ℕ) → j < q → m' j ≡ m₁ (q - 1 - j)
    at j h =
        rev.inside j (omega arith) (omega arith)
        ∙ ap (update m₁ q 0) (omega arith)
        ∙ update_ne m₁ q (q - 1 - j) 0 (omega arith)

unsigned_to_ascii-IsNumeral :
    (width i base : ℕ) (m : Buffer)
    → 0 < width
    → i < 2 ^ width
    → 2 ≤ base
    → base ≤ 36
    → (m' : Buffer) × (k : ℕ) × (unsigned_to_ascii width i base m ≡ some m')
      × IsNumeral base width i k m'
      × EndsAt m' k
unfolding unsigned_to_ascii
unsigned_to_ascii-IsNumeral width i base m some_bits small lo hi =
    let (m₁, q, e, r) = emit_digits-Emitted base lo hi width false i 0 m small some_bits in
    let (num, nul, _) = finish-IsNumeral base width i 0 q q false m m₁ (omega arith) r in
    (finish (m₁, q), q, rw (le→ltb base 2 lo, le→ltb 36 base hi, e), num, nul)

-- `utoa` and `ultoa` of a 32-bit value, and `ulltoa` of a 64-bit one, in a base from 2 to 36: the
-- digit loop ends, and the text in the buffer is the value's numeral in that base, of at most 32 or
-- 64 digits, with a NUL behind it; so it fits the buffers of 33 and 65 bytes that vprintf has.
pub utoa-IsNumeral :
    (i base : ℕ) (m : Buffer)
    → 2 ≤ base
    → base ≤ 36
    → (i < 2 ^ 32
        → (m' : Buffer) × (k : ℕ) × (utoa i base m ≡ some m')
          × (ultoa i base m ≡ some m')
          × IsNumeral base 32 i k m'
          × EndsAt m' k)
      × (i < 2 ^ 64
          → (m' : Buffer) × (k : ℕ) × (ulltoa i base m ≡ some m')
            × IsNumeral base 64 i k m'
            × EndsAt m' k)
unfolding utoa ultoa ulltoa
utoa-IsNumeral i base m lo hi = (
  λ small.
      let (m', k, e, num, nul) =
        unsigned_to_ascii-IsNumeral 32 i base m (omega arith) small lo hi in
      (m', k, e, e, num, nul),
  λ small. unsigned_to_ascii-IsNumeral 64 i base m (omega arith) small lo hi,
)
