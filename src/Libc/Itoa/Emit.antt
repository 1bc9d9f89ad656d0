-- ===== src/Libc/Itoa/Emit.antt =====
-- The digit loop writes the digits, lowest first, and ends within a round for each bit.
use Prim.Native.Nat.pow
use native.Mathlib.Decide.{ℕ_discrete}
use native.Mathlib.Nat.{pow-suc, div-add-mod}
use brownie_os.Base.{
  ℕ, zero, suc, ◌+◌, ◌-◌, ◌*◌, ◌/◌, ◌%◌, ◌^◌, ◌≤◌, ◌<◌, ◌≡◌, refl, ◌⊎◌, inl, inr, Bool, some, arith,
  ◌==◌, false, true, ◌≢◌, update_self, update_ne, update, Bool-cases, ap, ◌∙◌, sym, ==→eq, ==→ne,
}
use brownie_os.Libc.Itoa.{Buffer, digit_char, emit_digits}
use brownie_os.Libc.Itoa.Table.{digit_value, digit_value-digit_char}

div_small : (n b p : ℕ) → 2 ≤ b → n < 2 * p → n / b < p
div_small n b p hb hn = grind (arith, div-add-mod)

some_bits : (f k : ℕ) → k < 2 ^ f → k ≢ 0 → 0 < f
some_bits zero k small some_value = absurd (omega (arith, pow.zero 2))
some_bits (suc f) k small some_value = omega arith

module _ (base : ℕ) where
  -- The number that the `k` characters from offset `p` on stand for, lowest digit first.
  pub value_at : Buffer → (p k : ℕ) → ℕ
  value_at m p zero = 0
  value_at m p (suc k) = digit_value (m p) + base * value_at m (p + 1) k

  -- The number that they stand for, highest digit first, read on from `acc`.
  pub read_at : Buffer → (p k acc : ℕ) → ℕ
  read_at m p zero acc = acc
  read_at m p (suc k) acc = read_at m (p + 1) k (acc * base + digit_value (m p))

  pub value_at_last :
      (m : Buffer) (p k : ℕ)
      → value_at m p (suc k) ≡ value_at m p k + base ^ k * digit_value (m (p + k))
  unfolding value_at
  value_at_last m p zero = ground (arith, pow.zero base, ap (λ (j : ℕ). digit_value (m j)) here)
    where
      here : p + 0 ≡ p
      here = omega arith
  value_at_last m p (suc k) =
      let shift : digit_value (m (p + 1 + k)) ≡ digit_value (m (p + suc k)) =
        ap (λ j. digit_value (m j)) (omega arith) in
      ap (λ v. digit_value (m p) + base * v) (value_at_last m (p + 1) k)
      ∙ rw (shift, pow-suc base k) (omega arith)

  -- Characters in the opposite order read as the same number.
  pub read_at-reversed :
      (m m' : Buffer) (p i k acc : ℕ)
      → ((j : ℕ) → j < k → m' (i + j) ≡ m (p + (k - 1 - j)))
      → read_at m' i k acc ≡ acc * base ^ k + value_at m p k
  unfolding read_at
  read_at-reversed m m' p i zero acc opp =
      unfold value_at in omega (arith, pow.zero base, ap (λ (t : ℕ). acc * t) (pow.zero base))
  read_at-reversed m m' p i (suc k) acc opp =
      let first : digit_value (m' i) ≡ digit_value (m (p + k)) =
        ap (λ j. digit_value (m' j)) (omega arith)
        ∙ ap digit_value (opp 0 (omega arith))
        ∙ ap (λ j. digit_value (m j)) (omega arith) in
      read_at-reversed m m' p (i + 1) k (acc * base + digit_value (m' i))
        (λ j h. ap m' (omega arith) ∙ opp (j + 1) (omega arith) ∙ ap m (omega arith))
      ∙ rw (value_at_last m p k, first, pow-suc base k) (omega arith)

  -- What the loop leaves for a number `n` written from offset `p` on.
  pub record Emitted (width : ℕ) (negative : Bool) (n p : ℕ) (m m' : Buffer) (q : ℕ) : Type 0 where
    pub longer : p < q
    pub within : q ≤ p + width
    pub value : value_at m' p (q - p) ≡ n
    pub digits : (j : ℕ) → p ≤ j → j < q → digit_value (m' j) < base
    pub before : (j : ℕ) → j < p → m' j ≡ m j
    pub highest : (q ≡ p + 1) ⊎ (0 < digit_value (m' (q - 1)))

  pub emit_digits-Emitted :
      2 ≤ base
      → base ≤ 36
      → (f : ℕ) (negative : Bool) (n p : ℕ) (m : Buffer) → n < 2 ^ f
      → 0 < f
      → (m' : Buffer) × (q : ℕ) × (emit_digits f negative n base p m ≡ some (m', q))
        × Emitted f negative n p m m' q
  unfolding emit_digits value_at
  emit_digits-Emitted lo hi zero negative n p m small some_rounds = absurd (omega arith)
  emit_digits-Emitted lo hi (suc f) negative n p m small some_rounds =
      elim (Bool-cases (n / base == 0)) [
        | inl stop ↦ (m₁, p + 1, rw stop, one stop)
        | inr go ↦
            let (m', q, e, r) =
              emit_digits-Emitted lo hi f negative (n / base) (p + 1) m₁ less (positive go) in
            (m', q, rw go e, more m' q (==→ne _ _ go) r)
      ]
    where
      m₁ : Buffer
      m₁ = update m p (digit_char negative n base)

      digit : digit_value (m₁ p) ≡ n % base
      digit =
          ap digit_value (update_self m p (digit_char negative n base))
          ∙ digit_value-digit_char negative n base lo hi

      less : n / base < 2 ^ f
      less = div_small n base (2 ^ f) lo (omega (arith, pow-suc 2 f))

      positive : (n / base == 0) ≡ false → 0 < f
      positive go = some_bits f (n / base) less (==→ne _ _ go)

      one : (n / base == 0) ≡ true → Emitted (suc f) negative n p m m₁ (p + 1)
      one stop =
          let zero_rest : n / base ≡ 0 = ==→eq _ _ stop in
          record {
            longer = omega arith;
            within = omega arith;
            value =
                let k : p + 1 - p ≡ 1 = omega arith in
                rw k (omega (arith, digit, div-add-mod n base, ap (λ (t : ℕ). base * t) zero_rest));
            digits = λ j a b. let here : j ≡ p = omega arith in rw (here, digit) (omega arith);
            before = λ j h. update_ne m p j (digit_char negative n base) (omega arith);
            highest = inl refl;
          }

      top :
          (m' : Buffer) (q : ℕ)
          → n / base ≢ 0
          → q ≡ p + 1 + 1
          → Emitted f negative (n / base) (p + 1) m₁ m' q
          → 0 < digit_value (m' (q - 1))
      top m' q big two r =
          let k : q - (p + 1) ≡ 1 = omega arith in
          let at : q - 1 ≡ p + 1 = omega arith in
          let v : value_at m' (p + 1) 1 ≡ n / base =
            ap (λ t. value_at m' (p + 1) t) (sym k) ∙ r.value in
          rw at (omega (arith, v))

      more :
          (m' : Buffer) (q : ℕ)
          → n / base ≢ 0
          → Emitted f negative (n / base) (p + 1) m₁ m' q
          → Emitted (suc f) negative n p m m' q
      more m' q big r =
          let first : digit_value (m' p) ≡ n % base =
            ap digit_value (r.before p (omega arith)) ∙ digit in
          record {
            longer = omega (arith, r.longer);
            within = omega (arith, r.within);
            value =
                let k : q - p ≡ suc (q - (p + 1)) = omega (arith, r.longer) in
                rw k (omega (arith, first, div-add-mod n base, ap (λ (t : ℕ). base * t) r.value));
            digits = λ j a b. elim (ℕ_discrete j p) [
              | yes here ↦ rw (here, first) (omega arith)
              | no later ↦ r.digits j (omega arith) b
            ];
            before = λ j h.
                r.before j (omega arith)
                ∙ update_ne m p j (digit_char negative n base) (omega arith);
            highest = elim r.highest [ inl two ↦ inr (top m' q big two r) | inr high ↦ inr high ];
          }
