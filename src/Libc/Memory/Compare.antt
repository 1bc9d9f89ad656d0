-- ===== src/Libc/Memory/Compare.antt =====
-- memcmp, strncmp and strcmp against the first place where two objects differ.
use native.Mathlib.Decide.{dec_lt, ℕ_discrete}
use brownie_os.Base.{
  ℕ, zero, suc, ◌+◌, ◌-◌, ap, subst, ◌∙◌, ◌≤◌, ◌<◌, ◌≡◌, refl, ◌≢◌, ◌⊎◌, inl, inr, arith, some,
  lt→ltb, le→ltb, eq→==, ne→==,
}
use brownie_os.Libc.Memory.{Memory, Sign, compare_up, memcmp, strncmp, compare_strings, strcmp}

module _ (a b : ℕ) (m : Memory) where
  -- The objects agree from `i` up to `d`, where the byte of `a` is the smaller, or the larger.
  pub Less : (i n : ℕ) → Type 0
  Less i n =
      (d : ℕ) × (i ≤ d)
      × (d < i + n)
      × (m (a + d) < m (b + d))
      × ((j : ℕ) → i ≤ j → j < d → m (a + j) ≡ m (b + j))

  pub Greater : (i n : ℕ) → Type 0
  Greater i n =
      (d : ℕ) × (i ≤ d)
      × (d < i + n)
      × (m (b + d) < m (a + d))
      × ((j : ℕ) → i ≤ j → j < d → m (a + j) ≡ m (b + j))

  pub Same : (i n : ℕ) → Type 0
  Same i n = (j : ℕ) → i ≤ j → j < i + n → m (a + j) ≡ m (b + j)

  -- What a comparison of the bytes from `i` on, `n` of them, says with its result.
  unfoldable pub Compared : (i n : ℕ) → Sign → Type 0
  unfolding Less Greater Same
  Compared i n r =
      ((r ≡ Sign.minus) × Less i n)
      ⊎ (((r ≡ Sign.plus) × Greater i n) ⊎ ((r ≡ Sign.zero_sign) × Same i n))

  later : (i n : ℕ) (r : Sign) → m (a + i) ≡ m (b + i) → Compared (i + 1) n r → Compared i (suc n) r
  unfolding Compared Less Greater Same
  later i n r e c = elim c [
    | inl (re, (d, lo, hi, lt, eqs)) ↦
        inl (re, (d, omega arith, omega arith, lt, λ j h k. before d eqs j h k))
    | inr (inl (re, (d, lo, hi, gt, eqs))) ↦
        inr (inl (re, (d, omega arith, omega arith, gt, λ j h k. before d eqs j h k)))
    | inr (inr (re, eqs)) ↦
        inr (inr (re, λ j h k. before (i + suc n) (λ j h k. eqs j h (omega arith)) j h k))
  ]
    where
      before :
          (d : ℕ)
          → ((j : ℕ) → i + 1 ≤ j → j < d → m (a + j) ≡ m (b + j))
          → (j : ℕ) → i ≤ j
          → j < d
          → m (a + j) ≡ m (b + j)
      before d eqs j h k = elim (ℕ_discrete j i) [
        | yes here ↦ rw here e
        | no past ↦ eqs j (omega arith) k
      ]

  compare_up-Compared : (n i : ℕ) → Compared i n (compare_up n i a b m)
  unfolding compare_up Compared Less Greater Same
  compare_up-Compared zero i = inr (inr (refl, λ j h k. absurd (omega arith)))
  compare_up-Compared (suc n) i = elim (dec_lt (m (a + i)) (m (b + i))) [
    | yes lt ↦
        rw (lt→ltb (m (a + i)) (m (b + i)) lt)
          (inl (refl, (i, omega arith, omega arith, lt, λ j h k. absurd (omega arith))))
    | no ge ↦
        rw (le→ltb (m (a + i)) (m (b + i)) (omega arith)) (elim (dec_lt (m (b + i)) (m (a + i))) [
          | yes gt ↦
              rw (lt→ltb (m (b + i)) (m (a + i)) gt)
                (inr (inl (refl, (i, omega arith, omega arith, gt, λ j h k. absurd (omega arith)))))
          | no le ↦
              rw (le→ltb (m (b + i)) (m (a + i)) (omega arith)) (
                later i n (compare_up n (i + 1) a b m) (omega arith)
                  (compare_up-Compared n (i + 1)))
        ])
  ]

  -- `memcmp` and `strncmp` return -1 or 1 by the first byte in which the two objects differ, and 0
  -- where they do not; `strncmp` does so behind a NUL, too.
  pub memcmp-Compared :
      (size : ℕ) → Compared 0 size (memcmp a b size m) × Compared 0 size (strncmp a b size m)
  unfolding memcmp strncmp
  memcmp-Compared size = (compare_up-Compared size 0, compare_up-Compared size 0)

  compare_strings-Compared :
      (f n i : ℕ)
      → n < f
      → m (a + (i + n)) ≡ 0
      → ((j : ℕ) → i ≤ j → j < i + n → m (a + j) ≢ 0)
      → (r : Sign) × (compare_strings f i a b m ≡ some r) × Compared i (suc n) r
  unfolding compare_strings Compared Less Greater Same
  compare_strings-Compared zero n i enough nul chars = absurd (omega arith)
  compare_strings-Compared (suc f) n i enough nul chars = elim (dec_lt (m (a + i)) (m (b + i))) [
    | yes lt ↦ rw (lt→ltb (m (a + i)) (m (b + i)) lt) (
      Sign.minus,
      refl,
      inl (refl, (i, omega arith, omega arith, lt, λ j h k. absurd (omega arith))),
    )
    | no ge ↦
        rw (le→ltb (m (a + i)) (m (b + i)) (omega arith)) (elim (dec_lt (m (b + i)) (m (a + i))) [
          | yes gt ↦ rw (lt→ltb (m (b + i)) (m (a + i)) gt) (
            Sign.plus,
            refl,
            inr (inl (refl, (i, omega arith, omega arith, gt, λ j h k. absurd (omega arith)))),
          )
          | no le ↦ rw (le→ltb (m (b + i)) (m (a + i)) (omega arith)) (elim (ℕ_discrete n 0) [
            | yes last ↦
                let end : m (a + i) ≡ 0 = ap (λ k. m (a + k)) (omega arith) ∙ nul in
                rw (eq→== (m (a + i)) 0 end) (
                  Sign.zero_sign,
                  refl,
                  inr (inr (refl, λ j h k. let e : j ≡ i = omega arith in rw e (omega arith))),
                )
            | no more ↦
                let rest =
                  compare_strings-Compared f (n - 1) (i + 1) (omega arith)
                    (ap (λ k. m (a + k)) (omega arith) ∙ nul)
                    (λ j h k. chars j (omega arith) (omega arith)) in
                let span : suc (n - 1) ≡ n = omega arith in
                rw (ne→== (m (a + i)) 0 (chars i (omega arith) (omega arith))) (
                  rest.0,
                  rest.1,
                  later i n rest.0 (omega arith)
                      (subst (λ k. Compared (i + 1) k rest.0) span rest.2),
                )
          ])
        ])
  ]

  -- `strcmp`, where the first NUL of the first string is at `len`, ends within `len + 1` rounds, and
  -- returns the sign of the comparison of the `len + 1` bytes.
  pub strcmp-Compared :
      (len extra : ℕ)
      → m (a + len) ≡ 0
      → ((j : ℕ) → j < len → m (a + j) ≢ 0)
      → (r : Sign) × (strcmp (len + 1 + extra) a b m ≡ some r) × Compared 0 (len + 1) r
  unfolding strcmp
  strcmp-Compared len extra nul chars =
      let whole =
        compare_strings-Compared (len + 1 + extra) len 0 (omega arith)
          (ap (λ k. m (a + k)) (omega arith) ∙ nul) (λ j h k. chars j (omega arith)) in
      let span : suc len ≡ len + 1 = omega arith in
      (whole.0, whole.1, subst (λ k. Compared 0 k whole.0) span whole.2)
