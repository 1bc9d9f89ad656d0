-- ===== src/Kmm/Layout.antt =====
-- Blocks that tile the heap from its start to its end.
use brownie_os.Base.{ℕ, zero, suc, ◌+◌, ◌-◌, ◌%◌, ◌≤◌, ◌<◌, ◌≡◌, arith, u32, ap}
use native.Mathlib.Decide.{dec_lt}
use brownie_os.Kmm.{Header, Footer, kheap_magic_32, kheap_magic_64}

-- A header at `h` and a footer at `f` make a block.
pub record IsBlock (hd : Header) (ft : Footer) (h f : ℕ) : Type 0 where
  pub footer : hd.footer ≡ f
  pub header : ft.header ≡ h
  pub header_magic : hd.magic ≡ kheap_magic_32
  pub footer_magic : ft.magic ≡ kheap_magic_64
  pub extent : f ≡ h + 16 + hd.size
  pub aligned : hd.size % 16 ≡ 0

-- The `n` blocks with headers at `H i` and footers at `F i` follow one another from `start` to
-- `end`, a multiple of 16 bytes each.
pub record Layout (start end n : ℕ) (H F : ℕ → ℕ) (hdr : ℕ → Header) (ftr : ℕ → Footer)
    : Type 0 where
  pub some_blocks : 0 < n
  pub first : H 0 ≡ start
  pub last : F (n - 1) + 16 ≡ end
  pub block : (i : ℕ) → i < n → IsBlock (hdr (H i)) (ftr (F i)) (H i) (F i)
  pub chain : (i : ℕ) → i + 1 < n → H (i + 1) ≡ F i + 16
  pub start_aligned : start % 16 ≡ 0
  pub top : end < u32

module _ {start end n : ℕ} {H F : ℕ → ℕ} {hdr : ℕ → Header} {ftr : ℕ → Footer}
    (lay : Layout start end n H F hdr ftr) where
  -- The footer of a block lies below the header of every later one.
  pub footer-lt-header : (a b : ℕ) → a < b → b < n → F a + 16 ≤ H b
  footer-lt-header a zero lt inside = absurd (omega arith)
  footer-lt-header a (suc b) lt inside =
      let c : H (b + 1) ≡ F b + 16 = lay.chain b (omega arith) in
      let e : H (suc b) ≡ H (b + 1) = ap H (omega arith) in
      elim (dec_lt a b) [
        | yes before ↦
            omega
              (arith, footer-lt-header a b before (omega arith), (lay.block b (omega arith)).extent)
        | no here ↦ let e' : a ≡ b = omega arith in rw e' (omega arith)
      ]

  pub header-lt : (a b : ℕ) → a < b → b < n → H a + 32 ≤ H b
  header-lt a b lt inside =
      omega (arith, footer-lt-header a b lt inside, (lay.block a (omega arith)).extent)

  pub footer-lt : (a b : ℕ) → a < b → b < n → F a + 32 ≤ F b
  footer-lt a b lt inside =
      omega (arith, footer-lt-header a b lt inside, (lay.block b (omega arith)).extent)

  pub header-injective : (a b : ℕ) → a < n → b < n → H a ≡ H b → a ≡ b
  header-injective a b ha hb e = elim (dec_lt a b) [
    | yes lt ↦ absurd (omega (arith, header-lt a b lt hb))
    | no ge ↦ elim (dec_lt b a) [
      | yes gt ↦ absurd (omega (arith, header-lt b a gt ha))
      | no le ↦ omega arith
    ]
  ]

  pub footer-injective : (a b : ℕ) → a < n → b < n → F a ≡ F b → a ≡ b
  footer-injective a b ha hb e = elim (dec_lt a b) [
    | yes lt ↦ absurd (omega (arith, footer-lt a b lt hb))
    | no ge ↦ elim (dec_lt b a) [
      | yes gt ↦ absurd (omega (arith, footer-lt b a gt ha))
      | no le ↦ omega arith
    ]
  ]

  -- The last block ends at the end of the heap.
  pub footer-le-end : (i : ℕ) → i < n → F i + 16 ≤ end
  footer-le-end i inside = elim (dec_lt i (n - 1)) [
    | yes lt ↦ omega (arith, footer-lt i (n - 1) lt (omega arith), lay.last)
    | no here ↦ let e : i ≡ n - 1 = omega arith in rw e (omega (arith, lay.last))
  ]

  pub start-le-header : (i : ℕ) → i < n → start ≤ H i
  start-le-header i inside = elim (dec_lt 0 i) [
    | yes lt ↦ omega (arith, header-lt 0 i lt inside, lay.first)
    | no here ↦ let e : i ≡ 0 = omega arith in rw e (omega (arith, lay.first))
  ]

  -- Payload addresses are multiples of 16.
  pub header_aligned : (i : ℕ) → i < n → H i % 16 ≡ 0
  header_aligned zero inside = omega (arith, lay.first, lay.start_aligned)
  header_aligned (suc i) inside =
      let e : H (suc i) ≡ H (i + 1) = ap H (omega arith) in
      let b = lay.block i (omega arith) in
      omega (arith, lay.chain i (omega arith), header_aligned i (omega arith), b.extent, b.aligned)
