-- ===== src/Kmm/Split.antt =====
-- Splitting block `i` keeps the layout.
use brownie_os.Base.{ℕ, ◌+◌, ◌-◌, ◌%◌, ◌≤◌, ◌<◌, ◌≡◌, refl, ◌≢◌, arith, ◌∙◌, ap, sym}
use native.Mathlib.Decide.{dec_lt, ℕ_discrete}
use brownie_os.OrderedArray.Insert.{Inserted}
use brownie_os.Kmm.{Header, Footer, kheap_magic_32, kheap_magic_64}
use brownie_os.Kmm.Layout.{IsBlock, Layout, footer-lt-header}

module _ {start end n : ℕ} {H F : ℕ → ℕ} {hdr : ℕ → Header} {ftr : ℕ → Footer}
    (lay : Layout start end n H F hdr ftr) (i size : ℕ) (inside : i < n) where
  abbrev new_footer : ℕ
  new_footer = H i + 16 + size

  abbrev new_header : ℕ
  new_header = H i + 32 + size

  -- The memory after the split.
  pub record SplitMemory (hdr' : ℕ → Header) (ftr' : ℕ → Footer) : Type 0 where
    pub left :
        hdr' (H i)
        ≡ record { size = size; footer = new_footer; used = 1; magic = (hdr (H i)).magic }
    pub right : hdr' new_header ≡ record {
      size = (hdr (H i)).size - (size + 32);
      footer = F i;
      used = 0;
      magic = kheap_magic_32;
    }
    pub left_end : ftr' new_footer ≡ record { header = H i; res = 0; magic = kheap_magic_64 }
    pub right_end : ftr' (F i) ≡ record (ftr (F i)) { header = new_header }
    pub other_headers : (a : ℕ) → a ≢ H i → a ≢ new_header → hdr' a ≡ hdr a
    pub other_footers : (a : ℕ) → a ≢ F i → a ≢ new_footer → ftr' a ≡ ftr a

  module _ (room : size + 32 ≤ (hdr (H i)).size) where
    -- The new header and footer stand inside block `i`, so at no other block's.
    pub apart :
        (k : ℕ)
        → k < n
        → k ≢ i
        → (H k ≢ H i) × (H k ≢ new_header) × (F k ≢ F i) × (F k ≢ new_footer)
    apart k hk ne =
        let b = lay.block i inside in
        let bk = lay.block k hk in
        elim (dec_lt k i) [
          | yes lt ↦ omega (arith, footer-lt-header lay k i lt inside, b.extent, bk.extent)
          | no ge ↦ omega (arith, footer-lt-header lay i k (omega arith) hk, b.extent, bk.extent)
        ]

    module _ {H' F' : ℕ → ℕ} {hdr' : ℕ → Header} {ftr' : ℕ → Footer} (aligned : size % 16 ≡ 0)
        (insH : Inserted H n new_header H' (i + 1)) (insF : Inserted F n new_footer F' i)
        (mem : SplitMemory hdr' ftr') where
      -- A block other than `i` is found again where it moved to.
      other :
          (j k : ℕ)
          → H' j ≡ H k
          → F' j ≡ F k
          → k < n
          → k ≢ i
          → IsBlock (hdr' (H' j)) (ftr' (F' j)) (H' j) (F' j)
      other j k eh ef hk ne =
          let (a, b, c, d) = apart k hk ne in
          rw (eh, ef, mem.other_headers (H k) a b, mem.other_footers (F k) c d) (lay.block k hk)

      left_block : IsBlock (hdr' (H i)) (ftr' new_footer) (H i) new_footer
      left_block =
          rw (mem.left, mem.left_end)
            (record {
              footer = refl;
              header = refl;
              header_magic = (lay.block i inside).header_magic;
              footer_magic = refl;
              extent = refl;
              aligned = aligned;
            })

      right_block : IsBlock (hdr' new_header) (ftr' (F i)) new_header (F i)
      right_block =
          let b = lay.block i inside in
          rw (mem.right, mem.right_end)
            (record {
              footer = refl;
              header = refl;
              header_magic = refl;
              footer_magic = b.footer_magic;
              extent = omega (arith, b.extent);
              aligned = omega (arith, b.aligned);
            })

      split_blocks : (j : ℕ) → j < n + 1 → IsBlock (hdr' (H' j)) (ftr' (F' j)) (H' j) (F' j)
      split_blocks j hj = elim (dec_lt j i) [
        | yes before ↦
            other j j (insH.below j (omega arith)) (insF.below j before) (omega arith) (omega arith)
        | no from ↦ elim (ℕ_discrete j i) [
          | yes here ↦ rw (here, insH.below i (omega arith), insF.at) left_block
          | no past ↦ elim (ℕ_discrete j (i + 1)) [
            | yes next ↦ rw (next, insH.at, insF.moved i (omega arith) inside) right_block
            | no after ↦
                let e : j ≡ j - 1 + 1 = omega arith in
                other j (j - 1) (ap H' e ∙ insH.moved (j - 1) (omega arith) (omega arith))
                  (ap F' e ∙ insF.moved (j - 1) (omega arith) (omega arith)) (omega arith)
                  (omega arith)
          ]
        ]
      ]

      split_chain : (j : ℕ) → j + 1 < n + 1 → H' (j + 1) ≡ F' j + 16
      split_chain j hj = elim (dec_lt j i) [
        | yes before ↦
            insH.below (j + 1) (omega arith)
            ∙ omega (arith, lay.chain j (omega arith), insF.below j before)
        | no from ↦ elim (ℕ_discrete j i) [
          | yes here ↦ rw (here, insH.at, insF.at) (omega arith)
          | no past ↦
              let e : j ≡ j - 1 + 1 = omega arith in
              insH.moved j (omega arith) (omega arith)
              ∙ ap H e
              ∙ lay.chain (j - 1) (omega arith)
              ∙ ap (λ a. a + 16) (sym (ap F' e ∙ insF.moved (j - 1) (omega arith) (omega arith)))
        ]
      ]

      split_last : F' (n + 1 - 1) + 16 ≡ end
      split_last =
          let e : n + 1 - 1 ≡ n - 1 + 1 = omega arith in
          rw e (ap (λ a. a + 16) (insF.moved (n - 1) (omega arith) (omega arith)) ∙ lay.last)

      pub Layout-split : Layout start end (n + 1) H' F' hdr' ftr'
      Layout-split = record {
        some_blocks = omega arith;
        first = insH.below 0 (omega arith) ∙ lay.first;
        last = split_last;
        block = split_blocks;
        chain = split_chain;
        start_aligned = lay.start_aligned;
        top = lay.top;
      }
