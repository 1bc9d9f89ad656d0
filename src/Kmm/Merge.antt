-- ===== src/Kmm/Merge.antt =====
-- Merging block `i` with the block behind it keeps the layout.
use brownie_os.Base.{ℕ, ◌+◌, ◌-◌, ◌<◌, ◌≡◌, ◌≢◌, arith, ◌∙◌, ap, sym}
use native.Mathlib.Decide.{dec_lt, ℕ_discrete}
use brownie_os.OrderedArray.Remove.{Removed}
use brownie_os.Kmm.{Header, Footer}
use brownie_os.Kmm.Layout.{IsBlock, Layout, header-injective, footer-injective}

module _ {start end n : ℕ} {H F : ℕ → ℕ} {hdr : ℕ → Header} {ftr : ℕ → Footer}
    (lay : Layout start end n H F hdr ftr) (i : ℕ) (inside : i + 1 < n) where
  -- The memory after the merge, at the cells that matter.
  pub record MergeMemory (hdr' : ℕ → Header) (ftr' : ℕ → Footer) : Type 0 where
    pub whole_size : (hdr' (H i)).size ≡ (hdr (H i)).size + (hdr (H (i + 1))).size + 32
    pub whole_footer : (hdr' (H i)).footer ≡ F (i + 1)
    pub whole_magic : (hdr' (H i)).magic ≡ (hdr (H i)).magic
    pub whole_end : ftr' (F (i + 1)) ≡ record (ftr (F (i + 1))) { header = H i }
    pub other_headers : (a : ℕ) → a ≢ H i → a ≢ H (i + 1) → hdr' a ≡ hdr a
    pub other_footers : (a : ℕ) → a ≢ F i → a ≢ F (i + 1) → ftr' a ≡ ftr a

  module _ {H' F' : ℕ → ℕ} {hdr' : ℕ → Header} {ftr' : ℕ → Footer} (remH : Removed H n (i + 1) H')
      (remF : Removed F n i F') (mem : MergeMemory hdr' ftr') where
    kept :
        (j k : ℕ)
        → H' j ≡ H k
        → F' j ≡ F k
        → k < n
        → k ≢ i
        → k ≢ i + 1
        → IsBlock (hdr' (H' j)) (ftr' (F' j)) (H' j) (F' j)
    kept j k eh ef hk ne₁ ne₂ =
        let ni : i < n = omega arith in
        rw
          (
            eh,
            ef,
            mem.other_headers (H k) (λ e. ne₁ (header-injective lay k i hk ni e))
                (λ e. ne₂ (header-injective lay k (i + 1) hk inside e)),
            mem.other_footers (F k) (λ e. ne₁ (footer-injective lay k i hk ni e))
                (λ e. ne₂ (footer-injective lay k (i + 1) hk inside e)),
          )
          (lay.block k hk)

    whole : IsBlock (hdr' (H i)) (ftr' (F (i + 1))) (H i) (F (i + 1))
    whole =
        let b = lay.block i (omega arith) in
        let c = lay.block (i + 1) inside in
        record {
          footer = mem.whole_footer;
          header = ap (λ (f : Footer). f.header) mem.whole_end;
          header_magic = mem.whole_magic ∙ b.header_magic;
          footer_magic = ap (λ (f : Footer). f.magic) mem.whole_end ∙ c.footer_magic;
          extent = omega (arith, mem.whole_size, lay.chain i inside, b.extent, c.extent);
          aligned = omega (arith, mem.whole_size, b.aligned, c.aligned);
        }

    merge_blocks : (j : ℕ) → j < n - 1 → IsBlock (hdr' (H' j)) (ftr' (F' j)) (H' j) (F' j)
    merge_blocks j hj = elim (dec_lt j i) [
      | yes before ↦
          kept j j (remH.below j (omega arith)) (remF.below j before) (omega arith) (omega arith)
            (omega arith)
      | no from ↦ elim (ℕ_discrete j i) [
        | yes here ↦ rw (here, remH.below i (omega arith), remF.moved i (omega arith) inside) whole
        | no past ↦
            kept j (j + 1) (remH.moved j (omega arith) (omega arith))
              (remF.moved j (omega arith) (omega arith)) (omega arith) (omega arith) (omega arith)
      ]
    ]

    merge_chain : (j : ℕ) → j + 1 < n - 1 → H' (j + 1) ≡ F' j + 16
    merge_chain j hj = elim (dec_lt j i) [
      | yes before ↦
          remH.below (j + 1) (omega arith)
          ∙ lay.chain j (omega arith)
          ∙ ap (λ a. a + 16) (sym (remF.below j before))
      | no from ↦
          remH.moved (j + 1) (omega arith) (omega arith)
          ∙ lay.chain (j + 1) (omega arith)
          ∙ ap (λ a. a + 16) (sym (remF.moved j (omega arith) (omega arith)))
    ]

    merge_last : F' (n - 1 - 1) + 16 ≡ end
    merge_last =
        let e : n - 1 - 1 + 1 ≡ n - 1 = omega arith in
        ap (λ a. a + 16) (remF.moved (n - 1 - 1) (omega arith) (omega arith) ∙ ap F e) ∙ lay.last

    pub Layout-merge : Layout start end (n - 1) H' F' hdr' ftr'
    Layout-merge = record {
      some_blocks = omega arith;
      first = remH.below 0 (omega arith) ∙ lay.first;
      last = merge_last;
      block = merge_blocks;
      chain = merge_chain;
      start_aligned = lay.start_aligned;
      top = lay.top;
    }
