-- ===== src/Kmm/Merged.antt =====
-- Merging a block with its neighbours, as a relation between heaps.
use brownie_os.Base.{ℕ, ◌+◌, ◌-◌, ◌≤◌, ◌<◌, ◌≡◌, refl, ◌≢◌, arith, ◌∙◌, ap, sym, update}
use native.Mathlib.Decide.{dec_lt}
use brownie_os.Kmm.{Header, Kmm}
use brownie_os.Kmm.Layout.{IsBlock, header-lt, footer-lt, header-injective}
use brownie_os.Kmm.State.{blocks, header_at, footer_at, block_used, IsHeap, IsHeap-blocks}
use brownie_os.Kmm.Coalesce.{Coalesced}

-- Block `k` of `s'` covers block `i` of `s`. Every other block of `s` in use is in `s'` with its
-- header as it was, and is not block `k`. Every other block of `s'` is one of `s`, with its header
-- as it was.
pub record Merged (s : Kmm) (i : ℕ) (s' : Kmm) (k : ℕ) : Type 0 where
  pub is_heap : IsHeap s'
  pub listed : k < blocks s'
  pub from : header_at s' k ≤ header_at s i
  pub to : footer_at s i ≤ footer_at s' k
  pub others :
      (j : ℕ)
      → j < blocks s
      → j ≢ i
      → block_used s j ≢ 0
      → (s'.hdr (header_at s j) ≡ s.hdr (header_at s j))
        × ((l : ℕ) × (l < blocks s') × (l ≢ k) × (header_at s' l ≡ header_at s j))
  pub only :
      (l : ℕ)
      → l < blocks s'
      → l ≢ k
      → (j : ℕ) × (j < blocks s)
        × (j ≢ i)
        × (header_at s' l ≡ header_at s j)
        × (s'.hdr (header_at s j) ≡ s.hdr (header_at s j))
  pub same_bounds : (s'.heap.start ≡ s.heap.start) × (s'.heap.end ≡ s.heap.end)

pub Merged-self : {s : Kmm} (i : ℕ) → IsHeap s → i < blocks s → Merged s i s i
Merged-self i v inside = record {
  is_heap = v;
  listed = inside;
  from = omega arith;
  to = omega arith;
  others = λ j hj ne used. (refl, (j, hj, ne, refl));
  only = λ l hl ne. (l, hl, ne, refl, refl);
  same_bounds = (refl, refl);
}

-- Coalescing merges a block with a free one behind it.
pub Merged-right :
    {s s' : Kmm} (i : ℕ)
    → IsHeap s
    → i + 1 < blocks s
    → block_used s (i + 1) ≡ 0
    → Coalesced s i s'
    → Merged s i s' i
Merged-right {s} {s'} i v inside unused c = record {
  is_heap = c.is_heap;
  listed = omega (arith, c.count);
  from = omega (arith, c.headers.below i (omega arith));
  to = omega (
    arith,
    c.footers.moved i (omega arith) inside,
    footer-lt v.layout i (i + 1) (omega arith) inside,
  );
  others = λ j hj ne used.
      let past : j ≢ i + 1 = λ e. used (rw e unused) in
      (
        c.others (header_at s j) (λ e. ne (header-injective v.layout j i hj (omega arith) e))
            (λ e. past (header-injective v.layout j (i + 1) hj inside e)),
        elim (dec_lt j i) [
          | yes before ↦ (j, omega (arith, c.count), omega arith, c.headers.below j (omega arith))
          | no behind ↦
              let e : j ≡ j - 1 + 1 = omega arith in
              (
                j - 1,
                omega (arith, c.count),
                omega arith,
                c.headers.moved (j - 1) (omega arith) (omega arith) ∙ ap (header_at s) (sym e),
              )
        ],
      );
  only = λ l hl ne. elim (dec_lt l i) [
    | yes before ↦ (
      l,
      omega (arith, c.count),
      omega arith,
      c.headers.below l (omega arith),
      c.others (header_at s l)
          (λ e. ne (header-injective v.layout l i (omega (arith, c.count)) (omega arith) e))
          (λ e.
            absurd (
              omega
                (arith, header-injective v.layout l (i + 1) (omega (arith, c.count)) inside e))),
    )
    | no behind ↦
        let hl' : l + 1 < blocks s = omega (arith, c.count) in
        (
          l + 1,
          hl',
          omega arith,
          c.headers.moved l (omega arith) (omega (arith, c.count)),
          c.others (header_at s (l + 1))
              (λ e. absurd (omega (arith, header-injective v.layout (l + 1) i hl' (omega arith) e)))
              (λ e. absurd (omega (arith, header-injective v.layout (l + 1) (i + 1) hl' inside e))),
        )
  ];
  same_bounds = c.same_bounds;
}

-- And a block with a free one before it.
pub Merged-left :
    {s s' : Kmm} (i : ℕ)
    → IsHeap s
    → i + 1 < blocks s
    → block_used s i ≡ 0
    → Coalesced s i s'
    → Merged s (i + 1) s' i
Merged-left {s} {s'} i v inside unused c = record {
  is_heap = c.is_heap;
  listed = omega (arith, c.count);
  from =
      omega
        (arith, c.headers.below i (omega arith), header-lt v.layout i (i + 1) (omega arith) inside);
  to = omega (arith, c.footers.moved i (omega arith) inside);
  others = λ j hj ne used.
      let past : j ≢ i = λ e. used (rw e unused) in
      (
        c.others (header_at s j) (λ e. past (header-injective v.layout j i hj (omega arith) e))
            (λ e. ne (header-injective v.layout j (i + 1) hj inside e)),
        elim (dec_lt j i) [
          | yes before ↦ (j, omega (arith, c.count), omega arith, c.headers.below j (omega arith))
          | no behind ↦
              let e : j ≡ j - 1 + 1 = omega arith in
              (
                j - 1,
                omega (arith, c.count),
                omega arith,
                c.headers.moved (j - 1) (omega arith) (omega arith) ∙ ap (header_at s) (sym e),
              )
        ],
      );
  only = λ l hl ne. elim (dec_lt l i) [
    | yes before ↦ (
      l,
      omega (arith, c.count),
      omega arith,
      c.headers.below l (omega arith),
      c.others (header_at s l)
          (λ e. ne (header-injective v.layout l i (omega (arith, c.count)) (omega arith) e))
          (λ e.
            absurd (
              omega
                (arith, header-injective v.layout l (i + 1) (omega (arith, c.count)) inside e))),
    )
    | no behind ↦
        let hl' : l + 1 < blocks s = omega (arith, c.count) in
        (
          l + 1,
          hl',
          omega arith,
          c.headers.moved l (omega arith) (omega (arith, c.count)),
          c.others (header_at s (l + 1))
              (λ e. absurd (omega (arith, header-injective v.layout (l + 1) i hl' (omega arith) e)))
              (λ e. absurd (omega (arith, header-injective v.layout (l + 1) (i + 1) hl' inside e))),
        )
  ];
  same_bounds = c.same_bounds;
}

pub Merged-trans : {s t u : Kmm} {i k l : ℕ} → Merged s i t k → Merged t k u l → Merged s i u l
Merged-trans {s} {t} {u} a b = record {
  is_heap = b.is_heap;
  listed = b.listed;
  from = omega (arith, a.from, b.from);
  to = omega (arith, a.to, b.to);
  others = λ j hj ne used.
      let (same, (m, hm, nm, em)) = a.others j hj ne used in
      let still : block_used t m ≢ 0 =
        λ z. used (ap (λ (h : Header). h.used) (sym same ∙ ap t.hdr (sym em)) ∙ z) in
      let (same', (n, hn, nn, en)) = b.others m hm nm still in
      (ap u.hdr (sym em) ∙ same' ∙ ap t.hdr em ∙ same, (n, hn, nn, en ∙ em));
  only = λ l hl ne.
      let (m, hm, nm, em, same') = b.only l hl ne in
      let (j, hj, nj, ej, same) = a.only m hm nm in
      (j, hj, nj, em ∙ ej, ap u.hdr (sym ej) ∙ same' ∙ ap t.hdr ej ∙ same);
  same_bounds = (b.same_bounds.0 ∙ a.same_bounds.0, b.same_bounds.1 ∙ a.same_bounds.1);
}

-- The last line of `unify`: the merged block is marked free.
pub Merged-mark :
    {s t : Kmm} {i k : ℕ}
    → Merged s i t k
    → Merged s i
        (record t {
          hdr = update t.hdr (header_at t k) (record (t.hdr (header_at t k)) { used = 0 });
        })
        k
Merged-mark {s} {t} {i} {k} a = Merged-trans a (record {
  is_heap = IsHeap-blocks _ t.ftr a.is_heap block;
  listed = a.listed;
  from = omega arith;
  to = omega arith;
  others = λ j hj ne used.
      (ground (arith, header-injective a.is_heap.layout j k hj a.listed), (j, hj, ne, refl));
  only = λ l hl ne.
      (l, hl, ne, refl, ground (arith, header-injective a.is_heap.layout l k hl a.listed));
  same_bounds = (refl, refl);
})
  where
    block :
        (j : ℕ)
        → j < blocks t
        → IsBlock
            (update t.hdr
              (header_at t k)
              (record (t.hdr (header_at t k)) { used = 0 })
              (header_at t j))
            (t.ftr (footer_at t j))
            (header_at t j)
            (footer_at t j)
    block j hj =
        let b = a.is_heap.layout.block j hj in
        record {
          footer = ground (arith, b.footer);
          header = b.header;
          header_magic = ground (arith, b.header_magic);
          footer_magic = b.footer_magic;
          extent = ground (arith, b.extent);
          aligned = ground (arith, b.aligned);
        }
