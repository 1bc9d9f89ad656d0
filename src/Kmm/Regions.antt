-- ===== src/Kmm/Regions.antt =====
-- The heap as its clients see it: a set of live regions that alloc adds to and free takes from.
use brownie_os.Base.{
  ℕ, ◌+◌, ◌%◌, ◌≤◌, ◌<◌, ◌≡◌, refl, ◌≢◌, ◌⊎◌, inl, inr, arith, ap, sym, subst, ◌∙◌,
}
use native.Mathlib.Decide.{dec_lt, ℕ_discrete}
use brownie_os.Kmm.{Header, Kmm, array_capacity, align_size, alloc, free}
use brownie_os.Kmm.Layout.{
  header-injective, header_aligned, footer-lt-header, footer-le-end, start-le-header,
}
use brownie_os.Kmm.State.{blocks, header_at, block_size, block_used, IsHeap}
use brownie_os.Kmm.Alloc.{Granted, Roomy, align_size_lem, alloc-Found}
use brownie_os.Kmm.Merged.{Merged}
use brownie_os.Kmm.Free.{free-Freed}

-- The region of `n` bytes at `p` is the payload of a block in use.
abbrev pub Live : Kmm → (p n : ℕ) → Type 0
Live s p n =
    (i : ℕ) × (i < blocks s)
    × (block_used s i ≢ 0)
    × (header_at s i + 16 ≡ p)
    × (block_size s i ≡ n)

-- Two live regions do not overlap, and each is aligned and within the heap.
pub Live-disjoint :
    {s : Kmm} {p n q m : ℕ} → IsHeap s → Live s p n → Live s q m → p ≢ q → (p + n ≤ q) ⊎ (q + m ≤ p)
Live-disjoint {s} v (i, hi, ui, pi, ni) (j, hj, uj, pj, nj) apart = elim (dec_lt i j) [
  | yes before ↦ inl (
      omega
        (arith, footer-lt-header v.layout i j before hj, (v.layout.block i hi).extent, pi, ni, pj))
  | no behind ↦ elim (ℕ_discrete i j) [
    | yes same ↦ absurd (apart (sym pi ∙ ap (λ x. header_at s x + 16) same ∙ pj))
    | no other ↦ inr (
        omega (
          arith,
          footer-lt-header v.layout j i (omega arith) hi,
          (v.layout.block j hj).extent,
          pi,
          pj,
          nj,
        ))
  ]
]

pub Live-inside :
    {s : Kmm} {p n : ℕ}
    → IsHeap s
    → Live s p n
    → (p % 16 ≡ 0) × (s.heap.start + 16 ≤ p) × (p + n + 16 ≤ s.heap.end)
Live-inside v (i, hi, ui, pi, ni) = (
  omega (arith, header_aligned v.layout i hi, pi),
  omega (arith, start-le-header v.layout i hi, pi),
  omega (arith, footer-le-end v.layout i hi, (v.layout.block i hi).extent, pi, ni),
)

-- The region at `p` is new in `s'`: it holds `size` bytes at least, is aligned and overlaps no live
-- region of `s`. The regions of `s` are live still, and there are no others.
pub record Serves (s : Kmm) (size : ℕ) (s' : Kmm) (p : ℕ) : Type 0 where
  pub is_heap : IsHeap s'
  pub length : ℕ
  pub enough : size ≤ length
  pub live : Live s' p length
  pub aligned : p % 16 ≡ 0
  pub fresh : (q m : ℕ) → Live s q m → (p + length ≤ q) ⊎ (q + m ≤ p)
  pub kept : (q m : ℕ) → Live s q m → Live s' q m
  pub only : (q m : ℕ) → Live s' q m → (q ≡ p) ⊎ Live s q m

-- A live block of `s` at another index than the one that changes is live in `s'`.
still_there :
    (s s' : Kmm) {p n : ℕ} (j l : ℕ)
    → l < blocks s'
    → header_at s' l ≡ header_at s j
    → s'.hdr (header_at s j) ≡ s.hdr (header_at s j)
    → block_used s j ≢ 0
    → header_at s j + 16 ≡ p
    → block_size s j ≡ n
    → Live s' p n
still_there s s' j l hl eh same used e size =
    let same' : s'.hdr (header_at s' l) ≡ s.hdr (header_at s j) = ap s'.hdr eh ∙ same in
    (
      l,
      hl,
      (λ z. used (ap (λ (h : Header). h.used) (sym same') ∙ z)),
      ap (λ a. a + 16) eh ∙ e,
      ap (λ (h : Header). h.size) same' ∙ size,
    )

module _ {s s' : Kmm} (i size : ℕ) (v : IsHeap s) (inside : i < blocks s)
    (unused : block_used s i ≡ 0) (g : Granted s i size s') where
  grant_kept : (q m : ℕ) → Live s q m → Live s' q m
  grant_kept q m (j, hj, uj, ej, zj) =
      let other : j ≢ i = λ e. uj (ap (block_used s) e ∙ unused) in
      let (same, (l, hl, el)) = g.others j hj other in still_there s s' j l hl el same uj ej zj

  granted-Live : Live s' (header_at s i + 16) (block_size s' i)
  granted-Live = (
    i,
    g.listed,
    (λ z. absurd (omega (arith, z, g.now_used, ap (λ a. (s'.hdr a).used) g.same_index))),
    ap (λ a. a + 16) g.same_index,
    refl,
  )

  Granted-Serves : Serves s size s' (header_at s i + 16)
  Granted-Serves = record {
    is_heap = g.is_heap;
    length = block_size s' i;
    enough = omega (arith, g.enough, ap (λ a. (s'.hdr a).size) g.same_index);
    live = granted-Live;
    aligned = (Live-inside g.is_heap granted-Live).0;
    fresh = λ q m w. Live-disjoint g.is_heap granted-Live (grant_kept q m w) (λ e. w.2 (
        ap (block_used s) (header-injective v.layout w.0 i w.1 inside (omega (arith, e, w.3)))
        ∙ unused));
    kept = grant_kept;
    only = λ q m (l, hl, ul, el, zl). elim (ℕ_discrete l i) [
      | yes here ↦ inl (sym el ∙ ap (λ x. header_at s' x + 16) here ∙ ap (λ a. a + 16) g.same_index)
      | no other ↦
          let (j, hj, nj, ej) = g.only l hl other ul in
          let same : s'.hdr (header_at s' l) ≡ s.hdr (header_at s j) =
            ap s'.hdr ej ∙ (g.others j hj nj).0 in
          inr (
            j,
            hj,
            (λ z. ul (ap (λ (h : Header). h.used) same ∙ z)),
            ap (λ a. a + 16) (sym ej) ∙ el,
            ap (λ (h : Header). h.size) (sym same) ∙ zl,
          )
    ];
  }

-- No request of this size meets a free block that it fits and that the split test mistakes.
abbrev pub IsServable : Kmm → (size : ℕ) → Type 0
IsServable s size =
    (i : ℕ)
    → i < blocks s
    → block_used s i ≡ 0
    → align_size size ≤ block_size s i
    → Roomy s (align_size size) i

-- `alloc` of a size from 1 to 0xFFFFFFF0, which the alignment does not wrap, on a well-formed heap with
-- room in its arrays, where the split test mistakes no block that fits: the heap serves a region of that size at the address returned; or
-- it returns NULL, changes nothing, and no free block is large enough.
pub alloc-Serves :
    {s : Kmm} (size : ℕ)
    → IsHeap s
    → blocks s < array_capacity
    → 0 < size
    → size ≤ 4294967280
    → IsServable s size
    → Serves s size (alloc s size).0 (alloc s size).1
      ⊎ (((alloc s size).1 ≡ 0)
          × ((alloc s size).0 ≡ s)
          × ((k : ℕ) → k < blocks s → block_used s k ≡ 0 → block_size s k < align_size size))
alloc-Serves {s} size v entries positive small roomy =
    elim (alloc-Found size v entries positive small roomy) [
      | inl (k, lo, hk, unused, fits, at, g) ↦
          let w = Granted-Serves k (align_size size) v hk unused g in
          inl (
            subst (λ p. Serves s size (alloc s size).0 p) (sym at)
              (record {
                is_heap = w.is_heap;
                length = w.length;
                enough = omega (arith, w.enough, (align_size_lem size small).1);
                live = w.live;
                aligned = w.aligned;
                fresh = w.fresh;
                kept = w.kept;
                only = w.only;
              }))
      | inr (null, same, none_fits) ↦ inr (null, same, λ k hk u. none_fits k (omega arith) hk u)
    ]

-- What the release of the region at `p` leaves: all other live regions and no more.
pub record Releases (s : Kmm) (p : ℕ) (s' : Kmm) : Type 0 where
  pub is_heap : IsHeap s'
  pub kept : (q m : ℕ) → q ≢ p → Live s q m → Live s' q m
  pub only : (q m : ℕ) → Live s' q m → (q ≢ p) × Live s q m

-- `free` of a live region of a well-formed heap leaves the heap well-formed, with all other live
-- regions, at their places and with their lengths, and no more.
pub free-Releases : {s : Kmm} {p n : ℕ} → IsHeap s → Live s p n → Releases s p (free s p)
free-Releases {s} {p} v (i, hi, ui, ei, zi) =
    let f = free-Freed v i hi in
    let m : Merged s i (free s (header_at s i + 16)) f.index = f.merged in
    subst (λ a. Releases s a (free s a)) ei
      (record {
        is_heap = m.is_heap;
        kept = λ q n other (j, hj, uj, ej, zj).
            let ne : j ≢ i = λ e. other (sym ej ∙ ap (λ x. header_at s x + 16) e) in
            let (same, (l, hl, nl, el)) = m.others j hj ne uj in
            still_there s (free s (header_at s i + 16)) j l hl el same uj ej zj;
        only = λ q n (l, hl, ul, el, zl).
            let ne : l ≢ f.index =
              λ e. ul (ap (block_used (free s (header_at s i + 16))) e ∙ f.unused) in
            let (j, hj, nj, ej, same) = m.only l hl ne in
            let same' = ap (free s (header_at s i + 16)).hdr ej ∙ same in
            (
              (λ e. nj (header-injective v.layout j i hj hi (omega (arith, e, el, ej)))),
              (
                j,
                hj,
                (λ z. ul (ap (λ (h : Header). h.used) same' ∙ z)),
                ap (λ a. a + 16) (sym ej) ∙ el,
                ap (λ (h : Header). h.size) (sym same') ∙ zl,
              ),
            );
      })
