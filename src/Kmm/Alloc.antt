-- ===== src/Kmm/Alloc.antt =====
-- Allocation: the block that is found, its split, and what stays as it was.
use brownie_os.Base.{
  ◌-◌, ◌∙◌, sym, subst, ℕ, zero, suc, ◌+◌, ◌%◌, ◌≤◌, ◌<◌, ◌≡◌, refl, ◌≢◌, ◌⊎◌, inl, inr, arith, u32,
  ◌&&◌, ◌==◌, sub32, ap, update, leb, Bool-cases, ne→==,
}
use native.Mathlib.Decide.{dec_lt, ℕ_discrete}
use brownie_os.Kmm.{
  Header, Kmm, array_capacity, split_block, alloc_from_block, align_size, suitable, search_blocks,
  alloc,
}
use brownie_os.Kmm.Layout.{IsBlock, header-injective, footer-le-end}
use brownie_os.Kmm.State.{
  blocks, header_at, footer_at, block_size, block_used, IsHeap, IsHeap-blocks, kmm_prechecks-true,
  kmm_checks-true,
}
use brownie_os.Kmm.SplitBlock.{nh, headers_after, memory, split_block-IsHeap}
use brownie_os.Kmm.Split.{apart}

-- Block `i` of `s` has been handed out in `s'`: it is marked used and holds `size` bytes at least,
-- its header is where it was, and the heap is well-formed. Every other block of `s` is in `s'` with
-- its header as it was, and every other block of `s'` in use is one of `s`.
pub record Granted (s : Kmm) (i size : ℕ) (s' : Kmm) : Type 0 where
  pub is_heap : IsHeap s'
  pub now_used : (s'.hdr (header_at s i)).used ≡ 1
  pub enough : size ≤ (s'.hdr (header_at s i)).size
  pub same_index : header_at s' i ≡ header_at s i
  pub listed : i < blocks s'
  pub others :
      (j : ℕ)
      → j < blocks s
      → j ≢ i
      → (s'.hdr (header_at s j) ≡ s.hdr (header_at s j))
        × ((l : ℕ) × (l < blocks s') × (header_at s' l ≡ header_at s j))
  pub only :
      (l : ℕ)
      → l < blocks s'
      → l ≢ i
      → block_used s' l ≢ 0
      → (j : ℕ) × (j < blocks s) × (j ≢ i) × (header_at s' l ≡ header_at s j)
  pub same_bounds : (s'.heap.start ≡ s.heap.start) × (s'.heap.end ≡ s.heap.end)

-- The block can be handed out for `size` bytes without its size field wrapping: it is as large as
-- the code's test supposes, or a split leaves both parts their header and footer.
abbrev pub Roomy : Kmm → ℕ → ℕ → Type 0
Roomy s size i = (96 ≤ block_size s i) ⊎ (size + 32 ≤ block_size s i)

module _ {s : Kmm} (v : IsHeap s) (i size : ℕ) (inside : i < blocks s) (aligned : size % 16 ≡ 0)
    (fits : size ≤ block_size s i) (entries : blocks s < array_capacity) where
  -- A used block after the split is block `i` or was there before.
  split_only :
      (room : size + 32 ≤ block_size s i)
      → let s' = split_block s (header_at s i) (footer_at s i) size in
        (l : ℕ)
        → l < blocks s'
        → l ≢ i
        → block_used s' l ≢ 0
        → (j : ℕ) × (j < blocks s) × (j ≢ i) × (header_at s' l ≡ header_at s j)
  unfolding nh
  split_only room l hl ne used =
      let mem = memory v i size inside aligned room entries in
      let (ins, count, _) = headers_after v i size inside aligned room entries in
      let after_split = split_block s (header_at s i) (footer_at s i) size in
      elim (dec_lt l i) [
        | yes before ↦ (l, omega arith, omega arith, ins.below l (omega arith))
        | no behind ↦ elim (ℕ_discrete l (i + 1)) [
          | yes rest ↦ absurd (
              used (
                subst (λ (x : ℕ). (after_split.hdr (header_at after_split x)).used ≡ 0) (sym rest)
                  (subst (λ (a : ℕ). (after_split.hdr a).used ≡ 0) (sym ins.at)
                    (ap (λ (h : Header). h.used) mem.right))))
          | no past ↦
              let e : l ≡ l - 1 + 1 = omega arith in
              (
                l - 1,
                omega (arith, count),
                omega arith,
                ap (header_at after_split) e
                    ∙ ins.moved (l - 1) (omega arith) (omega (arith, count)),
              )
        ]
      ]

  split-Granted :
      size + 32 ≤ block_size s i
      → Granted s i size (split_block s (header_at s i) (footer_at s i) size)
  split-Granted room =
      let mem = memory v i size inside aligned room entries in
      let (ins, count, _) = headers_after v i size inside aligned room entries in
      record {
        is_heap = split_block-IsHeap v i size inside aligned room entries;
        now_used = ap (λ (h : Header). h.used) mem.left;
        enough = omega (arith, ap (λ (h : Header). h.size) mem.left);
        same_index = (headers_after v i size inside aligned room entries).0.below i (omega arith);
        listed = omega (arith, count);
        others = λ j hj ne.
            let (a, b, _, _) = apart v.layout i size inside room j hj ne in
            (
              mem.other_headers (header_at s j) a b,
              elim (dec_lt j i) [
                | yes before ↦ (j, omega (arith, count), ins.below j (omega arith))
                | no behind ↦ (j + 1, omega (arith, count), ins.moved j (omega arith) hj)
              ],
            );
        only = split_only room;
        same_bounds = same_bounds_split;
      }
    where
      same_bounds_split :
          let s' = split_block s (header_at s i) (footer_at s i) size in
          (s'.heap.start ≡ s.heap.start) × (s'.heap.end ≡ s.heap.end)
      same_bounds_split = unfold split_block in (refl, refl)

  abbrev marked : ℕ → Header
  marked = update s.hdr (header_at s i) (record (s.hdr (header_at s i)) { used = 1 })

  marked_block :
      (j : ℕ)
      → j < blocks s
      → IsBlock (marked (header_at s j)) (s.ftr (footer_at s j)) (header_at s j) (footer_at s j)
  marked_block j hj =
      let b = v.layout.block j hj in
      record {
        footer = ground (arith, b.footer);
        header = b.header;
        header_magic = ground (arith, b.header_magic);
        footer_magic = b.footer_magic;
        extent = ground (arith, b.extent);
        aligned = ground (arith, b.aligned);
      }

  whole-Granted : Granted s i size (record s { hdr = marked })
  whole-Granted = record {
    is_heap = IsHeap-blocks marked s.ftr v marked_block;
    now_used = ground arith;
    enough = ground arith;
    same_index = refl;
    listed = inside;
    others = λ j hj ne. (ground (arith, header-injective v.layout j i hj inside), (j, hj, refl));
    only = λ l hl ne used. (l, hl, ne, refl);
    same_bounds = (refl, refl);
  }

  pub alloc_from_block-Granted :
      Roomy s size i → Granted s i size (alloc_from_block s (header_at s i) (footer_at s i) size)
  unfolding alloc_from_block
  alloc_from_block-Granted roomy =
      elim (Bool-cases (leb (sub32 (sub32 (sub32 (block_size s i) 16) 16) 64) size)) [
        | inl whole ↦ rw whole whole-Granted
        | inr part ↦ rw part (split-Granted (ground (arith, roomy, short, part)))
      ]
    where
      short : block_size s i < u32
      short =
          omega
            (arith, (v.layout.block i inside).extent, footer-le-end v.layout i inside, v.layout.top)

pub suitable_lem :
    {s : Kmm}
    → IsHeap s
    → (size i : ℕ) → i < blocks s
    → suitable s size i ≡ ((block_used s i == 0) && leb size (block_size s i))
unfolding suitable
suitable_lem {s} v size i inside = ground (arith, kmm_checks-true v i inside)

-- What a search of the blocks from index `i` on finds.
abbrev pub Found : Kmm → (size i : ℕ) → Kmm × ℕ → Type 0
Found s size i (s', p) =
    ((k : ℕ) × (i ≤ k)
      × (k < blocks s)
      × (block_used s k ≡ 0)
      × (size ≤ block_size s k)
      × (p ≡ header_at s k + 16)
      × Granted s k size s')
    ⊎ ((p ≡ 0)
        × (s' ≡ s)
        × ((k : ℕ) → i ≤ k → k < blocks s → block_used s k ≡ 0 → block_size s k < size))

module _ {s : Kmm} (v : IsHeap s) (size : ℕ) (aligned : size % 16 ≡ 0)
    (entries : blocks s < array_capacity)
    (roomy : (i : ℕ)
      → i < blocks s
      → block_used s i ≡ 0
      → size ≤ block_size s i
      → Roomy s size i) where
  search_blocks-Found : (n i : ℕ) → i + n ≡ blocks s → Found s size i (search_blocks n s size i)
  unfolding search_blocks
  search_blocks-Found zero i e = inr (refl, refl, λ k h l. absurd (omega arith))
  search_blocks-Found (suc n) i e =
      elim (Bool-cases ((block_used s i == 0) && leb size (block_size s i))) [
        | inl hit ↦
            let free_block : block_used s i ≡ 0 = ground (arith, hit) in
            let fits : size ≤ block_size s i = ground (arith, hit) in
            let inside : i < blocks s = omega arith in
            rw (suitable_lem v size i inside, hit)
              (inl (
                i,
                omega arith,
                inside,
                free_block,
                fits,
                omega (
                  arith,
                  (v.layout.block i inside).extent,
                  footer-le-end v.layout i inside,
                  v.layout.top,
                ),
                alloc_from_block-Granted v i size inside aligned fits entries
                    (roomy i inside free_block fits),
              ))
        | inr miss ↦
            rw (suitable_lem v size i (omega arith), miss)
              (elim (search_blocks-Found n (i + 1) (omega arith)) [
                | inl f ↦ inl (f.0, omega arith, f.2, f.3, f.4, f.5, f.6)
                | inr f ↦ inr (
                  f.0,
                  f.1,
                  λ k h l u. elim (ℕ_discrete k i) [
                    | yes here ↦ ground (arith, here, miss)
                    | no later ↦ f.2 k (omega arith) l u
                  ],
                )
              ])
      ]

pub align_size_lem :
    (size : ℕ)
    → size ≤ 4294967280
    → (align_size size % 16 ≡ 0) × (size ≤ align_size size) × (align_size size < size + 16)
unfolding align_size
align_size_lem size h = ground arith

-- On a well-formed heap whose arrays have room for one more entry, and where every free block that
-- is large enough can be handed out without its size field wrapping, `alloc` of a positive size of
-- at most 2 ^ 32 - 16 hands out a free block of at least the size rounded up to 16 bytes, and
-- returns the address behind its header; the heap stays well-formed and every other block is as it
-- was. Or it returns NULL with nothing changed, and then every free block is too small.
pub alloc-Found :
    {s : Kmm} (size : ℕ)
    → IsHeap s
    → blocks s < array_capacity
    → 0 < size
    → size ≤ 4294967280
    → ((i : ℕ)
        → i < blocks s
        → block_used s i ≡ 0
        → align_size size ≤ block_size s i
        → Roomy s (align_size size) i)
    → Found s (align_size size) 0 (alloc s size)
unfolding alloc
alloc-Found {s} size v entries positive small roomy =
    rw (ne→== size 0 (omega arith), kmm_prechecks-true v)
      (search_blocks-Found v (align_size size) (align_size_lem size small).0 entries roomy
        (blocks s) 0 (omega arith))

-- A request of more than 2 ^ 32 - 16 bytes is rounded up to 0, so it is served by the first free
-- block as if it were for 0 bytes.
pub alloc-wraps :
    {s : Kmm} (size : ℕ)
    → IsHeap s
    → blocks s < array_capacity
    → 4294967280 < size
    → size < u32
    → ((i : ℕ) → i < blocks s → block_used s i ≡ 0 → Roomy s 0 i)
    → Found s 0 0 (alloc s size)
unfolding alloc
alloc-wraps {s} size v entries large small roomy =
    rw (ne→== size 0 (omega arith), kmm_prechecks-true v, rounded)
      (search_blocks-Found v 0 refl entries (λ i hi u _. roomy i hi u) (blocks s) 0 (omega arith))
  where
    rounded : align_size size ≡ 0
    rounded = unfold align_size in ground arith
