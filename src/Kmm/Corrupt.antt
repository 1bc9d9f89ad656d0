-- ===== src/Kmm/Corrupt.antt =====
-- Small blocks: the size test of `alloc_from_block` wraps below 96 bytes.
use native.Mathlib.Decide.{ℕ_discrete}
use brownie_os.Base.{
  zero, suc, refl, ◌≢◌, ◌⊎◌, inl, inr, ◌∙◌, ◌==◌, ◌&&◌, true, eq→==, ne→==, ℕ, ◌+◌, ◌≤◌, ◌<◌, ◌≡◌,
  arith, u32, false, add32, sub32, ap, leb,
}
use brownie_os.OrderedArray.{insert_ordered_array}
use brownie_os.OrderedArray.Insert.{insert_ordered_array-Inserted}
use brownie_os.Kmm.Alloc.{suitable_lem}
use brownie_os.Kmm.{
  align_size, suitable, search_blocks, alloc, Kmm, array_capacity, split_block, alloc_from_block,
}
use brownie_os.Kmm.Layout.{footer-le-end}
use brownie_os.Kmm.State.{
  kmm_prechecks-true, block_used, blocks, header_at, footer_at, block_size, IsHeap,
}

module _ {s : Kmm} (v : IsHeap s) (i size : ℕ) (inside : i < blocks s)
    (fits : size ≤ block_size s i) (small : block_size s i < 96)
    (tight : block_size s i < size + 32) where
  in_heap : header_at s i + size + 32 ≤ s.heap.end × (s.heap.end < u32)
  in_heap =
      omega (arith, (v.layout.block i inside).extent, footer-le-end v.layout i inside, v.layout.top)

  abbrev result : Kmm
  result = alloc_from_block s (header_at s i) (footer_at s i) size

  -- The code splits the block all the same.
  splits : result ≡ split_block s (header_at s i) (footer_at s i) size
  unfolding alloc_from_block
  splits = rw wrapped
    where
      wrapped : leb (sub32 (sub32 (sub32 (block_size s i) 16) 16) 64) size ≡ false
      wrapped = ground arith

  address : add32 (add32 (add32 (header_at s i) size) 16) 16 ≡ header_at s i + size + 32
  address = omega (arith, in_heap)

  -- The header of the remainder claims almost the whole address space, and is in the array.
  remainder_size : (result.hdr (header_at s i + size + 32)).size + size + 32 ≡ block_size s i + u32
  unfolding split_block
  remainder_size = rw splits (ground (arith, address, in_heap))

  remainder_listed :
      blocks s < array_capacity
      → (k : ℕ) × (k < blocks result) × (header_at result k ≡ header_at s i + size + 32)
  unfolding split_block
  remainder_listed entries =
      rw (splits, address)
        (let o = s.heap.header_array in
          let val = header_at s i + size + 32 in
          let (ins, sz, _, _) =
            insert_ordered_array-Inserted o val (omega (arith, v.headers.capacity)) in
          ((insert_ordered_array o val).1, omega (arith, ins.index, sz), ins.at))

  -- Taking a free block of fewer than 96 bytes, for a size that leaves less than 32 of them, breaks
  -- the heap: the remainder's size wraps.
  pub alloc_from_block-corrupts : blocks s < array_capacity → ¬ IsHeap result
  alloc_from_block-corrupts entries w =
      let (k, hk, e) = remainder_listed entries in
      let b = w.layout.block k hk in
      let sz : (result.hdr (header_at result k)).size
          ≡ (result.hdr (header_at s i + size + 32)).size =
        ap (λ a. (result.hdr a).size) e in
      absurd
        (omega (arith, b.extent, footer-le-end w.layout k hk, w.layout.top, remainder_size, sz))

-- Block `j` is passed over by a search for `size` bytes.
abbrev pub Unfit : Kmm → (size j : ℕ) → Type 0
Unfit s size j = (block_used s j ≢ 0) ⊎ (block_size s j < size)

search_blocks-first :
    {s : Kmm} (size k : ℕ)
    → IsHeap s
    → k < blocks s
    → block_used s k ≡ 0
    → size ≤ block_size s k
    → ((j : ℕ) → j < k → Unfit s size j)
    → (n i : ℕ) → i + n ≡ blocks s
    → i ≤ k
    → (search_blocks n s size i).0 ≡ alloc_from_block s (header_at s k) (footer_at s k) size
unfolding search_blocks
search_blocks-first size k v inside unused fits before zero i e le = absurd (omega arith)
search_blocks-first {s} size k v inside unused fits before (suc n) i e le = elim (ℕ_discrete i k) [
  | yes here ↦
      rw here (rw (suitable_lem v size k inside, eq→== (block_used s k) 0 unused, fits_code) refl)
  | no later ↦
      let passed : suitable s size i ≡ false =
        suitable_lem v size i (omega arith) ∙ unfit (before i (omega arith)) in
      rw passed (
        search_blocks-first size k v inside unused fits before n (i + 1) (omega arith)
          (omega arith))
]
  where
    fits_code : leb size (block_size s k) ≡ true
    fits_code = ground arith

    unfit : Unfit s size i → ((block_used s i == 0) && leb size (block_size s i)) ≡ false
    unfit (inl used) = rw (ne→== (block_used s i) 0 used) refl
    unfit (inr short) = ground arith

-- Where the first free block that a request fits holds fewer than 96 bytes and fewer than 32 more
-- than the request, rounded up to 16, `alloc` breaks a well-formed heap: it splits the block where
-- there is no room, and the size of the remainder wraps.
pub alloc-corrupts :
    {s : Kmm} (size k : ℕ)
    → IsHeap s
    → blocks s < array_capacity
    → 0 < size
    → k < blocks s
    → block_used s k ≡ 0
    → align_size size ≤ block_size s k
    → block_size s k < 96
    → block_size s k < align_size size + 32
    → ((j : ℕ) → j < k → Unfit s (align_size size) j)
    → ¬ IsHeap (alloc s size).0
unfolding alloc
alloc-corrupts {s} size k v entries positive inside unused fits small tight before =
    rw
      (
        ne→== size 0 (omega arith),
        kmm_prechecks-true v,
        search_blocks-first (align_size size) k v inside unused fits before (blocks s) 0
            (omega arith) (omega arith),
      )
      (alloc_from_block-corrupts v k (align_size size) inside fits small tight entries)
