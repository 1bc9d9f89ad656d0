-- ===== src/Kmm/Free.antt =====
-- Freeing: the block is merged with its free neighbours and marked free.
use brownie_os.Base.{
  ℕ, zero, suc, ◌+◌, ◌<◌, ◌≡◌, refl, arith, false, ◌==◌, ◌⊎◌, add32, sub32, sym, update, Bool-cases,
  inl, inr, lt→ltb, le→ltb, ==→eq,
}
use native.Mathlib.Decide.{dec_lt}
use brownie_os.Kmm.{
  Kmm, unify_left, unify_right, unify, free, coalesce_left, kmm_prechecks, kmm_checks,
}
use brownie_os.Kmm.Layout.{footer-le-end}
use brownie_os.Kmm.State.{
  blocks, header_at, footer_at, block_used, IsHeap, kmm_prechecks-true, kmm_checks-true,
  find_header,
}
use brownie_os.Kmm.Coalesce.{coalesce_left-Coalesced, coalesce_right-Coalesced}
use brownie_os.Kmm.Merged.{
  Merged, Merged-self, Merged-right, Merged-left, Merged-trans, Merged-mark,
}

-- What `unify_left` does for block `i`.
record LeftDone (s : Kmm) (i : ℕ) (r : Kmm × ℕ) : Type 0 where
  index : ℕ
  merged : Merged s i r.0 index
  kept : r.1 ≡ header_at r.0 index
  same_footer : footer_at r.0 index ≡ footer_at s i

module _ {s : Kmm} (v : IsHeap s) where
  left_alone : (i : ℕ) → i < blocks s → LeftDone s i (s, header_at s i)
  left_alone i inside = record {
    index = i;
    merged = Merged-self i v inside;
    kept = refl;
    same_footer = refl;
  }

  left_merged :
      (i : ℕ)
      → i + 1 < blocks s
      → block_used s i ≡ 0
      → LeftDone s (i + 1) (
        coalesce_left s
            (header_at s i)
            (footer_at s i)
            (header_at s (i + 1))
            (footer_at s (i + 1))
            (i + 1),
        header_at s i,
      )
  left_merged i inside unused =
      let c = coalesce_left-Coalesced v i inside in
      record {
        index = i;
        merged = Merged-left i v inside unused c;
        kept = sym (c.headers.below i (omega arith));
        same_footer = c.footers.moved i (omega arith) inside;
      }

  unify_left-LeftDone :
      (i : ℕ) → i < blocks s → LeftDone s i (unify_left s (header_at s i) (footer_at s i))
  unfolding unify_left
  unify_left-LeftDone zero inside = rw (find_header v zero inside) (left_alone zero inside)
  unify_left-LeftDone (suc i) inside =
      rw (find_header v (suc i) inside, before)
        (elim (Bool-cases (block_used s i == 0)) [
          | inl unused ↦
              rw
                (
                  unused,
                  (v.layout.block i (omega arith)).footer,
                  next,
                  lt→ltb 0 (i + 1) (omega arith),
                )
                (left_merged i (omega arith) (==→eq _ _ unused))
          | inr used ↦ rw (used, lt→ltb 0 (suc i) (omega arith)) (left_alone (suc i) inside)
        ])
    where
      before : sub32 (suc i) 1 ≡ i
      before = omega (arith, v.headers.fits)

      next : suc i ≡ i + 1
      next = omega arith

  -- `unify_right` keeps the header of the block at its index.
  unify_right-Merged :
      (i : ℕ)
      → i < blocks s
      → let t = unify_right s (header_at s i) (footer_at s i) in
        Merged s i t i × (header_at t i ≡ header_at s i)
  unfolding unify_right
  unify_right-Merged i inside =
      rw (find_header v i inside, next)
        (elim (dec_lt (i + 1) (blocks s)) [
          | yes room ↦
              rw (lt→ltb i (sub32 (blocks s) 1) (omega (arith, v.headers.fits)))
                (elim (Bool-cases (block_used s (i + 1) == 0)) [
                  | inl unused ↦
                      let c = coalesce_right-Coalesced v i room in
                      rw (unused, (v.layout.block (i + 1) room).footer)
                        (
                          Merged-right i v room (==→eq _ _ unused) c,
                          c.headers.below i (omega arith),
                        )
                  | inr used ↦ rw used (Merged-self i v inside, refl)
                ])
          | no last ↦
              rw (le→ltb i (sub32 (blocks s) 1) (omega (arith, v.headers.fits)))
                (Merged-self i v inside, refl)
        ])
    where
      next : add32 i 1 ≡ i + 1
      next = omega (arith, v.headers.fits)

-- Block `i` of `s` has been freed in `s'`: a free block covers it.
pub record Freed (s : Kmm) (i : ℕ) (s' : Kmm) : Type 0 where
  pub index : ℕ
  pub merged : Merged s i s' index
  pub unused : block_used s' index ≡ 0

Freed-of :
    {s t : Kmm} {i k : ℕ} (h : ℕ)
    → Merged s i t k
    → h ≡ header_at t k
    → Freed s i (record t { hdr = update t.hdr h (record (t.hdr h) { used = 0 }) })
Freed-of {s} {t} {i} {k} h m e =
    rw e (record { index = k; merged = Merged-mark m; unused = ground arith })

unify_rest :
    {s t : Kmm} {i k : ℕ} (h f : ℕ)
    → Merged s i t k
    → h ≡ header_at t k
    → f ≡ footer_at t k
    → let u = unify_right t h f in
      Freed s i (record u { hdr = update u.hdr h (record (u.hdr h) { used = 0 }) })
unify_rest {t} {k} h f m eh ef =
    rw (eh, ef)
      (let (right, same) = unify_right-Merged m.is_heap k m.listed in
        Freed-of (header_at t k) (Merged-trans m right) (sym same))

module _ {s : Kmm} (v : IsHeap s) (i : ℕ) (inside : i < blocks s) where
  unify-Freed : Freed s i (unify s (header_at s i) (footer_at s i))
  unfolding unify
  unify-Freed =
      let left = unify_left-LeftDone v i inside in
      unify_rest (unify_left s (header_at s i) (footer_at s i)).1 (footer_at s i) left.merged
        left.kept (sym left.same_footer)

  -- `free` of the payload address of a block of a well-formed heap leaves the heap well-formed, with
  -- a free block that covers the block given back; every other block in use keeps its header.
  pub free-Freed : Freed s i (free s (header_at s i + 16))
  unfolding free
  free-Freed =
      rw
        (
          address,
          kmm_prechecks-true v,
          (v.layout.block i inside).footer,
          kmm_checks-true v i inside,
        )
        unify-Freed
    where
      address : sub32 (header_at s i + 16) 16 ≡ header_at s i
      address =
          omega
            (arith, (v.layout.block i inside).extent, footer-le-end v.layout i inside, v.layout.top)

-- A pointer whose header fails the checks is not freed: nothing changes.
pub free_rejects :
    (s : Kmm) (ptr : ℕ)
    → let header = sub32 ptr 16 in
      (kmm_prechecks s.heap ≡ false) ⊎ (kmm_checks s header (s.hdr header).footer ≡ false)
      → free s ptr ≡ s
unfolding free
free_rejects s ptr (inl bad) = rw bad
free_rejects s ptr (inr bad) = elim (Bool-cases (kmm_prechecks s.heap)) [
  | inl good ↦ rw (good, bad)
  | inr worse ↦ rw worse
]
