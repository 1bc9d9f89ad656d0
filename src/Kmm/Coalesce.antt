-- ===== src/Kmm/Coalesce.antt =====
-- Coalescing block `i` with the block behind it, in the code of either direction.
use brownie_os.Base.{ℕ, ◌+◌, ◌-◌, ◌<◌, ◌≡◌, refl, ◌≢◌, arith, u32, add32, sub32, ◌∙◌, subst}
use brownie_os.OrderedArray.{OrderedArray, remove_ordered_array}
use brownie_os.OrderedArray.Remove.{Removed, remove_ordered_array-Removed}
use brownie_os.Kmm.{Header, Footer, Heap, Kmm, coalesce_left, coalesce_right}
use brownie_os.Kmm.Layout.{Layout, footer-le-end}
use brownie_os.Kmm.Merge.{MergeMemory, Layout-merge}
use brownie_os.Kmm.State.{blocks, header_at, footer_at, block_size, IsTable, IsHeap}

-- `s'` is `s` with block `i` and the one behind it made one, marked used or free as block `i` was.
pub record Coalesced (s : Kmm) (i : ℕ) (s' : Kmm) : Type 0 where
  pub is_heap : IsHeap s'
  pub count : blocks s' + 1 ≡ blocks s
  pub headers : Removed (header_at s) (blocks s) (i + 1) (header_at s')
  pub footers : Removed (footer_at s) (blocks s) i (footer_at s')
  pub others : (a : ℕ) → a ≢ header_at s i → a ≢ header_at s (i + 1) → s'.hdr a ≡ s.hdr a
  pub same_bounds : (s'.heap.start ≡ s.heap.start) × (s'.heap.end ≡ s.heap.end)

remove-IsTable :
    {o : OrderedArray} (k : ℕ) → IsTable o → k < o.size → IsTable (remove_ordered_array o k)
remove-IsTable {o} k t inside =
    let (_, size, max, pred) = remove_ordered_array-Removed o k inside (omega (arith, t.fits)) in
    record {
      capacity = max ∙ t.capacity;
      fits = omega (arith, t.fits);
      ordering = pred ∙ t.ordering;
    }

module _ {s : Kmm} (v : IsHeap s) (i : ℕ) (inside : i + 1 < blocks s) where
  abbrev heap_after : Heap
  heap_after = record (s.heap) {
    footer_array = remove_ordered_array s.heap.footer_array i;
    header_array = remove_ordered_array s.heap.header_array (i + 1);
  }

  -- Any memory that meets the layout's merge makes a well-formed heap.
  coalesced :
      (hdr' : ℕ → Header) (ftr' : ℕ → Footer)
      → MergeMemory v.layout i inside hdr' ftr'
      → Coalesced s i (record { heap = heap_after; hdr = hdr'; ftr = ftr' })
  coalesced hdr' ftr' mem =
      let fewer : i < s.heap.footer_array.size = omega (arith, v.sizes) in
      let (remH, sizeH, _, _) =
        remove_ordered_array-Removed s.heap.header_array (i + 1) inside
          (omega (arith, v.headers.fits)) in
      let (remF₀, sizeF, _, _) =
        remove_ordered_array-Removed s.heap.footer_array i fewer (omega (arith, v.footers.fits)) in
      let remF =
        subst (λ n. Removed (footer_at s) n i (remove_ordered_array s.heap.footer_array i).array)
          v.sizes remF₀ in
      let n : blocks s - 1 ≡ heap_after.header_array.size = omega arith in
      record {
        is_heap = record {
          magic = v.magic;
          headers = remove-IsTable (i + 1) v.headers inside;
          footers = remove-IsTable i v.footers fewer;
          sizes = omega (arith, v.sizes);
          layout =
              subst
                (λ k.
                  Layout s.heap.start s.heap.end k heap_after.header_array.array
                    heap_after.footer_array.array hdr' ftr')
                n (Layout-merge v.layout i inside remH remF mem);
        };
        count = omega arith;
        headers = remH;
        footers = remF;
        others = mem.other_headers;
        same_bounds = (refl, refl);
      }

  spans :
      (header_at s i + 48 + block_size s i + block_size s (i + 1) ≡ footer_at s (i + 1))
      × (footer_at s (i + 1) + 16 < u32)
      × (footer_at s i ≡ header_at s i + 16 + block_size s i)
      × (header_at s (i + 1) ≡ footer_at s i + 16)
  spans =
      let b = v.layout.block i (omega arith) in
      let c = v.layout.block (i + 1) inside in
      omega (
        arith,
        b.extent,
        c.extent,
        v.layout.chain i inside,
        footer-le-end v.layout (i + 1) inside,
        v.layout.top,
      )

  pub coalesce_right-Coalesced : Coalesced s i (
      coalesce_right s
        (header_at s (i + 1))
        (footer_at s (i + 1))
        (header_at s i)
        (footer_at s i)
        i)
  unfolding coalesce_right
  coalesce_right-Coalesced = rw index (
      coalesced _ _ (record {
        whole_size = ground (arith, spans);
        whole_footer = ground (arith, spans);
        whole_magic = ground (arith, spans);
        whole_end = ground (arith, spans);
        other_headers = λ a p q. ground arith;
        other_footers = λ a p q. ground arith;
      }))
    where
      index : add32 i 1 ≡ i + 1
      index = omega (arith, v.headers.fits)

  pub coalesce_left-Coalesced : Coalesced s i (
      coalesce_left s
        (header_at s i)
        (footer_at s i)
        (header_at s (i + 1))
        (footer_at s (i + 1))
        (i + 1))
  unfolding coalesce_left
  coalesce_left-Coalesced = rw index (
      coalesced _ _ (record {
        whole_size = ground (arith, spans);
        whole_footer = ground (arith, spans);
        whole_magic = ground (arith, spans);
        whole_end = ground (arith, spans);
        other_headers = λ a p q. ground arith;
        other_footers = λ a p q. ground arith;
      }))
    where
      index : sub32 (i + 1) 1 ≡ i
      index = omega (arith, v.headers.fits)
