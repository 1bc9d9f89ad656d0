-- ===== src/Kmm/SplitBlock.antt =====
-- The split of a block in the code is the split of the layout.
use brownie_os.Base.{
  ℕ, ◌+◌, ◌-◌, ◌%◌, ◌≤◌, ◌<◌, ◌≡◌, refl, arith, u32, add32, sub32, ◌∙◌, sym, subst,
}
use native.Mathlib.Decide.{dec_lt, ℕ_discrete}
use brownie_os.OrderedArray.{OrderedArray, insert_ordered_array}
use brownie_os.OrderedArray.Insert.{
  Inserted, insert_ordered_array-Inserted, insert_ordered_array_at,
}
use brownie_os.Kmm.{Kmm, array_capacity, split_block}
use brownie_os.Kmm.Layout.{Layout, header-lt, footer-lt, footer-lt-header, footer-le-end}
use brownie_os.Kmm.Split.{SplitMemory, Layout-split}
use brownie_os.Kmm.State.{blocks, header_at, footer_at, block_size, IsTable, IsHeap}

pub insert-IsTable :
    {o : OrderedArray} (val : ℕ)
    → IsTable o
    → o.size < array_capacity
    → IsTable (insert_ordered_array o val).0
insert-IsTable {o} val t room =
    let (_, size, max, pred) = insert_ordered_array-Inserted o val (omega (arith, t.capacity)) in
    record { capacity = max ∙ t.capacity; fits = omega arith; ordering = pred ∙ t.ordering }

module _ {s : Kmm} (v : IsHeap s) (i size : ℕ) (inside : i < blocks s) (aligned : size % 16 ≡ 0)
    (room : size + 32 ≤ block_size s i) (entries : blocks s < array_capacity) where
  pub nf : ℕ
  nf = header_at s i + 16 + size

  unfoldable pub nh : ℕ
  nh = header_at s i + 32 + size

  in_block : nh ≤ footer_at s i × (footer_at s i + 16 < u32)
  unfolding nh
  in_block =
      omega (arith, (v.layout.block i inside).extent, footer-le-end v.layout i inside, v.layout.top)

  insert_header :
      Inserted
        (header_at s)
        (blocks s)
        nh
        (insert_ordered_array s.heap.header_array nh).0.array
        (i + 1)
  unfolding nh
  insert_header =
      insert_ordered_array_at s.heap.header_array nh (i + 1) (omega (arith, v.headers.capacity))
        v.headers.ordering (omega arith)
        (λ j hj. elim (dec_lt j i) [
          | yes lt ↦ omega (arith, header-lt v.layout j i lt inside)
          | no ge ↦ let e : j ≡ i = omega arith in rw e (omega arith)
        ])
        (λ j hj top. omega (arith, footer-lt-header v.layout i j (omega arith) top, in_block))

  insert_footer :
      Inserted (footer_at s) (blocks s) nf (insert_ordered_array s.heap.footer_array nf).0.array i
  unfolding nf nh
  insert_footer =
      let o = s.heap.footer_array in
      let sz : o.size ≡ blocks s = v.sizes in
      let b = v.layout.block i inside in
      subst (λ n. Inserted o.array n nf (insert_ordered_array o nf).0.array i) sz
        (insert_ordered_array_at o nf i (omega (arith, v.footers.capacity, sz)) v.footers.ordering
          (omega arith) (λ j hj. omega (arith, footer-lt-header v.layout j i hj inside))
          (λ j hj top. elim (ℕ_discrete j i) [
            | yes here ↦ rw here (omega (arith, in_block))
            | no after ↦ omega (arith, footer-lt v.layout i j (omega arith) (omega arith), in_block)
          ]))

  abbrev pub after : Kmm
  after = split_block s (header_at s i) (footer_at s i) size

  nf_code : add32 (add32 (header_at s i) size) 16 ≡ nf
  unfolding nf nh
  nf_code = omega (arith, in_block)

  nh_code : add32 nf 16 ≡ nh
  unfolding nf nh
  nh_code = omega (arith, in_block)

  rest_code : sub32 (block_size s i) (add32 (add32 size 16) 16) ≡ block_size s i - (size + 32)
  unfolding nh
  rest_code = omega (arith, in_block, (v.layout.block i inside).extent)

  pub memory : SplitMemory v.layout i size inside after.hdr after.ftr
  unfolding split_block nf nh
  memory =
      let b = in_block in
      let ex = (v.layout.block i inside).extent in
      record {
        left = ground (arith, nf_code, nh_code, b);
        right = ground (arith, nf_code, nh_code, rest_code, b);
        left_end = ground (arith, nf_code, nh_code, b, ex);
        right_end = ground (arith, nf_code, nh_code, b, ex);
        other_headers = λ a h k. ground (arith, nf_code, nh_code, b);
        other_footers = λ a h k. ground (arith, nf_code, nh_code, b);
      }

  pub headers_after :
      Inserted (header_at s) (blocks s) nh after.heap.header_array.array (i + 1)
      × (after.heap.header_array.size ≡ blocks s + 1)
      × IsTable after.heap.header_array
  unfolding split_block
  headers_after =
      rw (nf_code, nh_code)
        (
          insert_header,
          (insert_ordered_array-Inserted s.heap.header_array nh
              (omega (arith, v.headers.capacity))).1,
          insert-IsTable nh v.headers entries,
        )

  footers_after :
      Inserted (footer_at s) (blocks s) nf after.heap.footer_array.array i
      × (after.heap.footer_array.size ≡ s.heap.footer_array.size + 1)
      × IsTable after.heap.footer_array
  unfolding split_block
  footers_after =
      let few : s.heap.footer_array.size < array_capacity = omega (arith, v.sizes) in
      rw nf_code (
        insert_footer,
        (insert_ordered_array-Inserted s.heap.footer_array nf
            (omega (arith, v.footers.capacity))).1,
        insert-IsTable nf v.footers few,
      )

  bounds_after :
      (after.heap.start ≡ s.heap.start)
      × (after.heap.end ≡ s.heap.end)
      × (after.heap.magic ≡ s.heap.magic)
  unfolding split_block
  bounds_after = (refl, refl, refl)

  Layout-after :
      Layout s.heap.start s.heap.end
        (blocks s + 1)
        after.heap.header_array.array
        after.heap.footer_array.array
        after.hdr
        after.ftr
  unfolding nf nh
  Layout-after =
      Layout-split v.layout i size inside room aligned headers_after.0 footers_after.0 memory

  -- Cutting `size` bytes, a multiple of 16, off a block that holds 32 bytes more keeps the heap
  -- well-formed, where the arrays have room for one more entry.
  pub split_block-IsHeap : IsHeap after
  unfolding split_block
  split_block-IsHeap = record {
    magic = v.magic;
    headers = headers_after.2;
    footers = footers_after.2;
    sizes = omega (arith, headers_after.1, footers_after.1, v.sizes);
    layout =
        subst
          (λ n.
            Layout s.heap.start s.heap.end n after.heap.header_array.array
              after.heap.footer_array.array after.hdr after.ftr)
          (sym headers_after.1) Layout-after;
  }
