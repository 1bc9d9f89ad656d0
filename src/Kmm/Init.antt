-- ===== src/Kmm/Init.antt =====
-- The heap that `kheap_init` sets up.
use brownie_os.Base.{
  ℕ, suc, ◌+◌, ◌-◌, ◌*◌, ◌≤◌, ◌<◌, ◌≡◌, refl, arith, true, add32, sub32, ◌∙◌, sym, update, some,
  eq→==, inl, inr, true,
}
use brownie_os.OrderedArray.{
  OrderedArray, init_ordered_array_place, insert_ordered_array, less_predicate,
}
use brownie_os.OrderedArray.Insert.{insert_ordered_array-Inserted}
use brownie_os.Pmm.{Framemap}
use brownie_os.Pmm.Bitmap.{IsBytes}
use brownie_os.Pmm.Scan.{busy, FreeRun}
use brownie_os.Pmm.Alloc.{Allocated, alloc_pages-default}
use brownie_os.Kmm.{
  Header, Footer, Kmm, array_capacity, kheap_at, kheap_init, kheap_pages, kheap_magic_32,
  kheap_magic_64,
}
use brownie_os.Kmm.Layout.{IsBlock}
use brownie_os.Kmm.State.{blocks, block_size, block_used, IsTable, IsHeap}

-- One entry in a fresh array.
record IsSingle (o : OrderedArray) (val : ℕ) : Type 0 where
  table : IsTable o
  size : o.size ≡ 1
  entry : o.array 0 ≡ val

single :
    (place : ℕ → ℕ) (val : ℕ)
    → IsSingle (insert_ordered_array (init_ordered_array_place place array_capacity) val).0 val
single place val =
    let o = init_ordered_array_place place array_capacity in
    let (ins, size, max, pred) = insert_ordered_array-Inserted o val room in
    record {
      table = record { capacity = max ∙ cap; fits = omega (arith, empty); ordering = pred ∙ less };
      size = omega (arith, empty);
      entry =
          let z : (insert_ordered_array o val).1 ≡ 0 = omega (arith, ins.index, empty) in
          rw z at ins.at;
    }
  where
    empty : (init_ordered_array_place place array_capacity).size ≡ 0
    empty = unfold init_ordered_array_place in refl

    cap : (init_ordered_array_place place array_capacity).max_size ≡ array_capacity
    cap = unfold init_ordered_array_place in refl

    less : (init_ordered_array_place place array_capacity).predicate ≡ less_predicate
    less = unfold init_ordered_array_place in refl

    room :
        (init_ordered_array_place place array_capacity).size
        < (init_ordered_array_place place array_capacity).max_size
    room = omega (arith, empty, cap)

module _ (first : ℕ) (low : first + kheap_pages ≤ 229376) (header_place footer_place : ℕ → ℕ)
    (hdr : ℕ → Header) (ftr : ℕ → Footer) where
  abbrev fresh : Kmm
  fresh = kheap_at (first * 4096) header_place footer_place hdr ftr

  abbrev begin : ℕ
  begin = first * 4096 + 0xC0000000

  begin_code : add32 (first * 4096) 0xC0000000 ≡ begin
  begin_code = omega arith

  end_code : add32 begin (1024 * 4096) ≡ begin + 4194304
  end_code = omega arith

  footer_code : sub32 (begin + 4194304) 16 ≡ begin + 4194288
  footer_code = omega arith

  one_header : Header
  one_header = record {
    size = sub32 (begin + 4194304) (add32 (add32 begin 16) 16);
    footer = begin + 4194288;
    used = 0;
    magic = kheap_magic_32;
  }

  one_block :
      IsBlock
        (update hdr begin one_header begin)
        (update ftr
          (begin + 4194288)
          (record { header = begin; res = 0; magic = kheap_magic_64 })
          (begin + 4194288))
        begin
        (begin + 4194288)
  unfolding one_header
  one_block =
      rw (eq→== begin begin refl, eq→== (begin + 4194288) (begin + 4194288) refl)
        (record {
          footer = refl;
          header = refl;
          header_magic = refl;
          footer_magic = refl;
          extent = omega arith;
          aligned = omega arith;
        })

  -- Over 1024 pages below 896 MiB the heap starts as one free block of all but 32 bytes of them.
  pub kheap_at-IsHeap :
      IsHeap fresh
      × (blocks fresh ≡ 1)
      × (block_used fresh 0 ≡ 0)
      × (block_size fresh 0 ≡ 1024 * 4096 - 32)
  unfolding kheap_at one_header
  kheap_at-IsHeap =
      rw (begin_code, end_code, footer_code)
        (let h = single header_place begin in
          let f = single footer_place (begin + 4194288) in
          (
            record {
              magic = refl;
              headers = h.table;
              footers = f.table;
              sizes = f.size ∙ sym h.size;
              layout = record {
                some_blocks = omega (arith, h.size);
                first = h.entry;
                last = rw (h.size, f.entry) (omega arith);
                block = λ i hi.
                    let z : i ≡ 0 = omega (arith, h.size) in rw (z, h.entry, f.entry) one_block;
                chain = λ i hi. absurd (omega (arith, h.size));
                start_aligned = omega arith;
                top = omega arith;
              };
            },
            h.size,
            ground (arith, h.entry),
            ground (arith, h.entry),
          ))

-- Where the low memory has 1024 free frames in a row, `kheap_init` takes such a run and sets up a
-- well-formed heap over it: one free block of all but 32 bytes.
pub kheap_init-IsHeap :
    (extra k : ℕ) (m : Framemap) (header_place footer_place : ℕ → ℕ) (hdr : ℕ → Header)
    (ftr : ℕ → Footer)
    → IsBytes m
    → k + kheap_pages ≤ 229376
    → FreeRun m k kheap_pages
    → (s : Kmm) × (m' : Framemap) × (first : ℕ) × (kheap_init
          (229376 + suc extra)
          m
          header_place
          footer_place
          hdr
          ftr
        ≡ some (s, m'))
      × Allocated m kheap_pages 0 229376 first m'
      × (s.heap.start ≡ first * 4096 + 0xC0000000)
      × IsHeap s
      × (blocks s ≡ 1)
      × (block_used s 0 ≡ 0)
      × (block_size s 0 ≡ 1024 * 4096 - 32)
unfolding kheap_init
kheap_init-IsHeap extra k m header_place footer_place hdr ftr bytes fits run =
    elim (alloc_pages-default extra kheap_pages m bytes (omega arith) (omega arith)) [
      | inl (first, m', e, al) ↦
          let (v, n, u, z) = kheap_at-IsHeap first al.below header_place footer_place hdr ftr in
          (
            kheap_at (first * 4096) header_place footer_place hdr ftr,
            m',
            first,
            rw (e, kheap_init),
            al,
            begins first al.below,
            v,
            n,
            u,
            z,
          )
      | inr (_, no_run) ↦ absurd (clash (no_run k (omega arith) fits))
    ]
  where
    clash : (j : ℕ) × (k ≤ j) × (j < k + kheap_pages) × (busy m j ≡ true) → ⊥
    clash f = ground (arith, run f.0)

    begins :
        (first : ℕ)
        → first + kheap_pages ≤ 229376
        → (kheap_at (first * 4096) header_place footer_place hdr ftr).heap.start
          ≡ first * 4096 + 0xC0000000
    begins first low = unfold kheap_at in omega arith
