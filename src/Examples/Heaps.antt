-- ===== src/Examples/Heaps.antt =====
-- The kernel heap on concrete heaps.
use brownie_os.Base.{ℕ, suc, ◌+◌, ◌-◌, ◌*◌, ◌<◌, ◌≡◌, refl, inl, arith, some}
use brownie_os.OrderedArray.{less_predicate}
use brownie_os.Pmm.{Framemap}
use brownie_os.Pmm.Alloc.{Allocated}
use brownie_os.Kmm.{
  Header, Footer, Kmm, kheap_pages, kheap_at, kheap_init, align_size, kheap_magic_32,
  kheap_magic_64, alloc,
}
use brownie_os.Kmm.State.{blocks, block_size, block_used, IsHeap}
use brownie_os.Kmm.Init.{kheap_at-IsHeap, kheap_init-IsHeap}
use brownie_os.Kmm.Alloc.{Roomy}
use brownie_os.Kmm.Corrupt.{alloc-corrupts}
use brownie_os.Examples.Frames.{empty, empty-IsBytes, empty_unused}

abbrev no_header : ℕ → Header
no_header = λ a. record { size = 0; footer = 0; used = 0; magic = 0 }

abbrev no_footer : ℕ → Footer
no_footer = λ a. record { header = 0; res = 0; magic = 0 }

-- The heap over 1024 pages from 1 MiB on.
abbrev fresh : Kmm
fresh = kheap_at (256 * 4096) (λ i. 9) (λ i. 9) no_header no_footer

fresh_lem :
    IsHeap fresh
    × (blocks fresh ≡ 1)
    × (block_used fresh 0 ≡ 0)
    × (block_size fresh 0 ≡ 1024 * 4096 - 32)
fresh_lem = kheap_at-IsHeap 256 (omega arith) (λ i. 9) (λ i. 9) no_header no_footer

fresh-Roomy : (size i : ℕ) → i < blocks fresh → Roomy fresh size i
fresh-Roomy size i inside =
    let e : i ≡ 0 = omega (arith, fresh_lem.1) in rw e (inl (omega (arith, fresh_lem.3)))

kheap_init-IsHeap_example :
    (s : Kmm) × (m' : Framemap) × (first : ℕ) × (kheap_init
        (229376 + suc 0)
        empty
        (λ i. 9)
        (λ i. 9)
        no_header
        no_footer
      ≡ some (s, m'))
    × Allocated empty kheap_pages 0 229376 first m'
    × (s.heap.start ≡ first * 4096 + 0xC0000000)
    × IsHeap s
    × (blocks s ≡ 1)
    × (block_used s 0 ≡ 0)
    × (block_size s 0 ≡ 1024 * 4096 - 32)
kheap_init-IsHeap_example =
    kheap_init-IsHeap 0 256 empty (λ i. 9) (λ i. 9) no_header no_footer empty-IsBytes (omega arith)
      (λ j lo hi. empty_unused (j * 4096))

-- One free block of 64 bytes at 0xC0100000.
abbrev tiny : Kmm
tiny = record {
  heap = record {
    user = 0;
    rw_flag = 1;
    start = 0xC0100000;
    end = 0xC0100060;
    max_addr = 0xC0100060;
    header_array = record {
      array = λ i. 0xC0100000;
      size = 1;
      max_size = 4096;
      predicate = less_predicate;
    };
    footer_array = record {
      array = λ i. 0xC0100050;
      size = 1;
      max_size = 4096;
      predicate = less_predicate;
    };
    magic = kheap_magic_64;
  };
  hdr = λ a. record { size = 64; footer = 0xC0100050; used = 0; magic = kheap_magic_32 };
  ftr = λ a. record { header = 0xC0100000; res = 0; magic = kheap_magic_64 };
}

tiny-IsHeap : IsHeap tiny
tiny-IsHeap = record {
  magic = refl;
  headers = record { capacity = refl; fits = omega arith; ordering = refl };
  footers = record { capacity = refl; fits = omega arith; ordering = refl };
  sizes = refl;
  layout = record {
    some_blocks = omega arith;
    first = refl;
    last = refl;
    block = λ i inside. record {
      footer = refl;
      header = refl;
      header_magic = refl;
      footer_magic = refl;
      extent = refl;
      aligned = refl;
    };
    chain = λ i inside. absurd (omega arith);
    start_aligned = refl;
    top = omega arith;
  };
}

alloc-corrupts_example : ¬ IsHeap (alloc tiny 48).0
unfolding align_size
alloc-corrupts_example =
    alloc-corrupts 48 0 tiny-IsHeap (omega arith) (omega arith) (omega arith) refl (omega arith)
      (omega arith) (omega arith) (λ j h. absurd (omega (arith, h)))
