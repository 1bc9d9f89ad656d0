-- ===== src/Examples/Regions.antt =====
-- Live regions of a heap of two blocks.
use brownie_os.Base.{ℕ, ◌+◌, ◌-◌, ◌*◌, ◌<◌, ◌≡◌, ◌⊎◌, inl, refl, arith, if◌then◌else◌, ◌==◌}
use brownie_os.OrderedArray.{less_predicate}
use brownie_os.Kmm.{Kmm, kheap_magic_32, kheap_magic_64, align_size, alloc, free, kmalloc}
use brownie_os.Kmm.State.{blocks, block_size, block_used, IsHeap}
use brownie_os.Kmm.Regions.{Live, Serves, IsServable, Releases, alloc-Serves, free-Releases}
use brownie_os.Kmm.History.{Step, Reach, Reach-Live}

-- Blocks of 1024 bytes at 0xC0100000, in use, and behind it, free.
abbrev pub pair : Kmm
pair = record {
  heap = record {
    user = 0;
    rw_flag = 1;
    start = 0xC0100000;
    end = 0xC0100840;
    max_addr = 0xC0100840;
    header_array = record {
      array = λ i. 0xC0100000 + i * 1056;
      size = 2;
      max_size = 4096;
      predicate = less_predicate;
    };
    footer_array = record {
      array = λ i. 0xC0100410 + i * 1056;
      size = 2;
      max_size = 4096;
      predicate = less_predicate;
    };
    magic = kheap_magic_64;
  };
  hdr = λ a. record {
    size = 1024;
    footer = a + 1040;
    used = if a == 0xC0100000 then 1 else 0;
    magic = kheap_magic_32;
  };
  ftr = λ a. record { header = a - 1040; res = 0; magic = kheap_magic_64 };
}

pair-IsHeap : IsHeap pair
pair-IsHeap = record {
  magic = refl;
  headers = record { capacity = refl; fits = omega arith; ordering = refl };
  footers = record { capacity = refl; fits = omega arith; ordering = refl };
  sizes = refl;
  layout = record {
    some_blocks = omega arith;
    first = refl;
    last = refl;
    block = λ i inside. record {
      footer = omega arith;
      header = omega arith;
      header_magic = refl;
      footer_magic = refl;
      extent = omega arith;
      aligned = refl;
    };
    chain = λ i inside. omega arith;
    start_aligned = refl;
    top = omega arith;
  };
}

pair-Live : Live pair 0xC0100010 1024
pair-Live = (0, omega arith, (λ e. omega (arith, e)), refl, refl)

pair-IsServable : IsServable pair 100
pair-IsServable i inside unused fits = inl (omega arith)

alloc-Serves_example :
    Serves pair 100 (alloc pair 100).0 (alloc pair 100).1
    ⊎ (((alloc pair 100).1 ≡ 0)
        × ((alloc pair 100).0 ≡ pair)
        × ((k : ℕ) → k < blocks pair → block_used pair k ≡ 0 → block_size pair k < align_size 100))
alloc-Serves_example =
    alloc-Serves 100 pair-IsHeap (omega arith) (omega arith) (omega arith) pair-IsServable

free-Releases_example : Releases pair 0xC0100010 (free pair 0xC0100010)
free-Releases_example = free-Releases pair-IsHeap pair-Live

-- One allocation behind the live region
one_call : Reach 0xC0100010 pair (kmalloc pair 100).0
one_call =
    Reach.next Reach.here
      (Step.allocate pair 100 (omega arith) (omega arith) (omega arith) pair-IsServable)

Reach-Live_example : IsHeap (kmalloc pair 100).0 × Live (kmalloc pair 100).0 0xC0100010 1024
Reach-Live_example = Reach-Live pair-IsHeap pair-Live one_call
