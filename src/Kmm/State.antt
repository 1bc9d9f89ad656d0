-- ===== src/Kmm/State.antt =====
-- A well-formed heap, and that its blocks pass the checks of the code.
use brownie_os.Base.{ℕ, ◌≤◌, ◌<◌, ◌≡◌, arith, true}
use brownie_os.OrderedArray.{OrderedArray, less_predicate, find_ordered_array}
use brownie_os.OrderedArray.Find.{find_ordered_array_index}
use brownie_os.Kmm.{Header, Footer, Kmm, kheap_magic_64, array_capacity, kmm_prechecks, kmm_checks}
use brownie_os.Kmm.Layout.{IsBlock, Layout, header-injective}

abbrev pub blocks : Kmm → ℕ
blocks s = s.heap.header_array.size

-- The addresses of the header and the footer of block `i`.
abbrev pub header_at : Kmm → ℕ → ℕ
header_at s i = s.heap.header_array.array i

abbrev pub footer_at : Kmm → ℕ → ℕ
footer_at s i = s.heap.footer_array.array i

abbrev pub block_size : Kmm → ℕ → ℕ
block_size s i = (s.hdr (header_at s i)).size

abbrev pub block_used : Kmm → ℕ → ℕ
block_used s i = (s.hdr (header_at s i)).used

-- Both arrays have room for 4096 entries and keep them in ascending order.
pub record IsTable (o : OrderedArray) : Type 0 where
  pub capacity : o.max_size ≡ array_capacity
  pub fits : o.size ≤ array_capacity
  pub ordering : o.predicate ≡ less_predicate

pub record IsHeap (s : Kmm) : Type 0 where
  pub magic : s.heap.magic ≡ kheap_magic_64
  pub headers : IsTable s.heap.header_array
  pub footers : IsTable s.heap.footer_array
  pub sizes : s.heap.footer_array.size ≡ blocks s
  pub layout : Layout s.heap.start s.heap.end (blocks s) (header_at s) (footer_at s) s.hdr s.ftr

module _ {s : Kmm} (v : IsHeap s) where
  pub kmm_prechecks-true : kmm_prechecks s.heap ≡ true
  unfolding kmm_prechecks
  kmm_prechecks-true = ground (arith, v.magic, v.sizes)

  pub kmm_checks-true : (i : ℕ) → i < blocks s → kmm_checks s (header_at s i) (footer_at s i) ≡ true
  unfolding kmm_checks
  kmm_checks-true i inside =
      let b = v.layout.block i inside in
      ground (arith, b.header_magic, b.footer_magic, b.footer, b.header)

  -- The search of the header array finds each block.
  pub find_header :
      (i : ℕ) → i < blocks s → find_ordered_array s.heap.header_array (header_at s i) ≡ i
  find_header i inside =
      find_ordered_array_index s.heap.header_array i inside
        (λ j hj e. header-injective v.layout j i hj inside e)

-- A change of the memory that keeps every block keeps the heap well-formed.
pub IsHeap-blocks :
    {s : Kmm} (hdr' : ℕ → Header) (ftr' : ℕ → Footer)
    → IsHeap s
    → ((i : ℕ)
        → i < blocks s
        → IsBlock (hdr' (header_at s i)) (ftr' (footer_at s i)) (header_at s i) (footer_at s i))
    → IsHeap (record s { hdr = hdr'; ftr = ftr' })
IsHeap-blocks hdr' ftr' v same = record {
  magic = v.magic;
  headers = v.headers;
  footers = v.footers;
  sizes = v.sizes;
  layout = record {
    some_blocks = v.layout.some_blocks;
    first = v.layout.first;
    last = v.layout.last;
    block = same;
    chain = v.layout.chain;
    start_aligned = v.layout.start_aligned;
    top = v.layout.top;
  };
}
