-- ===== src/Kmm.antt =====
-- kernel/kernel/mm/kmm.c, kernel/include/mm/kmm.h: the kernel heap. A block is a 16 byte header,
-- its payload and a 16 byte footer. Memory is typed: `hdr` and `ftr` give the header or footer that
-- stands at an address, so a header and a footer that overlap are not modelled; no block layout
-- that the theorems speak of has such an overlap. The heap's two array pointers are the arrays.
pub mod Layout
pub mod Split
pub mod Merge
pub mod State
pub mod SplitBlock
pub mod Alloc
pub mod Corrupt
pub mod Coalesce
pub mod Merged
pub mod Free
pub mod Init
pub mod Regions
pub mod History
use brownie_os.Base.{
  ℕ, zero, suc, ◌+◌, ◌-◌, ◌*◌, ◌%◌, Bool, true, false, not, ◌&&◌, ◌||◌, Option, none, some, ltb,
  leb, ◌==◌, if◌then◌else◌, update, u32, add32, sub32,
}
use brownie_os.OrderedArray.{
  OrderedArray, init_ordered_array_place, insert_ordered_array, remove_ordered_array,
  get_ordered_array, find_ordered_array,
}
use brownie_os.Pmm.{Framemap, page_size, alloc_pages}

-- KHEAP_MAGIC_64, KHEAP_MAGIC_32
abbrev pub kheap_magic_64 : ℕ
kheap_magic_64 = 0xB10CB10CB10CB10C

abbrev pub kheap_magic_32 : ℕ
kheap_magic_32 = 0xB10CB10C

-- `header_t`
pub record Header : Type 0 where
  pub size : ℕ
  pub footer : ℕ
  pub used : ℕ
  pub magic : ℕ

-- `footer_t`
pub record Footer : Type 0 where
  pub header : ℕ
  pub res : ℕ
  pub magic : ℕ

-- `heap_t`
pub record Heap : Type 0 where
  pub user : ℕ
  pub rw_flag : ℕ
  pub start : ℕ
  pub end : ℕ
  pub max_addr : ℕ
  pub header_array : OrderedArray
  pub footer_array : OrderedArray
  pub magic : ℕ

-- The heap with the memory that its metadata stands in.
pub record Kmm : Type 0 where
  pub heap : Heap
  pub hdr : ℕ → Header
  pub ftr : ℕ → Footer

-- sizeof(header_t), sizeof(footer_t)
abbrev pub sizeof_header : ℕ
sizeof_header = 16

abbrev pub sizeof_footer : ℕ
sizeof_footer = 16

-- `kmm_prechecks`
unfoldable pub kmm_prechecks : Heap → Bool
kmm_prechecks h = (h.magic == kheap_magic_64) && (h.header_array.size == h.footer_array.size)

-- `kmm_checks`
unfoldable pub kmm_checks : Kmm → (header footer : ℕ) → Bool
kmm_checks s header footer =
    ((s.hdr header).magic == kheap_magic_32)
    && ((s.ftr footer).magic == kheap_magic_64)
    && ((s.hdr header).footer == footer)
    && ((s.ftr footer).header == header)

-- The split of `alloc_from_block`.
unfoldable pub split_block : Kmm → (header footer size : ℕ) → Kmm
split_block s header footer size =
    let new_footer = add32 (add32 header size) sizeof_header in
    let new_header = add32 new_footer sizeof_footer in
    let ftr₁ =
      update s.ftr new_footer (record { header = header; res = 0; magic = kheap_magic_64 }) in
    let hdr₁ = update s.hdr new_header (record {
      size = sub32 (s.hdr header).size (add32 (add32 size sizeof_header) sizeof_footer);
      footer = footer;
      used = 0;
      magic = kheap_magic_32;
    }) in
    let ftr₂ = update ftr₁ footer (record (ftr₁ footer) { header = new_header }) in
    let hdr₂ =
      update hdr₁ header (record (hdr₁ header) { size = size; footer = new_footer; used = 1 }) in
    record s {
      heap = record (s.heap) {
        header_array = (insert_ordered_array s.heap.header_array new_header).0;
        footer_array = (insert_ordered_array s.heap.footer_array new_footer).0;
      };
      hdr = hdr₂;
      ftr = ftr₂;
    }

-- `alloc_from_block`: the new state; the header is returned as it came. The test is on `size_t`.
unfoldable pub alloc_from_block : Kmm → (header footer size : ℕ) → Kmm
alloc_from_block s header footer size =
    if leb (sub32 (sub32 (sub32 (s.hdr header).size sizeof_header) sizeof_footer) 64) size
    then record s { hdr = update s.hdr header (record (s.hdr header) { used = 1 }) }
    else split_block s header footer size

-- The coalescing branch of `unify_left`: `prev` is the block to the left, at `index - 1`.
unfoldable pub coalesce_left : Kmm → (prev prev_footer header footer index : ℕ) → Kmm
coalesce_left s prev prev_footer header footer index =
    let grown =
      add32 (s.hdr prev).size (add32 (add32 (s.hdr header).size sizeof_header) sizeof_footer) in
    let hdr₁ = update s.hdr prev (record (s.hdr prev) { size = grown; footer = footer }) in
    let ftr₁ = update s.ftr footer (record (s.ftr footer) { header = prev }) in
    let hdr₂ = update hdr₁ header (record { size = 0; footer = 0; used = 0; magic = 0 }) in
    let ftr₂ = update ftr₁ prev_footer (record { header = 0; res = 0; magic = 0 }) in
    record s {
      heap = record (s.heap) {
        footer_array = remove_ordered_array s.heap.footer_array (sub32 index 1);
        header_array = remove_ordered_array s.heap.header_array index;
      };
      hdr = hdr₂;
      ftr = ftr₂;
    }

-- `unify_left`: the new state and the header returned.
unfoldable pub unify_left : Kmm → (header footer : ℕ) → Kmm × ℕ
unify_left s header footer =
    let index = find_ordered_array s.heap.header_array header in
    let prev = get_ordered_array s.heap.header_array (sub32 index 1) in
    if ltb 0 index
    then if (s.hdr prev).used == 0
      then (coalesce_left s prev (s.hdr prev).footer header footer index, prev)
      else (s, header)
    else (s, header)

-- The coalescing branch of `unify_right`: `next` is the block to the right, at `index + 1`.
unfoldable pub coalesce_right : Kmm → (next next_footer header footer index : ℕ) → Kmm
coalesce_right s next next_footer header footer index =
    let grown =
      add32 (s.hdr header).size (add32 (add32 (s.hdr next).size sizeof_header) sizeof_footer) in
    let hdr₁ = update s.hdr header (record (s.hdr header) { size = grown; footer = next_footer }) in
    let ftr₁ = update s.ftr next_footer (record (s.ftr next_footer) { header = header }) in
    let ftr₂ = update ftr₁ footer (record { header = 0; res = 0; magic = 0 }) in
    let hdr₂ = update hdr₁ next (record { size = 0; footer = 0; used = 0; magic = 0 }) in
    record s {
      heap = record (s.heap) {
        footer_array = remove_ordered_array s.heap.footer_array index;
        header_array = remove_ordered_array s.heap.header_array (add32 index 1);
      };
      hdr = hdr₂;
      ftr = ftr₂;
    }

-- `unify_right`; the footer that it returns is not used by its caller.
unfoldable pub unify_right : Kmm → (header footer : ℕ) → Kmm
unify_right s header footer =
    let index = find_ordered_array s.heap.header_array header in
    let next = get_ordered_array s.heap.header_array (add32 index 1) in
    if ltb index (sub32 s.heap.header_array.size 1)
    then if (s.hdr next).used == 0
      then coalesce_right s next (s.hdr next).footer header footer index
      else s
    else s

-- `unify`
unfoldable pub unify : Kmm → (header footer : ℕ) → Kmm
unify s header footer =
    let (s₁, kept) = unify_left s header footer in
    let s₂ = unify_right s₁ kept footer in
    record s₂ { hdr = update s₂.hdr kept (record (s₂.hdr kept) { used = 0 }) }

-- `if(size % 16 != 0) size += 16 - size % 16`
unfoldable pub align_size : ℕ → ℕ
align_size size = if size % 16 == 0 then size else add32 size (16 - size % 16)

-- Whether block `i` passes the tests of the search in `alloc`.
unfoldable pub suitable : Kmm → (size i : ℕ) → Bool
suitable s size i =
    let header = get_ordered_array s.heap.header_array i in
    let footer = get_ordered_array s.heap.footer_array i in
    not (not ((s.hdr header).used == 0) || ltb (s.hdr header).size size)
    && kmm_checks s header footer
    && leb size (s.hdr header).size

-- The search of `alloc` from block `i` with `n` blocks left: the new state and the payload
-- address, 0 for NULL.
unfoldable pub search_blocks : ℕ → Kmm → (size i : ℕ) → Kmm × ℕ
search_blocks zero s size i = (s, 0)
search_blocks (suc n) s size i =
    let rest = search_blocks n s size (i + 1) in
    let header = get_ordered_array s.heap.header_array i in
    let footer = get_ordered_array s.heap.footer_array i in
    if suitable s size i
    then (alloc_from_block s header footer size, add32 header sizeof_header)
    else rest

-- `alloc`
unfoldable pub alloc : Kmm → ℕ → Kmm × ℕ
alloc s size =
    if size == 0
    then (s, 0)
    else if not (kmm_prechecks s.heap)
    then (s, 0)
    else search_blocks s.heap.header_array.size s (align_size size) 0

-- `free`
unfoldable pub free : Kmm → ℕ → Kmm
free s ptr =
    let header = sub32 ptr sizeof_header in
    let footer = (s.hdr header).footer in
    if not (kmm_prechecks s.heap)
    then s
    else if not (kmm_checks s header footer)
    then s
    else unify s header footer

-- `kmalloc` and `kfree`, on the one kernel heap
abbrev pub kmalloc : Kmm → ℕ → Kmm × ℕ
kmalloc s size = alloc s size

abbrev pub kfree : Kmm → ℕ → Kmm
kfree s ptr = free s ptr

-- KHEAP_PAGES, and the capacity of the two pointer arrays
abbrev pub kheap_pages : ℕ
kheap_pages = 1024

abbrev pub array_capacity : ℕ
array_capacity = 4096

-- `kheap_init` from the address that `alloc_pages` gave: `hdr`, `ftr` and the two places are the
-- memory as it was.
unfoldable pub kheap_at :
    (paddr : ℕ) (header_place footer_place : ℕ → ℕ) (hdr : ℕ → Header) (ftr : ℕ → Footer) → Kmm
kheap_at paddr header_place footer_place hdr ftr =
    let start = add32 paddr 0xC0000000 in
    let end = add32 start (1024 * page_size) in
    let init_footer = sub32 end sizeof_footer in
    record {
      heap = record {
        user = 0;
        rw_flag = 1;
        start = start;
        end = end;
        max_addr = end;
        header_array =
            (insert_ordered_array (init_ordered_array_place header_place array_capacity) start).0;
        footer_array =
            (insert_ordered_array (init_ordered_array_place footer_place array_capacity)
              init_footer).0;
        magic = kheap_magic_64;
      };
      hdr = update hdr start (record {
        size = sub32 end (add32 (add32 start sizeof_header) sizeof_footer);
        footer = init_footer;
        used = 0;
        magic = kheap_magic_32;
      });
      ftr = update ftr init_footer (record { header = start; res = 0; magic = kheap_magic_64 });
    }

-- `kheap_init`: `alloc_pages(PMM_FLAGS_DEFAULT, KHEAP_PAGES)` is not checked for NULL.
unfoldable pub kheap_init :
    (fuel : ℕ)
    → Framemap
    → (header_place footer_place : ℕ → ℕ) (hdr : ℕ → Header) (ftr : ℕ → Footer)
    → Option (Kmm × Framemap)
kheap_init fuel m header_place footer_place hdr ftr = elim (alloc_pages fuel 0 kheap_pages m) [
  | none ↦ none
  | some (paddr, m') ↦ some (kheap_at paddr header_place footer_place hdr ftr, m')
]
