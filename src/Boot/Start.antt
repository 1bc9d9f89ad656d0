-- ===== src/Boot/Start.antt =====
-- paging_init, and a memory map's entry that is empty in its low words.
use brownie_os.Base.{
  ℕ, suc, ◌+◌, ◌*◌, ◌/◌, ◌%◌, ◌<◌, ◌≤◌, ◌≡◌, ◌≢◌, refl, ap, ◌∙◌, arith, true, ◌||◌, some, bit_and,
  add32, u32, ne→==, inl, inr, update_self,
}
use brownie_os.Libc.Memory.{Memory}
use brownie_os.Madt.{u32_at}
use brownie_os.Pmm.{Framemap, test_frame, alloc_pages, reserve}
use brownie_os.Pmm.Bitmap.{IsBytes}
use brownie_os.Pmm.Alloc.{alloc_pages-default}
use brownie_os.Pmm.Reserve.{reserve_lem, reserve-IsBytes, reserve-empty}
use brownie_os.Interrupts.{isr_set_handler}
use brownie_os.Tty.{terminal_initialize}
use brownie_os.Proc.{swap_dir}
use brownie_os.Paging.{frame_of, to_virt, to_phys, setup_kernel_directory}
use brownie_os.Paging.Walk.{walk}
use brownie_os.Paging.Setup.{setup_kernel_directory-window}
use brownie_os.Boot.{
  MmapEntry, mmap_entry_at, reserve_entry, Ended, Kernel, reserve_low, paging_init,
}
use brownie_os.Boot.Regions.{claimed, IsRegion, reserve_mem_map-claims}

-- The kernel after paging_init: the page fault's handler is set, CR3 holds the physical address of
-- the directory, the window onto the low 896 MiB stands, the terminal is blank, and the frames in
-- use are those from before, those below 4 MiB and those that the memory map claims.
pub record Started (page_fault directory n base : ℕ) (mem : Memory) (k k' : Kernel) : Type 0 where
  pub handler : k'.isr_handlers 14 ≡ page_fault
  pub loaded : k'.cr3 ≡ to_phys directory
  pub blank : k'.terminal ≡ terminal_initialize k.terminal
  pub window :
      (p : ℕ)
      → p < 939524096
      → (word : ℕ) × (walk k'.paging directory (to_virt p) ≡ some word)
        × (frame_of word ≡ p / 4096)
        × (word / 2 % 2 ≡ 1)
        × (to_virt p % 4096 ≡ p % 4096)
  pub bytes : IsBytes k'.paging.framemap
  pub low : (b : ℕ) → b < 4194304 → test_frame k'.paging.framemap b ≡ true
  pub high :
      (b : ℕ)
      → 4194304 ≤ b
      → test_frame k'.paging.framemap b ≡ (claimed mem n base b || test_frame k.paging.framemap b)

module _ (f page_fault directory tables mbd n : ℕ) (mem : Memory) (k : Kernel) where
  abbrev info : ℕ
  info = add32 mbd 0xC0000000

  abbrev base : ℕ
  base = add32 (u32_at mem (add32 mbd 0xC0000000) 48) 0xC0000000

  -- With the boot loader's magic number, a memory map as reserve_mem_map asks for, and an aligned
  -- array of page tables in the upper quarter of the address space, paging_init returns.
  pub paging_init-Started :
      tables % 4096 ≡ 0
      → 3221225472 ≤ tables
      → tables + 1048576 ≤ 4294967296
      → n < f
      → bit_and (u32_at mem info 0) 0x20 ≢ 0
      → u32_at mem info 44 ≡ n * 24
      → n * 24 < 4294967296
      → u32_at mem info 48 < 4294967296
      → base + n * 24 ≤ 4294967296
      → ((i : ℕ) → i < n → IsRegion (mmap_entry_at mem (base + i * 24)))
      → IsBytes k.paging.framemap
      → (k' : Kernel) × (paging_init f page_fault directory tables mbd 0x2BADB002 mem k
          ≡ Ended.returned k')
        × Started page_fault directory n base mem k k'
  unfolding paging_init isr_set_handler
  paging_init-Started aligned upper top enough given len small low_addr fits regions bytes =
      let map =
        reserve_mem_map-claims f mbd n mem k.paging.framemap enough given len small low_addr fits
          regions bytes in
      let mark =
        λ (b : ℕ). reserve_lem 0 0x400000 map.0 b map.2 (omega arith) (omega arith) (omega arith) in
      let k' : Kernel = record {
        isr_handlers = isr_set_handler 14 page_fault k.isr_handlers;
        paging = record (setup_kernel_directory directory tables k.paging) {
          framemap = reserve 0 0x400000 map.0;
        };
        cr3 = swap_dir directory;
        terminal = terminal_initialize k.terminal;
      } in
      (
        k',
        ap (reserve_low (record k' { paging = setup_kernel_directory directory tables k.paging }))
            map.1,
        record {
          handler = update_self k.isr_handlers 14 page_fault;
          loaded = refl;
          blank = refl;
          window =
              λ p h. setup_kernel_directory-window directory tables k.paging aligned upper top p h;
          bytes = reserve-IsBytes 0 0x400000 map.0 map.2;
          low = λ b h. mark b ∙ ground (arith, h);
          high = λ b h. mark b ∙ ground (arith, h, map.3 b);
        },
      )

-- Any other magic number ends in a panic.
pub paging_init-panics :
    (f page_fault directory tables mbd magic : ℕ) (mem : Memory) (k : Kernel)
    → magic ≢ 0x2BADB002
    → paging_init f page_fault directory tables mbd magic mem k ≡ Ended.panicked
unfolding paging_init
paging_init-panics f page_fault directory tables mbd magic mem k other =
    rw (ne→== magic 0x2BADB002 other) refl

-- An entry that is not available memory and whose low words are 0, as they are for a region at a
-- multiple of 4 GiB: reserve_mem_map marks every frame, and alloc_pages finds no low page any more.
pub reserve_entry-swamps :
    (extra : ℕ) (e : MmapEntry) (m : Framemap)
    → e.type ≢ 1
    → e.addr_low ≡ 0
    → e.len_low ≡ 0
    → IsBytes m
    → ((b : ℕ) → b < u32 → test_frame (reserve_entry e m) b ≡ true)
      × (alloc_pages (229376 + suc extra) 0 1 (reserve_entry e m) ≡ some (0, reserve_entry e m))
reserve_entry-swamps extra e m other start empty bytes =
    rw (ne→== e.type 1 other, start, empty)
      (
        λ b h. reserve-empty m b bytes h,
        elim (alloc_pages-default extra 1 (reserve 0 0 m) (reserve-IsBytes 0 0 m bytes)
            (omega arith) (omega arith)) [
              | inr (got, no_run) ↦ got
              | inl (first, m', got, al) ↦
                  let free = al.was_free first (omega arith) (omega arith) in
                  let used = reserve-empty m (first * 4096) bytes (omega (arith, al.below)) in
                  absurd (ground (arith, free, used))
            ],
      )
