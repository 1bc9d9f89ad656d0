-- ===== src/Boot.antt =====
-- kernel/kernel/mm/paging.c: reserve_mem_map over the boot loader's memory map
-- (kernel/include/core/multiboot.h), and paging_init. `mem` is memory as the kernel sees it, by
-- virtual address, a byte each.
pub mod Regions
pub mod Start
use brownie_os.Base.{
  ℕ, zero, suc, ◌+◌, ◌*◌, ◌%◌, Bool, not, Option, none, some, ltb, ◌==◌, bit_and, if◌then◌else◌,
  add32, sub32,
}
use brownie_os.Libc.Memory.{Memory}
use brownie_os.Madt.{u32_at}
use brownie_os.Pmm.{Framemap, reserve}
use brownie_os.Paging.{Paging, setup_kernel_directory}
use brownie_os.Proc.{swap_dir}
use brownie_os.Interrupts.{isr_set_handler}
use brownie_os.Tty.{Terminal, terminal_initialize}

-- The fields of `struct multiboot_mmap_entry` that are used
pub record MmapEntry : Type 0 where
  pub addr_low : ℕ
  pub len_low : ℕ
  pub type : ℕ

abbrev pub mmap_entry_at : Memory → ℕ → MmapEntry
mmap_entry_at mem p = record {
  addr_low = u32_at mem p 4;
  len_low = u32_at mem p 12;
  type = u32_at mem p 20;
}

-- `if(mmap->type != 1) reserve(mmap->addr_low, mmap->len_low);`
abbrev pub reserve_entry : MmapEntry → Framemap → Framemap
reserve_entry e m = if not (e.type == 1) then reserve e.addr_low e.len_low m else m

-- The loop, on fuel; `none` means that it is still running.
pub reserve_entries : (f i mmap_length mmap_addr : ℕ) → Memory → Framemap → Option Framemap
reserve_entries zero i mmap_length mmap_addr mem m = none
reserve_entries (suc f) i mmap_length mmap_addr mem m =
    let mmap = mmap_entry_at mem (add32 (add32 mmap_addr i) 0xC0000000) in
    let rest = reserve_entries f (add32 i 24) mmap_length mmap_addr mem (reserve_entry mmap m) in
    if ltb i mmap_length then rest else some m

-- How a function ends that may panic, or that is still running
pub data Ended (A : Type 0) : Type 0 where
  returned : A → Ended A
  panicked : Ended A
  running : Ended A

abbrev pub ended : {A : Type 0} → Option A → Ended A
ended none = Ended.running
ended (some a) = Ended.returned a

-- `reserve_mem_map`
unfoldable pub reserve_mem_map : (f mbd : ℕ) → Memory → Framemap → Ended Framemap
unfolding reserve_entries
reserve_mem_map f mbd mem m =
    let mbd' = add32 mbd 0xC0000000 in
    if bit_and (u32_at mem mbd' 0) 0x20 == 0
    then Ended.panicked
    else ended (reserve_entries f 0 (u32_at mem mbd' 44) (u32_at mem mbd' 48) mem m)

-- What `paging_init` works on: the handlers' table, the page structures, CR3 and the terminal
pub record Kernel : Type 0 where
  pub isr_handlers : ℕ → ℕ
  pub paging : Paging
  pub cr3 : ℕ
  pub terminal : Terminal

-- What is left once the memory map is reserved: `reserve(0, PAGE_TABLE_SIZE)`
abbrev pub reserve_low : Kernel → Ended Framemap → Ended Kernel
reserve_low k (Ended.returned m) =
    Ended.returned (record k { paging = record (k.paging) { framemap = reserve 0 0x400000 m } })
reserve_low k Ended.panicked = Ended.panicked
reserve_low k Ended.running = Ended.running

-- `paging_init`: `page_fault`, `kernel_directory_aligned` and `kernel_page_tables` by their
-- addresses
unfoldable pub paging_init :
    (f page_fault directory tables mbd magic : ℕ) → Memory → Kernel → Ended Kernel
paging_init f page_fault directory tables mbd magic mem k =
    let set = isr_set_handler 14 page_fault k.isr_handlers in
    if not (magic == 0x2BADB002)
    then Ended.panicked
    else reserve_low
        (record {
          isr_handlers = set;
          paging = setup_kernel_directory directory tables k.paging;
          cr3 = swap_dir directory;
          terminal = terminal_initialize k.terminal;
        })
        (reserve_mem_map f mbd mem k.paging.framemap)
