-- ===== src/Paging/Clone.antt =====
-- clone_page_dir of kernel/kernel/mm/paging.c: the kernel's entries are shared, the pages of a
-- process are copied through temporary mappings. The kernel directory's tables from 992 on are
-- `window`; `ram` is the content of the physical frames, by frame and offset.
pub mod Shared
use brownie_os.Base.{
  ℕ, zero, suc, ◌+◌, ◌-◌, ◌*◌, ◌/◌, ◌%◌, Bool, not, Option, none, some, leb, ltb, ◌==◌,
  if◌then◌else◌, update,
}
use brownie_os.Pmm.{Framemap, alloc_pages, page_frame}
use brownie_os.Vmm.{Tables, kmap, kunmap}
use brownie_os.Vmm.Window.{entry_of}
use brownie_os.Boot.{Ended}
use brownie_os.Paging.{Directory, Paging, kern_start_tbl, present, frame_of, to_phys, to_virt}
use brownie_os.Paging.Walk.{entry, walk}

pub record Cloning : Type 0 where
  pub paging : Paging
  pub window : Tables
  pub ram : ℕ → ℕ → ℕ

-- The rest of a computation, unless it panicked or is still running
abbrev pub and_then : {A B : Type 0} → Ended A → (A → Ended B) → Ended B
and_then (Ended.returned a) next = next a
and_then Ended.panicked next = Ended.panicked
and_then Ended.running next = Ended.running

-- `alloc_pages(flags, 1)`
abbrev pub allocated : Cloning → Option (ℕ × Framemap) → Ended (ℕ × Cloning)
allocated c none = Ended.running
allocated c (some (paddr, m)) =
    Ended.returned (paddr, record c { paging = record (c.paging) { framemap = m } })

abbrev pub alloc_page : (fuel flags : ℕ) → Cloning → Ended (ℕ × Cloning)
alloc_page fuel flags c = allocated c (alloc_pages fuel flags 1 c.paging.framemap)

abbrev pub found_frame : Option ℕ → Ended ℕ
found_frame none = Ended.panicked
found_frame (some word) = Ended.returned (frame_of word)

-- The frame that a virtual address lies in, while the directory at `loaded` is in CR3: the address
-- space of a process, the window onto low memory, or a temporary mapping; else it is a page fault.
abbrev pub frame_at : (loaded vaddr : ℕ) → Cloning → Ended ℕ
frame_at loaded vaddr c =
    if ltb vaddr 0xC0000000
    then found_frame (walk c.paging loaded vaddr)
    else if ltb vaddr 0xF8000000
    then Ended.returned ((vaddr - 0xC0000000) / 4096)
    else if present (entry_of c.window vaddr)
    then Ended.returned (frame_of (entry_of c.window vaddr))
    else Ended.panicked

-- `kmap(paddr)`, `memcpy` of a page, `kunmap`
unfoldable pub copy_page : (loaded src_page_vaddr paddr : ℕ) → Cloning → Ended Cloning
copy_page loaded src_page_vaddr paddr c =
    let mapped = kmap paddr c.window in
    let c₁ : Cloning = record c { window = mapped.1 } in
    and_then (frame_at loaded mapped.0 c₁) (λ to.
      and_then (frame_at loaded src_page_vaddr c₁) (λ from.
        Ended.returned
          (record c { window = kunmap mapped.0 mapped.1; ram = update c.ram to (c.ram from) })))

-- Bits 3 and 4, accessed and dirty, are cleared, and the frame is written.
abbrev pub moved_page : (word frame : ℕ) → ℕ
moved_page word frame = frame % 1048576 * 4096 + word % 4096 / 32 * 32 + word % 8

-- The body of the loop over the pages of the entry `i`
unfoldable pub clone_page : (fuel loaded src dest i j : ℕ) → Cloning → Ended Cloning
clone_page fuel loaded src dest i j c =
    let word = c.paging.page_tables ((c.paging.directories src).tables i) j in
    if frame_of word == 0
    then Ended.returned c
    else and_then (alloc_page fuel 1 c) (λ got.
      and_then (copy_page loaded (i * 4194304 + j * 4096) got.0 got.1) (λ t.
        let table = (t.paging.directories dest).tables i in
        Ended.returned (record t {
          paging = record (t.paging) {
            page_tables =
                update t.paging.page_tables table
                  (update (t.paging.page_tables table) j (moved_page word (got.0 / 4096)));
          };
        })))

-- The loop, from `j` on with `n` rounds left
pub clone_pages : (n j fuel loaded src dest i : ℕ) → Cloning → Ended Cloning
clone_pages zero j fuel loaded src dest i c = Ended.returned c
clone_pages (suc n) j fuel loaded src dest i c =
    and_then (clone_page fuel loaded src dest i j c)
      (λ t. clone_pages n (j + 1) fuel loaded src dest i t)

-- The directory at `dest` gets an entry and the address of its table.
abbrev pub set_entry : (dest i word table : ℕ) → Cloning → Cloning
set_entry dest i word table c =
    let dir = c.paging.directories dest in
    record c {
      paging = record (c.paging) {
        directories = update c.paging.directories dest (record {
          page_dir_entries = update dir.page_dir_entries i word;
          tables = update dir.tables i table;
        });
      };
    }

-- Bit 5, accessed, is cleared, and the frame is written.
abbrev pub moved_entry : (word frame : ℕ) → ℕ
moved_entry word frame = frame % 1048576 * 4096 + word % 4096 / 64 * 64 + word % 32

-- The body of the loop of `clone_page_dir`. The new table is not cleared.
unfoldable pub clone_entry : (fuel loaded src dest i : ℕ) → Cloning → Ended Cloning
unfolding clone_pages
clone_entry fuel loaded src dest i c =
    let word = entry c.paging src i in
    if leb kern_start_tbl i
    then Ended.returned (set_entry dest i word ((c.paging.directories src).tables i) c)
    else if frame_of word == 0
    then Ended.returned c
    else and_then (alloc_page fuel 0 c) (λ got.
      let table = to_virt got.0 in
      clone_pages 1024 0 fuel loaded src dest i
        (set_entry dest i (moved_entry word (page_frame (to_phys table))) table got.1))

-- The loop, from `i` on with `n` rounds left
pub clone_entries : (n i fuel loaded src dest : ℕ) → Cloning → Ended Cloning
clone_entries zero i fuel loaded src dest c = Ended.returned c
clone_entries (suc n) i fuel loaded src dest c =
    and_then (clone_entry fuel loaded src dest i c)
      (λ t. clone_entries n (i + 1) fuel loaded src dest t)

unfoldable pub clone_page_dir : (fuel loaded src dest : ℕ) → Cloning → Ended Cloning
unfolding clone_entries
clone_page_dir fuel loaded src dest c = clone_entries 1024 0 fuel loaded src dest c
