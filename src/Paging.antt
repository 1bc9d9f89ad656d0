-- ===== src/Paging.antt =====
-- kernel/kernel/mm/paging.c, kernel/include/mm/paging.h and proc_map_pages of
-- kernel/kernel/proc/proc.c: page directories and page tables. Entries are 32-bit words with the
-- bits of struct page_dir_entry and struct page; directories and tables stand at kernel virtual
-- addresses. `fuel` bounds the search of alloc_pages; `none` means that it is still running.
pub mod Setup
pub mod Walk
pub mod Open
pub mod Table
pub mod Map
pub mod Range
pub mod Clone
use brownie_os.Base.{
  ℕ, zero, suc, ◌+◌, ◌-◌, ◌*◌, ◌/◌, ◌%◌, Bool, true, false, not, ◌||◌, Option, none, some, leb, ltb,
  ◌==◌, if◌then◌else◌, update, add32, sub32, mul32,
}
use brownie_os.Pmm.{Framemap, alloc_pages, page_frame}
use brownie_os.Vmm.{set_page}

-- `struct page_directory`: the entries' words, and the addresses of the tables
pub record Directory : Type 0 where
  pub page_dir_entries : ℕ → ℕ
  pub tables : ℕ → ℕ

-- The frame bitmap, the directories and the tables at their addresses
pub record Paging : Type 0 where
  pub framemap : Framemap
  pub directories : ℕ → Directory
  pub page_tables : ℕ → ℕ → ℕ

-- KERN_START_TBL, KERN_HIGHMEM_START_TBL, PAGE_DIR_IDX, PAGE_TBL_IDX, KV2P, KP2V
abbrev pub kern_start_tbl : ℕ
kern_start_tbl = 768

abbrev pub highmem_table : ℕ
highmem_table = 992

abbrev pub dir_idx : ℕ → ℕ
dir_idx x = x / 4194304

abbrev pub tbl_idx : ℕ → ℕ
tbl_idx x = x % 4194304 / 4096

abbrev pub to_phys : ℕ → ℕ
to_phys x = sub32 x 0xC0000000

abbrev pub to_virt : ℕ → ℕ
to_virt x = add32 x 0xC0000000

-- The fields present and frame of an entry
abbrev pub present : ℕ → Bool
present word = not (word % 2 == 0)

abbrev pub frame_of : ℕ → ℕ
frame_of word = word / 4096

abbrev pub flag : Bool → ℕ
flag true = 1
flag false = 0

-- `copy_page_table_entries`: the loop over 1024 entries, with `n` rounds done
pub copied_entries : (n : ℕ) → (src dest : ℕ → ℕ) → ℕ → ℕ
copied_entries zero src dest = dest
copied_entries (suc n) src dest = update (copied_entries n src dest) n (src n)

unfoldable pub copy_page_table_entries : (src dest : ℕ) → Paging → Paging
copy_page_table_entries src dest s = record s {
  page_tables =
      update s.page_tables dest (copied_entries 1024 (s.page_tables src) (s.page_tables dest));
}

-- The inner loop of `setup_kernel_directory` for the table of the entry `i`, with `n` rounds done
pub identity_pages : (n i : ℕ) → (ℕ → ℕ) → ℕ → ℕ
identity_pages zero i table = table
identity_pages (suc n) i table =
    let before = identity_pages n i table in
    if ltb i highmem_table
    then update before n
        (set_page (before n) ((i - kern_start_tbl) * 1024 + n) 1 1 (before n / 4 % 2))
    else before

-- The outer loop, with `n` rounds done: `kernel_page_tables` is an array of tables of 4096 bytes.
pub kernel_entries : (n kernel_directory kernel_page_tables : ℕ) → Paging → Paging
kernel_entries zero kernel_directory kernel_page_tables s = s
kernel_entries (suc n) kernel_directory kernel_page_tables s =
    let t = kernel_entries n kernel_directory kernel_page_tables s in
    let i = kern_start_tbl + n in
    let cur_table = kernel_page_tables + n * 4096 in
    let dir = t.directories kernel_directory in
    let word = dir.page_dir_entries i in
    record t {
      directories = update t.directories kernel_directory (record {
        page_dir_entries =
            update dir.page_dir_entries i
              (set_page word (page_frame (to_phys cur_table)) 1 1 (word / 4 % 2));
        tables = update dir.tables i cur_table;
      });
      page_tables =
          update t.page_tables cur_table (identity_pages 1024 i (t.page_tables cur_table));
    }

unfoldable pub setup_kernel_directory : (kernel_directory kernel_page_tables : ℕ) → Paging → Paging
setup_kernel_directory kernel_directory kernel_page_tables s =
    kernel_entries (1024 - kern_start_tbl) kernel_directory kernel_page_tables s

-- The entry gets the new table: present, writable and for the user. The table is all zeros.
abbrev pub add_table : (dir_at pd_idx table_phys : ℕ) → Paging → Paging
add_table dir_at pd_idx table_phys s =
    let dir = s.directories dir_at in
    record s {
      directories = update s.directories dir_at (record {
        page_dir_entries =
            update dir.page_dir_entries pd_idx
              (set_page (dir.page_dir_entries pd_idx) (page_frame table_phys) 1 1 1);
        tables = update dir.tables pd_idx (to_virt table_phys);
      });
      page_tables = update s.page_tables (to_virt table_phys) (λ j. 0);
    }

-- `if (writable) entry->rw = 1; entry->user = 1;`
abbrev pub open_entry : (dir_at pd_idx : ℕ) (writable : Bool) → Paging → Paging
open_entry dir_at pd_idx writable s =
    let dir = s.directories dir_at in
    let word = dir.page_dir_entries pd_idx in
    let rw_bit = if writable then 1 else word / 2 % 2 in
    record s {
      directories = update s.directories dir_at (record dir {
        page_dir_entries =
            update dir.page_dir_entries pd_idx (word / 8 * 8 + 4 + rw_bit * 2 + word % 2);
      });
    }

-- `set_page(&table->pages[pt_idx], PAGE_FRAME(phys_addr), true, writable, true)`
abbrev pub put_page : (table pt_idx phys_addr : ℕ) (writable : Bool) → Paging → Paging
put_page table pt_idx phys_addr writable s = record s {
  page_tables = update s.page_tables table (
      update (s.page_tables table) pt_idx
        (set_page (s.page_tables table pt_idx) (page_frame phys_addr) 1 (flag writable) 1));
}

-- What follows the allocation of a table, which may have failed
abbrev pub with_table :
    (dir_at pd_idx : ℕ)
    → Paging
    → Option (ℕ × Framemap)
    → (Paging → ℕ → Bool × Paging)
    → Option (Bool × Paging)
with_table dir_at pd_idx s none go = none
with_table dir_at pd_idx s (some (table_phys, m)) go =
    if table_phys == 0
    then some (false, record s { framemap = m })
    else some
        (go (add_table dir_at pd_idx table_phys (record s { framemap = m })) (to_virt table_phys))

-- One round of `proc_map_pages`; `false` stands for the return of -1.
unfoldable pub map_page :
    (fuel dir_at virt_addr phys_addr : ℕ) (writable : Bool) → Paging → Option (Bool × Paging)
map_page fuel dir_at virt_addr phys_addr writable s =
    let pd_idx = dir_idx virt_addr in
    let pt_idx = tbl_idx virt_addr in
    let dir = s.directories dir_at in
    if not (present (dir.page_dir_entries pd_idx))
    then with_table dir_at pd_idx s (alloc_pages fuel 0 1 s.framemap)
        (λ t table. (true, put_page table pt_idx phys_addr writable t))
    else if dir.tables pd_idx == 0
    then some (false, s)
    else some (
      true,
      put_page (dir.tables pd_idx) pt_idx phys_addr writable (open_entry dir_at pd_idx writable s),
    )

-- The next rounds, unless the last one has returned
abbrev pub go_on :
    Option (Bool × Paging) → (Paging → Option (Bool × Paging)) → Option (Bool × Paging)
go_on none next = none
go_on (some (false, s)) next = some (false, s)
go_on (some (true, s)) next = next s

-- The loop, from `i` on with `n` rounds left
pub map_pages : (n i fuel dir_at virt phys : ℕ) (writable : Bool) → Paging → Option (Bool × Paging)
map_pages zero i fuel dir_at virt phys writable s = some (true, s)
map_pages (suc n) i fuel dir_at virt phys writable s =
    go_on (map_page fuel dir_at (add32 virt (mul32 i 4096)) (add32 phys (mul32 i 4096)) writable s)
      (λ t. map_pages n (i + 1) fuel dir_at virt phys writable t)

-- `proc_map_pages`, by the address of the process and of its page directory, without the flush of
-- the TLB
unfoldable pub proc_map_pages :
    (fuel proc dir_at virt phys pages : ℕ) (writable : Bool) → Paging → Option (Bool × Paging)
unfolding map_pages
proc_map_pages fuel proc dir_at virt phys pages writable s =
    if (proc == 0) || (dir_at == 0) || (pages == 0)
    then some (false, s)
    else map_pages pages 0 fuel dir_at virt phys writable s
