-- ===== src/Vmm.antt =====
-- kernel/kernel/mm/vmm.c and set_page of paging.c: temporary mappings of physical pages in the last
-- 32 page tables of the kernel directory. A page table entry is its 32-bit word, by the index of
-- the table and of the page; the kernel's tables are all there.
pub mod Window
use brownie_os.Base.{
  ℕ, zero, suc, ◌+◌, ◌-◌, ◌*◌, ◌/◌, ◌%◌, Bool, true, false, Option, none, some, ltb, ◌==◌,
  if◌then◌else◌, update, add32,
}

abbrev pub Tables : Type 0
Tables = ℕ → ℕ → ℕ

-- KERN_HIGHMEM_START_TBL, and KERN_IDENTITY_PHYS_END
abbrev pub highmem_start : ℕ
highmem_start = 992

abbrev pub identity_end : ℕ
identity_end = (992 - 768) * 4194304

-- `set_page`: the fields frame, present, rw and user of the word; bits 3 to 11 stay.
unfoldable pub set_page : (word frame present rw user : ℕ) → ℕ
set_page word frame present rw user =
    frame % 1048576 * 4096 + word / 8 % 512 * 8 + user * 4 + rw * 2 + present

-- The inner loop of `kmap`: the first free page of a table, from page `j` on with `n` left.
pub free_page : (n j : ℕ) → (ℕ → ℕ) → Option ℕ
free_page zero j table = none
free_page (suc n) j table =
    let rest = free_page n (j + 1) table in if table j == 0 then some j else rest

abbrev pub or_later : ℕ → Option ℕ → Option (ℕ × ℕ) → Option (ℕ × ℕ)
or_later i (some j) rest = some (i, j)
or_later i none rest = rest

-- The outer loop of `kmap`, from table `i` on with `n` left
pub free_slot : (n i : ℕ) → Tables → Option (ℕ × ℕ)
free_slot zero i tables = none
free_slot (suc n) i tables = or_later i (free_page 1024 0 (tables i)) (free_slot n (i + 1) tables)

-- `set_page(&table->pages[j], ...)` and the address returned
abbrev pub map_at : ℕ → Tables → Option (ℕ × ℕ) → ℕ × Tables
map_at paddr tables none = (0, tables)
map_at paddr tables (some (i, j)) = (
  i * 4194304 + j * 4096 + paddr % 4096,
  update tables i (update (tables i) j (set_page (tables i j) (paddr / 4096) 1 1 0)),
)

unfoldable pub kmap : (paddr : ℕ) → Tables → ℕ × Tables
kmap paddr tables =
    if paddr == 0
    then (0, tables)
    else if ltb paddr identity_end
    then (add32 paddr 0xC0000000, tables)
    else map_at paddr tables (free_slot (1024 - highmem_start) highmem_start tables)

unfoldable pub kunmap : (vaddr : ℕ) → Tables → Tables
kunmap vaddr tables =
    if vaddr == 0
    then tables
    else if ltb vaddr 0xC0000000
    then tables
    else let table = vaddr / 4194304 in
      let page = vaddr % 4194304 / 4096 in update tables table (update (tables table) page 0)
