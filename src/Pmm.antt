-- ===== src/Pmm.antt =====
-- kernel/kernel/mm/paging.c, kernel/include/mm/paging.h: the physical frame bitmap, the page
-- allocator over it, and the reservation of regions.
pub mod Bitmap
pub mod Range
pub mod Scan
pub mod Alloc
pub mod Highmem
pub mod Reserve
use brownie_os.Base.{
  ℕ, zero, suc, ◌+◌, ◌-◌, ◌*◌, ◌/◌, ◌%◌, ◌^◌, bit_and, bit_or, Bool, true, false, not, Option, none,
  some, ltb, ◌==◌, if◌then◌else◌, update, u32, add32, sub32, mul32,
}

-- `framemap[NFRAMES]`, by index
abbrev pub Framemap : Type 0
Framemap = ℕ → ℕ

abbrev pub page_size : ℕ
page_size = 4096

-- `EOM`
abbrev pub end_of_memory : ℕ
end_of_memory = 4294967295

-- `KERN_IDENTITY_PHYS_END`, (992 - 768) * 0x400000
abbrev pub identity_phys_end : ℕ
identity_phys_end = 939524096

-- `PAGE_FRAME`, `PAGE_FRAME_BITMAP_IDX`, `PAGE_FRAME_BITMAP_OFF`
abbrev pub page_frame : ℕ → ℕ
page_frame x = x / 4096

abbrev pub bitmap_idx : ℕ → ℕ
bitmap_idx x = x / 8

abbrev pub bitmap_off : ℕ → ℕ
bitmap_off x = x % 8

-- `PAGE_ROUND_DOWN`, `PAGE_ROUND_UP`
unfoldable pub page_round_down : ℕ → ℕ
page_round_down x = bit_and x 0xFFFFF000

unfoldable pub page_round_up : ℕ → ℕ
page_round_up x = if x % 4096 == 0 then x else add32 (bit_and x 0xFFFFF000) 4096

-- `framemap[index] |= (0x1 << offset)`, kept to a byte
unfoldable pub set_frame : Framemap → ℕ → Framemap
set_frame m addr =
    let frame = page_frame addr in
    let index = bitmap_idx frame in
    let offset = bitmap_off frame in update m index (bit_or (m index) (2 ^ offset) % 256)

-- `framemap[index] &= ~(0x1 << offset)`
unfoldable pub clear_frame : Framemap → ℕ → Framemap
clear_frame m addr =
    let frame = page_frame addr in
    let index = bitmap_idx frame in
    let offset = bitmap_off frame in
    update m index (bit_and (m index) (4294967295 - 2 ^ offset) % 256)

-- `framemap[index] & (0x1 << offset)`, as a `bool`
unfoldable pub test_frame : Framemap → ℕ → Bool
test_frame m addr =
    let frame = page_frame addr in not (bit_and (m (bitmap_idx frame)) (2 ^ bitmap_off frame) == 0)

-- `for(i = 0; i < count; i++) set_frame(base + i * PAGE_SIZE)`, from `i` on with `n` rounds left
pub set_frames : ℕ → ℕ → ℕ → Framemap → Framemap
set_frames zero i base m = m
set_frames (suc n) i base m =
    set_frames n (i + 1) base (set_frame m (add32 base (mul32 i page_size)))

pub clear_frames : ℕ → ℕ → ℕ → Framemap → Framemap
clear_frames zero i base m = m
clear_frames (suc n) i base m =
    clear_frames n (i + 1) base (clear_frame m (add32 base (mul32 i page_size)))

-- The search loop of `alloc_pages`, on fuel; `none` means that it is still running. `paddr` is a
-- `uint32_t`, so it goes on at 0 past the last page.
pub scan : ℕ → Framemap → (count end contig paddr : ℕ) → Option (ℕ × Framemap)
scan zero m count end contig paddr = none
scan (suc f) m count end contig paddr =
    let next = add32 paddr page_size in
    let more = add32 contig 1 in
    let longer = scan f m count end more next in
    let again = scan f m count end 0 next in
    let base = sub32 paddr (mul32 (sub32 count 1) page_size) in
    if ltb paddr end
    then if not (test_frame m paddr)
      then if more == count then some (base, set_frames count 0 base m) else longer
      else again
    else some (0, m)

-- `alloc_pages`: the base address and the new bitmap; base 0 is NULL.
unfoldable pub alloc_pages : ℕ → (flags count : ℕ) → Framemap → Option (ℕ × Framemap)
unfolding scan set_frames
alloc_pages fuel flags count m =
    if not (bit_and flags 1 == 0)
    then scan fuel m count end_of_memory 0 identity_phys_end
    else scan fuel m count identity_phys_end 0 0

-- `free_pages`
unfoldable pub free_pages : (frame count : ℕ) → Framemap → Framemap
unfolding clear_frames
free_pages frame count m = clear_frames count 0 (mul32 frame page_size) m

-- The loop of `reserve`, over a `uint64_t` address, on fuel.
pub reserve_from : ℕ → (addr end : ℕ) → Framemap → Framemap
reserve_from zero addr end m = m
reserve_from (suc f) addr end m =
    let rest = reserve_from f (addr + page_size) end (set_frame m (addr % u32)) in
    if ltb addr end then rest else m

-- `reserve`: from `start` to `end` there are at most 2 ^ 20 pages.
unfoldable pub reserve : (start length : ℕ) → Framemap → Framemap
reserve start length m =
    let first = page_round_down start in
    let end = sub32 (add32 first (page_round_up length)) 1 in reserve_from 1048576 first end m
