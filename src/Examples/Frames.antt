-- ===== src/Examples/Frames.antt =====
-- The frame allocator on concrete bitmaps.
use brownie_os.Base.{
  ℕ, suc, ◌^◌, bit_and, ◌+◌, ◌-◌, ◌*◌, ◌/◌, ◌%◌, ◌≤◌, ◌<◌, ◌≡◌, refl, ◌⊎◌, not, ◌==◌, true, false,
  some, none, arith, ltb, if◌then◌else◌, holds_below, check_below,
}
use brownie_os.Pmm.{Framemap, alloc_pages, reserve, test_frame}
use brownie_os.Pmm.Bitmap.{IsBytes}
use brownie_os.Pmm.Range.{nframes}
use brownie_os.Pmm.Scan.{busy, FreeRun, NoRun}
use brownie_os.Pmm.Alloc.{Allocated, alloc_pages-default}
use brownie_os.Pmm.Highmem.{alloc_pages-highmem, alloc_pages-highmem-diverges}
use brownie_os.Pmm.Reserve.{reserve-misses}

abbrev pub empty : Framemap
empty = λ i. 0

pub empty-IsBytes : IsBytes empty
empty-IsBytes i = omega arith

abbrev full : Framemap
full = λ i. 255

-- All frames below 896 MiB free, all others used.
abbrev low_only : Framemap
low_only = λ i. if ltb i 28672 then 0 else 255

low_only-IsBytes : IsBytes low_only
low_only-IsBytes i = ground arith

empty_bit : (o : ℕ) → o < 8 → (bit_and 0 (2 ^ o) == 0) ≡ true
unfolding holds_below
empty_bit o h = check_below 8 (λ o. bit_and 0 (2 ^ o) == 0) o refl h

full_bit : (o : ℕ) → o < 8 → not (bit_and 255 (2 ^ o) == 0) ≡ true
unfolding holds_below
full_bit o h = check_below 8 (λ o. not (bit_and 255 (2 ^ o) == 0)) o refl h

pub empty_unused : (a : ℕ) → test_frame empty a ≡ false
unfolding test_frame
empty_unused a = rw (empty_bit (a / 4096 % 8) (omega arith)) refl

alloc_pages-default_example :
    ((first : ℕ) × (m' : Framemap) × (alloc_pages (229376 + suc 0) 0 3 low_only
        ≡ some (first * 4096, m'))
      × Allocated low_only 3 0 229376 first m')
    ⊎ ((alloc_pages (229376 + suc 0) 0 3 low_only ≡ some (0, low_only)) × NoRun low_only 0 229376 3)
alloc_pages-default_example =
    alloc_pages-default 0 3 low_only low_only-IsBytes (omega arith) (omega arith)

free_in_empty : FreeRun empty 300000 2
free_in_empty j lo hi = empty_unused (j * 4096)

all_busy : (n : ℕ) → n < nframes → busy full n ≡ true
unfolding test_frame
all_busy n h = full_bit (n * 4096 / 4096 % 8) (omega arith)

alloc_pages-highmem-diverges_example : alloc_pages 1000 1 1 full ≡ none
alloc_pages-highmem-diverges_example = alloc_pages-highmem-diverges full 1 all_busy 1000

high_busy : (n : ℕ) → 229376 ≤ n → n < nframes → busy low_only n ≡ true
unfolding test_frame
high_busy n lo hi =
    let high : ltb (n * 4096 / 4096 / 8) 28672 ≡ false = ground arith in
    rw high (full_bit (n * 4096 / 4096 % 8) (omega arith))

frame_40 : busy low_only 40 ≡ false
unfolding test_frame
frame_40 = refl

reserve-misses_example : test_frame (reserve 0x100800 0x1000 empty) (0x100800 + 0x1000 - 1) ≡ false
reserve-misses_example =
    reserve-misses 0x100800 0x1000 empty empty-IsBytes (omega arith) (omega arith) (omega arith)
      (empty_unused 0x1017FF)

-- Two frames of highmem, taken and given back.
two_frames :
    (first : ℕ) × (m' : Framemap) × (alloc_pages (819200 + 1) 1 2 empty ≡ some (first * 4096, m'))
    × Allocated empty 2 229376 nframes first m'
two_frames =
    alloc_pages-highmem 1 2 300000 empty empty-IsBytes (omega arith) (omega arith) (omega arith)
      (omega arith) free_in_empty
