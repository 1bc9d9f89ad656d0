-- ===== src/Examples/Pages.antt =====
-- Page directories and the start of paging on concrete states.
use brownie_os.Base.{
  ◌≤◌, ℕ, zero, suc, ◌+◌, ◌*◌, ◌<◌, ◌≡◌, refl, arith, true, some, if◌then◌else◌, ◌==◌, u32,
}
use brownie_os.Libc.Memory.{Memory}
use brownie_os.Pmm.{Framemap, test_frame, alloc_pages}
use brownie_os.Pmm.Bitmap.{IsBytes}
use brownie_os.Paging.{Paging, proc_map_pages}
use brownie_os.Paging.Walk.{walk, IsDirectory}
use brownie_os.Paging.Range.{Looped, proc_map_pages-Looped}
use brownie_os.Paging.Clone.{Cloning, clone_page_dir}
use brownie_os.Paging.Clone.Shared.{clone_page_dir-shares}
use brownie_os.Proc.Create.{Os}
use brownie_os.Examples.Processes.{two}
use brownie_os.Examples.Regions.{pair}
use brownie_os.Boot.{MmapEntry, mmap_entry_at, reserve_entry, Ended, Kernel, paging_init}
use brownie_os.Boot.Regions.{IsRegion}
use brownie_os.Boot.Start.{Started, paging_init-Started, reserve_entry-swamps}
use brownie_os.Examples.Frames.{empty, empty-IsBytes}

-- The frames 0 to 7 are in use, no entry is present.
abbrev low_used : Framemap
low_used = λ i. if i == 0 then 255 else 0

low_used-IsBytes : IsBytes low_used
low_used-IsBytes i = ground arith

abbrev pub bare : Paging
bare = record {
  framemap = low_used;
  directories = λ a. record { page_dir_entries = λ i. 0; tables = λ i. 0 };
  page_tables = λ a i. 0;
}

frame_0_used : test_frame low_used 0 ≡ true
unfolding test_frame
frame_0_used = refl

pub bare-IsDirectory : (dir_at : ℕ) → IsDirectory bare dir_at
bare-IsDirectory dir_at = record {
  bytes = low_used-IsBytes;
  null_used = frame_0_used;
  low = λ d p. omega arith;
  linked = λ d p. absurd (ground (arith, p));
  used = λ d p. absurd (ground (arith, p));
  apart = λ d e p q same. absurd (ground (arith, p));
}

proc_map_pages-Looped_example :
    Looped bare 0xC0500000 0x400000 0x40000000 0 3 true
      (proc_map_pages (229376 + suc 0) 0xC0600000 0xC0500000 0x400000 0x40000000 3 true bare)
proc_map_pages-Looped_example =
    proc_map_pages-Looped 0 0xC0600000 0xC0500000 0x400000 0x40000000 3 true bare (omega arith)
      (omega arith) (omega arith) (bare-IsDirectory 0xC0500000) (omega arith) (omega arith)

-- A boot loader's information at 0x9000 with a map of two entries: available memory, and the
-- kilobyte at 0x9FC00, which is reserved.
abbrev pub info_bytes : Memory
info_bytes a =
    if a == 0xC0009000
    then 0x20
    else if a == 0xC000902C
    then 48
    else if a == 0xC0009031
    then 0x91
    else if a == 0xC0009114
    then 1
    else if a == 0xC000911D
    then 0xFC
    else if a == 0xC000911E
    then 0x09
    else if a == 0xC0009125
    then 4
    else if a == 0xC000912C
    then 2
    else 0

pub two_regions : (i : ℕ) → i < 2 → IsRegion (mmap_entry_at info_bytes (0xC0009100 + i * 24))
two_regions zero h other = absurd (other refl)
two_regions (suc zero) h other = (omega arith, omega arith, omega arith)
two_regions (suc (suc i)) h other = absurd (omega (arith, h))

abbrev pub machine : Kernel
machine = record {
  isr_handlers = λ i. 0;
  paging = record bare { framemap = empty };
  cr3 = 0;
  terminal = record { row = 0; column = 0; color = 0; buffer = λ i. 0 };
}

paging_init-Started_example :
    (k' : Kernel) × (paging_init 3 0xC0101000 0xC0400000 0xC0300000 0x9000 0x2BADB002 info_bytes
        machine
      ≡ Ended.returned k')
    × Started 0xC0101000 0xC0400000 2 0xC0009100 info_bytes machine k'
paging_init-Started_example =
    paging_init-Started 3 0xC0101000 0xC0400000 0xC0300000 0x9000 2 info_bytes machine (omega arith)
      (omega arith) (omega arith) (omega arith) (omega arith) refl (omega arith) (omega arith)
      (omega arith) two_regions empty-IsBytes

-- A reserved region at 1012 GiB, by its low words
abbrev far_region : MmapEntry
far_region = record { addr_low = 0; len_low = 0; type = 2 }

reserve_entry-swamps_example :
    ((b : ℕ) → b < u32 → test_frame (reserve_entry far_region empty) b ≡ true)
    × (alloc_pages (229376 + suc 0) 0 1 (reserve_entry far_region empty)
        ≡ some (0, reserve_entry far_region empty))
reserve_entry-swamps_example =
    reserve_entry-swamps 0 far_region empty (omega arith) refl refl empty-IsBytes

-- The window of the kernel directory, cloned into an empty directory
abbrev kernel_pages : Cloning
kernel_pages = record { paging = bare; window = λ i j. 0; ram = λ k i. 0 }

clone_page_dir-shares_example :
    (t : Cloning) × (clone_page_dir 5 0xC0400000 0xC0400000 0xC0500000 kernel_pages
      ≡ Ended.returned t)
    × ((v : ℕ)
        → 3221225472 ≤ v
        → v < 4294967296
        → walk t.paging 0xC0500000 v ≡ walk bare 0xC0400000 v)
    × ((v : ℕ) → v < 3221225472 → walk t.paging 0xC0500000 v ≡ walk bare 0xC0500000 v)
    × (t.paging.directories 0xC0400000 ≡ bare.directories 0xC0400000)
    × (t.paging.page_tables ≡ bare.page_tables)
    × (t.paging.framemap ≡ bare.framemap)
    × (t.window ≡ kernel_pages.window)
    × (t.ram ≡ kernel_pages.ram)
clone_page_dir-shares_example =
    clone_page_dir-shares 5 0xC0400000 0xC0400000 0xC0500000 kernel_pages (omega arith)
      (λ d h. refl)

abbrev pub small_os : Os
small_os = record { system = two; pages = kernel_pages; heap = pair; pid_ctr = 3 }
