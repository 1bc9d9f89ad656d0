-- ===== src/Pmm/Alloc.antt =====
-- What `alloc_pages` promises: a run of frames that were free, marked and nothing else changed,
-- or NULL where there is none; and that `free_pages` undoes it.
use brownie_os.Base.{
  ℕ, zero, suc, ◌+◌, ◌*◌, ◌/◌, ◌≤◌, ◌<◌, ◌≡◌, refl, ◌⊎◌, inl, inr, ◌||◌, Option, some, arith, mul32,
  ◌∙◌,
}
use brownie_os.Pmm.{
  Framemap, page_frame, identity_phys_end, test_frame, set_frames, scan, alloc_pages, free_pages,
}
use brownie_os.Pmm.Bitmap.{IsBytes}
use brownie_os.Pmm.Range.{
  nframes, within, test_frame-set_frames, test_frame-clear_frames, set_frames-IsBytes,
}
use brownie_os.Pmm.Scan.{busy, FreeRun, NoRun, Taken, scan_region_lem}

-- `count` frames from frame `first` on, in `lo ≤ n < hi`, were free in `m`; in `m'` they are in
-- use, and no other frame has changed.
pub record Allocated (m : Framemap) (count lo hi first : ℕ) (m' : Framemap) : Type 0 where
  pub above : lo ≤ first
  pub below : first + count ≤ hi
  pub was_free : FreeRun m first count
  pub marked : (a : ℕ) → test_frame m' a ≡ (within first count (page_frame a) || test_frame m a)
  pub bytes : IsBytes m'

pub Taken-Allocated :
    {m : Framemap} {count end lo hi : ℕ} {r : Option (ℕ × Framemap)}
    → IsBytes m
    → hi ≤ nframes
    → Taken m count end lo hi r
    → (first : ℕ) × (m' : Framemap) × (r ≡ some (first * 4096, m'))
      × Allocated m count lo hi first m'
Taken-Allocated {m} {count} bytes top t = (
  t.first,
  set_frames count 0 (t.first * 4096) m,
  t.result,
  record {
    above = t.above;
    below = t.below;
    was_free = t.was_free;
    marked = λ a.
        ground (arith, test_frame-set_frames a t.first count 0 m bytes (omega (arith, t.below)));
    bytes = set_frames-IsBytes count 0 (t.first * 4096) m bytes;
  },
)

-- For PMM_FLAGS_DEFAULT and a count from 1 to 2 ^ 20, 229377 rounds are enough, whatever the bitmap. The
-- result is a run of frames below 896 MiB that were free, now marked, with nothing else changed;
-- or it is NULL with the bitmap as it was, and then no run of `count` free frames lies there.
pub alloc_pages-default :
    (extra count : ℕ) (m : Framemap)
    → IsBytes m
    → 0 < count
    → count ≤ nframes
    → let r = alloc_pages (229376 + suc extra) 0 count m in
      ((first : ℕ) × (m' : Framemap) × (r ≡ some (first * 4096, m'))
        × Allocated m count 0 229376 first m')
      ⊎ ((r ≡ some (0, m)) × NoRun m 0 229376 count)
unfolding alloc_pages
alloc_pages-default extra count m bytes some_frames few =
    elim (scan_region_lem m count identity_phys_end 0 229376 few (omega arith) (λ n h. omega arith)
      (suc extra) some_frames (omega arith)) [
        | inl t ↦ inl (Taken-Allocated bytes (omega arith) t)
        | inr p ↦ inr (p.goes_on ∙ stops p.contig, p.no_run)
      ]
  where
    stops : (c : ℕ) → scan (suc extra) m count identity_phys_end c 939524096 ≡ some (0, m)
    stops c = refl

pub test_frame-page_frame : (m : Framemap) (a : ℕ) → test_frame m a ≡ busy m (page_frame a)
unfolding test_frame
test_frame-page_frame m a = let e : a / 4096 * 4096 / 4096 ≡ a / 4096 = omega arith in rw e

-- `free_pages` of an allocated run gives back exactly its frames: every address tests as it did
-- before the allocation.
pub free_pages-alloc :
    {m m' : Framemap} {count lo hi first : ℕ}
    → hi ≤ nframes
    → Allocated m count lo hi first m'
    → (a : ℕ) → test_frame (free_pages first count m') a ≡ test_frame m a
unfolding free_pages
free_pages-alloc {m} {m'} {count = zero} {first} top al a = ground (arith, al.marked a)
free_pages-alloc {m} {m'} {count = suc count} {first} top al a =
    let e : mul32 first 4096 ≡ first * 4096 = omega (arith, al.below) in
    rw e (
      test_frame-clear_frames a first (suc count) 0 m' al.bytes (omega (arith, al.below))
      ∙ ground (arith, al.marked a, al.was_free (page_frame a), test_frame-page_frame m a))
