-- ===== src/Pmm/Highmem.antt =====
-- PMM_FLAGS_HIGHMEM: the search above 896 MiB. Its end, 0xFFFFFFFF, is above every page address,
-- so the loop never stops by its test: past the last page the address wraps to 0.
use brownie_os.Base.{
  ℕ, zero, suc, ◌+◌, ◌*◌, ◌%◌, ◌≤◌, ◌<◌, ◌≡◌, refl, inl, inr, true, false, none, some, arith, add32,
  lt→ltb, leb,
}
use brownie_os.Pmm.{Framemap, page_size, end_of_memory, scan, alloc_pages}
use brownie_os.Pmm.Bitmap.{IsBytes}
use brownie_os.Pmm.Range.{nframes}
use brownie_os.Pmm.Scan.{busy, FreeRun, scan_region_lem}
use brownie_os.Pmm.Alloc.{Allocated, Taken-Allocated}

-- Where a run of `count` free frames lies at or above 896 MiB, a highmem request returns such a
-- run within 819200 rounds.
pub alloc_pages-highmem :
    (extra count k : ℕ) (m : Framemap)
    → IsBytes m
    → 0 < count
    → count ≤ nframes
    → 229376 ≤ k
    → k + count ≤ nframes
    → FreeRun m k count
    → (first : ℕ) × (m' : Framemap) × (alloc_pages (819200 + extra) 1 count m
        ≡ some (first * 4096, m'))
      × Allocated m count 229376 nframes first m'
unfolding alloc_pages
alloc_pages-highmem extra count k m bytes some_frames few high fits run =
    elim (scan_region_lem m count end_of_memory 229376 nframes few (omega arith)
      (λ n h. omega arith) extra some_frames (omega arith)) [
        | inl t ↦ Taken-Allocated bytes (omega arith) t
        | inr p ↦ absurd (clash (p.no_run k high fits))
      ]
  where
    clash : (j : ℕ) × (k ≤ j) × (j < k + count) × (busy m j ≡ true) → ⊥
    clash f = ground (arith, run f.0)

scan-full :
    (m : Framemap) (count : ℕ)
    → ((n : ℕ) → n < nframes → busy m n ≡ true)
    → (f n : ℕ) → n < nframes
    → (c : ℕ) → scan f m count end_of_memory c (n * 4096) ≡ none
unfolding scan
scan-full m count full zero n inside c = refl
scan-full m count full (suc f) n inside c =
    rw (lt→ltb (n * 4096) end_of_memory (omega arith), full n inside, next)
      (scan-full m count full f ((n + 1) % nframes) (omega arith) 0)
  where
    next : add32 (n * 4096) page_size ≡ (n + 1) % nframes * 4096
    next = omega arith

-- With every frame in use a highmem request never returns, whatever the count and the number of
-- rounds: it does not report failure.
pub alloc_pages-highmem-diverges :
    (m : Framemap) (count : ℕ)
    → ((n : ℕ) → n < nframes → busy m n ≡ true)
    → (fuel : ℕ) → alloc_pages fuel 1 count m ≡ none
unfolding alloc_pages
alloc_pages-highmem-diverges m count full fuel = scan-full m count full fuel 229376 (omega arith) 0

-- Past frames in use the search stands at address 0 with no free frame behind it.
scan-busy :
    (m : Framemap) (count : ℕ)
    → ((n : ℕ) → 229376 ≤ n → n < nframes → busy m n ≡ true)
    → (d f g n c : ℕ) → g ≡ suc d + f
    → n + suc d ≡ nframes
    → leb 229376 n ≡ true
    → scan g m count end_of_memory c (n * 4096) ≡ scan f m count end_of_memory 0 0
unfolding scan
scan-busy m count full d f zero n c eg e high = absurd (omega arith)
scan-busy m count full zero f (suc g) n c eg e high =
    let last : n ≡ 1048575 = omega arith in
    let rounds : g ≡ f = omega arith in rw (last, rounds, full 1048575 (omega arith) (omega arith))
scan-busy m count full (suc d) f (suc g) n c eg e high =
    rw (lt→ltb (n * 4096) end_of_memory (omega arith), full n (ground arith) (omega arith), next)
      (scan-busy m count full d f g (n + 1) 0 (omega arith) (omega arith) (ground arith))
  where
    next : add32 (n * 4096) page_size ≡ (n + 1) * 4096
    next = omega arith

-- With no free frame at or above 896 MiB, a highmem request for one frame returns the first free
-- frame below it, where there is one.
pub alloc_pages-highmem-lowmem :
    (extra k : ℕ) (m : Framemap)
    → IsBytes m
    → ((n : ℕ) → 229376 ≤ n → n < nframes → busy m n ≡ true)
    → k < 229376
    → busy m k ≡ false
    → (first : ℕ) × (m' : Framemap) × (alloc_pages (819200 + (229376 + extra)) 1 1 m
        ≡ some (first * 4096, m'))
      × Allocated m 1 0 229376 first m'
unfolding alloc_pages
alloc_pages-highmem-lowmem extra k m bytes full low unused =
    rw
      (scan-busy m 1 full 819199 (229376 + extra) (819200 + (229376 + extra)) 229376 0 (omega arith)
        (omega arith) refl)
      (elim (scan_region_lem m 1 end_of_memory 0 229376 (omega arith) (omega arith)
        (λ n h. omega arith) extra (omega arith) (omega arith)) [
          | inl t ↦ Taken-Allocated bytes (omega arith) t
          | inr p ↦ absurd (clash (p.no_run k (omega arith) (omega arith)))
        ])
  where
    clash : (j : ℕ) × (k ≤ j) × (j < k + 1) × (busy m j ≡ true) → ⊥
    clash f = let e : f.0 ≡ k = omega arith in ground (arith, e)
