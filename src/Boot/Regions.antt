-- ===== src/Boot/Regions.antt =====
-- What the boot loader's memory map leaves free.
use brownie_os.Base.{
  ℕ, zero, suc, ◌+◌, ◌*◌, ◌<◌, ◌≤◌, ◌≡◌, ◌≢◌, refl, ap, sym, ◌∙◌, arith, Bool, true, false, not,
  ◌&&◌, ◌||◌, some, ltb, ◌==◌, bit_and, add32, u32, lt→ltb, le→ltb, ==→ne, ne→==, Bool-cases, inl,
  inr,
}
use brownie_os.Libc.Memory.{Memory}
use brownie_os.Madt.{u32_at}
use brownie_os.Pmm.{Framemap, page_frame, test_frame}
use brownie_os.Pmm.Bitmap.{IsBytes}
use brownie_os.Pmm.Range.{nframes, within}
use brownie_os.Pmm.Reserve.{pages, reserve_lem, reserve-IsBytes}
use brownie_os.Boot.{
  MmapEntry, mmap_entry_at, reserve_entry, reserve_entries, Ended, ended, reserve_mem_map,
}

-- Whether the frame of `b` is among those of an entry that is not available memory
abbrev pub claims : MmapEntry → ℕ → Bool
claims e b = not (e.type == 1) && within (page_frame e.addr_low) (pages e.len_low) (page_frame b)

-- Whether one of `n` entries from `p` on claims the frame of `b`
unfoldable pub claimed : Memory → (n p b : ℕ) → Bool
claimed mem zero p b = false
claimed mem (suc n) p b = claims (mmap_entry_at mem p) b || claimed mem n (p + 24) b

-- An entry that is available, or that is not empty and ends below the last page
abbrev pub IsRegion : MmapEntry → Type 0
IsRegion e =
    e.type ≢ 1
    → (0 < e.len_low) × (e.addr_low < u32) × (page_frame e.addr_low + pages e.len_low < nframes)

reserve_entry_lem :
    (e : MmapEntry) (m : Framemap)
    → IsBytes m
    → IsRegion e
    → IsBytes (reserve_entry e m)
      × ((b : ℕ) → test_frame (reserve_entry e m) b ≡ (claims e b || test_frame m b))
reserve_entry_lem e m bytes region = elim (Bool-cases (e.type == 1)) [
  | inl available ↦ rw available (bytes, λ b. refl)
  | inr other ↦
      let r = region (==→ne e.type 1 other) in
      rw other (
        reserve-IsBytes e.addr_low e.len_low m bytes,
        λ b. reserve_lem e.addr_low e.len_low m b bytes r.1 r.0 r.2,
      )
]

-- One round, and the result of those behind it
reserve_entries_step :
    (mem : Memory) (n f i addr : ℕ) (m m' : Framemap)
    → (i + suc n) * 24 < 4294967296
    → addr < 4294967296
    → let base = add32 addr 0xC0000000 in
      base + (i + suc n) * 24 ≤ 4294967296
      → reserve_entries f
          ((i + 1) * 24)
          ((i + 1 + n) * 24)
          addr
          mem
          (reserve_entry (mmap_entry_at mem (base + i * 24)) m)
        ≡ some m'
      → reserve_entries (suc f) (i * 24) ((i + suc n) * 24) addr mem m ≡ some m'
unfolding reserve_entries
reserve_entries_step mem n f i addr m m' small low top rest =
    let base = add32 addr 0xC0000000 in
    let here : add32 (add32 addr (i * 24)) 0xC0000000 ≡ base + i * 24 =
      omega (arith, low, small, top) in
    let next : add32 (i * 24) 24 ≡ (i + 1) * 24 = omega (arith, small) in
    let more : (i + suc n) * 24 ≡ (i + 1 + n) * 24 = omega arith in
    let stops : ltb (i * 24) ((i + suc n) * 24) ≡ true =
      lt→ltb (i * 24) ((i + suc n) * 24) (omega arith) in
    rw (stops, here, next, more) rest

-- From the entry `i` on, `n` entries are left.
reserve_entries_lem :
    (mem : Memory) (n f i addr : ℕ) (m : Framemap)
    → n < f
    → (i + n) * 24 < 4294967296
    → addr < 4294967296
    → let base = add32 addr 0xC0000000 in
      base + (i + n) * 24 ≤ 4294967296
      → ((k : ℕ) → i ≤ k → k < i + n → IsRegion (mmap_entry_at mem (base + k * 24)))
      → IsBytes m
      → (m' : Framemap) × (reserve_entries f (i * 24) ((i + n) * 24) addr mem m ≡ some m')
        × IsBytes m'
        × ((b : ℕ) → test_frame m' b ≡ (claimed mem n (base + i * 24) b || test_frame m b))
unfolding reserve_entries claimed
reserve_entries_lem mem n zero i addr m enough small low top regions bytes =
    absurd (omega (arith, enough))
reserve_entries_lem mem zero (suc f) i addr m enough small low top regions bytes =
    (m, rw (le→ltb (i * 24) ((i + zero) * 24) (omega arith)) refl, bytes, λ b. refl)
reserve_entries_lem mem (suc n) (suc f) i addr m enough small low top regions bytes =
    let base = add32 addr 0xC0000000 in
    let e = mmap_entry_at mem (base + i * 24) in
    let one = reserve_entry_lem e m bytes (regions i (omega arith) (omega arith)) in
    let rest =
      reserve_entries_lem mem n f (i + 1) addr (reserve_entry e m) (omega (arith, enough))
        (omega (arith, small)) low (omega (arith, top))
        (λ k lo hi. regions k (omega (arith, lo)) (omega (arith, hi))) one.0 in
    let base_next : base + i * 24 + 24 ≡ base + (i + 1) * 24 = omega arith in
    (
      rest.0,
      reserve_entries_step mem n f i addr m rest.0 small low top rest.1,
      rest.2,
      λ b.
          rest.3 b
          ∙ ap (λ x. claimed mem n x b || test_frame (reserve_entry e m) b) (sym base_next)
          ∙ ground (arith, one.1 b),
    )

-- A boot loader's memory map, announced in its flags, of `n` entries that lie in the address space,
-- each of available memory or of a nonempty region that ends below the last page, with more fuel
-- than entries, and a bitmap of bytes:
-- reserve_mem_map returns, and a frame is in use after it if it was before or if an entry that is
-- not available memory claims it.
pub reserve_mem_map-claims :
    (f mbd n : ℕ) (mem : Memory) (m : Framemap)
    → let info = add32 mbd 0xC0000000 in
      let base = add32 (u32_at mem info 48) 0xC0000000 in
      n < f
      → bit_and (u32_at mem info 0) 0x20 ≢ 0
      → u32_at mem info 44 ≡ n * 24
      → n * 24 < 4294967296
      → u32_at mem info 48 < 4294967296
      → base + n * 24 ≤ 4294967296
      → ((k : ℕ) → k < n → IsRegion (mmap_entry_at mem (base + k * 24)))
      → IsBytes m
      → (m' : Framemap) × (reserve_mem_map f mbd mem m ≡ Ended.returned m')
        × IsBytes m'
        × ((b : ℕ) → test_frame m' b ≡ (claimed mem n base b || test_frame m b))
unfolding reserve_mem_map
reserve_mem_map-claims f mbd n mem m enough given len small low top regions bytes =
    let info = add32 mbd 0xC0000000 in
    let base = add32 (u32_at mem info 48) 0xC0000000 in
    let all =
      reserve_entries_lem mem n f 0 (u32_at mem info 48) m enough (omega (arith, small)) low
        (omega (arith, top)) (λ k lo hi. regions k (omega (arith, hi))) bytes in
    let zero_add : (0 + n) * 24 ≡ n * 24 = omega arith in
    let start : base + 0 * 24 ≡ base = omega arith in
    (
      all.0,
      rw (ne→== (bit_and (u32_at mem info 0) 0x20) 0 given, len, sym zero_add) (ap ended all.1),
      all.2,
      λ b. all.3 b ∙ ap (λ x. claimed mem n x b || test_frame m b) start,
    )
