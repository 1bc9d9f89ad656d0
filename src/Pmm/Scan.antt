-- ===== src/Pmm/Scan.antt =====
-- The search of `alloc_pages` over the frames `lo ≤ n < hi`: it takes the first run of `count`
-- free frames, or leaves the region having seen that there is none.
use brownie_os.Base.{
  ℕ, zero, suc, ◌+◌, ◌-◌, ◌*◌, ◌%◌, ◌≤◌, ◌<◌, ◌≡◌, refl, ◌⊎◌, inl, inr, Bool, true, false, Option,
  some, arith, u32, add32, sub32, mul32, lt→ltb, Bool-cases, eq→==, ne→==,
}
use native.Mathlib.Decide.{dec_le}
use brownie_os.Pmm.{Framemap, page_size, test_frame, set_frames, scan}
use brownie_os.Pmm.Range.{nframes}

-- Frame `n` is in use.
abbrev pub busy : Framemap → ℕ → Bool
busy m n = test_frame m (n * 4096)

-- The `count` frames from `k` on are free.
abbrev pub FreeRun : Framemap → (k count : ℕ) → Type 0
FreeRun m k count = (j : ℕ) → k ≤ j → j < k + count → busy m j ≡ false

-- No run of `count` free frames lies in `lo ≤ n < hi`: each has a frame in use.
abbrev pub NoRun : Framemap → (lo hi count : ℕ) → Type 0
NoRun m lo hi count =
    (k : ℕ) → lo ≤ k → k + count ≤ hi → (j : ℕ) × (k ≤ j) × (j < k + count) × (busy m j ≡ true)

module _ (m : Framemap) (count end lo hi : ℕ) where
  -- What is known when the loop stands at frame `n` with `contig` free frames behind it.
  record AtFrame (n contig : ℕ) : Type 0 where
    short : contig < count
    back : lo + contig ≤ n
    free : (j : ℕ) → n ≤ j + contig → j < n → busy m j ≡ false
    edge : (lo + contig ≡ n) ⊎ ((lo + contig < n) × (busy m (n - contig - 1) ≡ true))
    none_yet : NoRun m lo n count

  -- The loop took the first run.
  pub record Taken (r : Option (ℕ × Framemap)) : Type 0 where
    pub first : ℕ
    pub above : lo ≤ first
    pub below : first + count ≤ hi
    pub was_free : FreeRun m first count
    pub result : r ≡ some (first * 4096, set_frames count 0 (first * 4096) m)

  -- The loop left the region.
  pub record Passed (f : ℕ) (r : Option (ℕ × Framemap)) : Type 0 where
    pub contig : ℕ
    pub no_run : NoRun m lo hi count
    pub goes_on : r ≡ scan f m count end contig ((hi * 4096) % u32)

  module _ (few : count ≤ nframes) (top : hi ≤ nframes)
      (open_end : (n : ℕ) → n < hi → n * 4096 < end) where
    busy_step : (n c : ℕ) → n < hi → AtFrame n c → busy m n ≡ true → AtFrame (n + 1) 0
    busy_step n c inside at used = record {
      short = omega (arith, at.short);
      back = omega (arith, at.back);
      free = λ j h l. absurd (omega arith);
      edge = inr (omega (arith, at.back), ground arith);
      none_yet = λ k above fits. elim (dec_le (k + count) n) [
        | yes old ↦ at.none_yet k above old
        | no new ↦ (n, omega arith, omega (arith, at.short), used)
      ];
    }

    free_step :
        (n c : ℕ)
        → n < hi
        → AtFrame n c
        → busy m n ≡ false
        → c + 1 < count
        → AtFrame (n + 1) (c + 1)
    free_step n c inside at unused more = record {
      short = more;
      back = omega (arith, at.back);
      free = λ j h l. ground (arith, at.free j);
      edge = elim at.edge [ inl e ↦ inl (omega arith) | inr e ↦ inr (omega arith, ground arith) ];
      none_yet = λ k above fits. elim (dec_le (k + count) n) [
        | yes old ↦ at.none_yet k above old
        | no new ↦ elim at.edge [
          | inl e ↦ absurd (omega arith)
          | inr e ↦ (n - c - 1, omega arith, omega arith, e.1)
        ]
      ];
    }

    -- The base that the code computes, and the first frame of the run.
    base_addr :
        (n c : ℕ)
        → n < nframes
        → c + 1 ≡ count
        → c ≤ n
        → sub32 (n * 4096) (mul32 (sub32 count 1) page_size) ≡ (n - c) * 4096
    base_addr n c h e back = omega arith

    next_addr : (n : ℕ) → add32 (n * 4096) page_size ≡ ((n + 1) * 4096) % u32
    next_addr n = omega arith

    here_addr : (n : ℕ) → n < nframes → (n * 4096) % u32 ≡ n * 4096
    here_addr n h = omega arith

    scan_region :
        (d f g n c : ℕ)
        → g ≡ d + f
        → n + d ≡ hi
        → AtFrame n c
        → let r = scan g m count end c ((n * 4096) % u32) in Taken r ⊎ Passed f r
    unfolding scan
    scan_region zero f g n c eg e at =
        let e' : n ≡ hi = omega arith in
        let eg' : g ≡ f = omega arith in
        inr (record { contig = c; no_run = rw (← e') (at.none_yet); goes_on = rw (e', eg') })
    scan_region (suc d) f zero n c eg e at = absurd (omega arith)
    scan_region (suc d) f (suc g) n c eg e at = elim (Bool-cases (busy m n)) [
      | inl used ↦
          rw (here_addr n (omega arith), lt→ltb _ _ (open_end n (omega arith)), used, next_addr n)
            (scan_region d f g (n + 1) 0 (omega arith) (omega arith)
              (busy_step n c (omega arith) at used))
      | inr unused ↦
          rw (here_addr n (omega arith), lt→ltb _ _ (open_end n (omega arith)), unused)
            (elim (dec_le count (c + 1)) [
              | yes enough ↦
                  let full : c + 1 ≡ count = omega (arith, at.short) in
                  rw
                    (
                      eq→== (add32 c 1) count (omega arith),
                      base_addr n c (omega arith) full (omega (arith, at.back)),
                    )
                    (inl (record {
                      first = n - c;
                      above = omega (arith, at.back);
                      below = omega (arith, at.back);
                      was_free = λ j h l. elim (dec_le n j) [
                        | yes here ↦ let last : j ≡ n = omega (arith, at.back) in rw last unused
                        | no before ↦ at.free j (omega arith) (omega arith)
                      ];
                      result = refl;
                    }))
              | no less ↦
                  let small : add32 c 1 ≡ c + 1 = omega arith in
                  rw (ne→== (add32 c 1) count (omega arith), small, next_addr n)
                    (scan_region d f g (n + 1) (c + 1) (omega arith) (omega arith)
                      (free_step n c (omega arith) at unused (omega arith)))
            ])
    ]

    start : 0 < count → AtFrame lo 0
    start some_frames = record {
      short = some_frames;
      back = omega arith;
      free = λ j h l. absurd (omega arith);
      edge = inl (omega arith);
      none_yet = λ k above fits. absurd (omega arith);
    }

    -- The search from the first frame of the region, with a round for each frame and `f` more.
    pub scan_region_lem :
        (f : ℕ)
        → 0 < count
        → lo ≤ hi
        → let r = scan (hi - lo + f) m count end 0 ((lo * 4096) % u32) in Taken r ⊎ Passed f r
    scan_region_lem f some_frames order =
        scan_region (hi - lo) f (hi - lo + f) lo 0 refl (omega arith) (start some_frames)
