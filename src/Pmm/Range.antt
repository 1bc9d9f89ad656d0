-- ===== src/Pmm/Range.antt =====
-- Marking and clearing a run of frames.
use brownie_os.Base.{
  ℕ, zero, suc, ◌+◌, ◌*◌, ◌≤◌, ◌<◌, ◌≡◌, Bool, not, ◌&&◌, ◌||◌, arith, ltb, leb, add32, mul32, ◌∙◌,
}
use brownie_os.Pmm.{
  Framemap, page_frame, page_size, set_frame, clear_frame, test_frame, set_frames, clear_frames,
}
use brownie_os.Pmm.Bitmap.{
  IsBytes, test_frame-set_frame, test_frame-clear_frame, set_frame-IsBytes, clear_frame-IsBytes,
}

-- Whether frame `j` is one of the `n` frames from `k` on.
abbrev pub within : (k n j : ℕ) → Bool
within k n j = leb k j && ltb j (k + n)

-- The number of frames of a 32-bit address space.
abbrev pub nframes : ℕ
nframes = 1048576

pub frame_addr :
    (k i : ℕ) → k + i < nframes → page_frame (add32 (k * 4096) (mul32 i page_size)) ≡ k + i
frame_addr k i h = omega arith

module _ (b k : ℕ) where
  pub test_frame-set_frames :
      (n i : ℕ) (m : Framemap)
      → IsBytes m
      → k + i + n ≤ nframes
      → test_frame (set_frames n i (k * 4096) m) b
        ≡ (within (k + i) n (page_frame b) || test_frame m b)
  unfolding set_frames
  test_frame-set_frames zero i m bytes fits = ground arith
  test_frame-set_frames (suc n) i m bytes fits =
      let a = add32 (k * 4096) (mul32 i page_size) in
      test_frame-set_frames n (i + 1) (set_frame m a) (set_frame-IsBytes m a bytes) (omega arith)
      ∙ ground (arith, test_frame-set_frame m a b bytes, frame_addr k i)

  pub test_frame-clear_frames :
      (n i : ℕ) (m : Framemap)
      → IsBytes m
      → k + i + n ≤ nframes
      → test_frame (clear_frames n i (k * 4096) m) b
        ≡ (not (within (k + i) n (page_frame b)) && test_frame m b)
  unfolding clear_frames
  test_frame-clear_frames zero i m bytes fits = ground arith
  test_frame-clear_frames (suc n) i m bytes fits =
      let a = add32 (k * 4096) (mul32 i page_size) in
      test_frame-clear_frames n (i + 1) (clear_frame m a) (clear_frame-IsBytes m a bytes)
        (omega arith)
      ∙ ground (arith, test_frame-clear_frame m a b bytes, frame_addr k i)

pub set_frames-IsBytes : (n i base : ℕ) (m : Framemap) → IsBytes m → IsBytes (set_frames n i base m)
unfolding set_frames
set_frames-IsBytes zero i base m bytes = bytes
set_frames-IsBytes (suc n) i base m bytes =
    set_frames-IsBytes n (i + 1) base (set_frame m (add32 base (mul32 i page_size)))
      (set_frame-IsBytes m _ bytes)
