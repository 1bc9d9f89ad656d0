-- ===== src/Pmm/Reserve.antt =====
-- `reserve`: which frames it marks, and which it misses.
use brownie_os.Base.{
  ℕ, zero, suc, ◌+◌, ◌-◌, ◌*◌, ◌/◌, ◌%◌, ◌≤◌, ◌<◌, ◌≡◌, false, ◌||◌, arith, u32, add32, sub32,
  lt→ltb, le→ltb, ◌∙◌, Bool-cases, inl, inr, true, ltb,
}
use brownie_os.Base.Bits.{bit_and_band}
use brownie_os.Pmm.{
  Framemap, page_frame, page_size, page_round_down, page_round_up, set_frame, test_frame,
  reserve_from, reserve,
}
use brownie_os.Pmm.Bitmap.{IsBytes, test_frame-set_frame, set_frame-IsBytes}
use brownie_os.Pmm.Range.{nframes, within}

pub page_round_down_lem : (x : ℕ) → x < u32 → page_round_down x ≡ x / 4096 * 4096
unfolding page_round_down
page_round_down_lem x h = bit_and_band 12 20 x ∙ omega arith

-- The number of pages that `length` is rounded up to.
abbrev pub pages : ℕ → ℕ
pages length = (length + 4095) / 4096

pub page_round_up_lem : (x : ℕ) → pages x < nframes → page_round_up x ≡ pages x * 4096
unfolding page_round_up
page_round_up_lem x h = ground (arith, bit_and_band 12 20 x)

reserve_from_lem :
    (b f k n : ℕ) (m : Framemap)
    → IsBytes m
    → k + n ≤ nframes
    → n ≤ f
    → test_frame (reserve_from f (k * 4096) ((k + n) * 4096 - 1) m) b
      ≡ (within k n (page_frame b) || test_frame m b)
unfolding reserve_from
reserve_from_lem b zero k n m bytes fits fuel = ground arith
reserve_from_lem b (suc f) k zero m bytes fits fuel =
    rw (le→ltb (k * 4096) ((k + zero) * 4096 - 1) (omega arith)) (ground arith)
reserve_from_lem b (suc f) k (suc n) m bytes fits fuel =
    rw (lt→ltb (k * 4096) ((k + suc n) * 4096 - 1) (omega arith), next, stop, here)
      (reserve_from_lem b f (k + 1) n (set_frame m (k * 4096)) (set_frame-IsBytes m _ bytes)
          (omega arith) (omega arith)
        ∙ ground (arith, test_frame-set_frame m (k * 4096) b bytes, frame))
  where
    next : k * 4096 + page_size ≡ (k + 1) * 4096
    next = omega arith

    stop : (k + suc n) * 4096 - 1 ≡ (k + 1 + n) * 4096 - 1
    stop = omega arith

    here : k * 4096 % u32 ≡ k * 4096
    here = omega arith

    frame : page_frame (k * 4096) ≡ k
    frame = omega arith

-- `reserve` marks exactly the frames from the one of `start` on, as many as `length` is rounded up
-- to, and changes no other: for a start and a nonzero length whose frames lie in the address space.
pub reserve_lem :
    (start length : ℕ) (m : Framemap) (b : ℕ)
    → IsBytes m
    → start < u32
    → 0 < length
    → page_frame start + pages length < nframes
    → test_frame (reserve start length m) b
      ≡ (within (page_frame start) (pages length) (page_frame b) || test_frame m b)
unfolding reserve
reserve_lem start length m b bytes small some_bytes fits =
    rw (page_round_down_lem start small, page_round_up_lem length (omega arith), end)
      (reserve_from_lem b 1048576 (page_frame start) (pages length) m bytes (omega arith)
        (omega arith))
  where
    end :
        sub32 (add32 (start / 4096 * 4096) (pages length * 4096)) 1
        ≡ (start / 4096 + pages length) * 4096 - 1
    end = omega arith

-- Where the region ends behind the frames that are marked, as it does when `start` lies in a page
-- so late that the rounded length does not reach, the frame of its last byte keeps its state.
pub reserve-misses :
    (start length : ℕ) (m : Framemap)
    → IsBytes m
    → 0 < length
    → page_frame start + pages length < nframes
    → 4096 ≤ start % 4096 + (length + 4095) % 4096
    → test_frame m (start + length - 1) ≡ false
    → test_frame (reserve start length m) (start + length - 1) ≡ false
reserve-misses start length m bytes some_bytes fits late unused =
    reserve_lem start length m (start + length - 1) bytes (omega arith) some_bytes fits
    ∙ ground (arith, beyond)
  where
    beyond : page_frame (start + length - 1) ≡ page_frame start + pages length
    beyond = omega arith

reserve_from-IsBytes :
    (f addr end : ℕ) (m : Framemap) → IsBytes m → IsBytes (reserve_from f addr end m)
unfolding reserve_from
reserve_from-IsBytes zero addr end m bytes = bytes
reserve_from-IsBytes (suc f) addr end m bytes =
    let rest =
      reserve_from-IsBytes f (addr + page_size) end (set_frame m (addr % u32))
        (set_frame-IsBytes m (addr % u32) bytes) in
    elim (Bool-cases (ltb addr end)) [ inl more ↦ rw more rest | inr stop ↦ rw stop bytes ]

pub reserve-IsBytes :
    (start length : ℕ) (m : Framemap) → IsBytes m → IsBytes (reserve start length m)
unfolding reserve
reserve-IsBytes start length m bytes =
    reserve_from-IsBytes 1048576 (page_round_down start)
      (sub32 (add32 (page_round_down start) (page_round_up length)) 1) m bytes

-- An empty region at the address 0: its end is taken for the last byte of the address space, and
-- every frame is marked as in use.
pub reserve-empty :
    (m : Framemap) (b : ℕ) → IsBytes m → b < u32 → test_frame (reserve 0 0 m) b ≡ true
unfolding reserve
reserve-empty m b bytes small =
    rw (page_round_down_lem 0 (omega arith), page_round_up_lem 0 (omega arith))
      (reserve_from_lem b 1048576 0 1048576 m bytes (omega arith) (omega arith)
        ∙ ground (arith, small))
