-- ===== src/Pmm/Bitmap.antt =====
-- The bitmap as a set of frames: what `set_frame` and `clear_frame` do to each `test_frame`.
use brownie_os.Base.{
  ℕ, ◌-◌, ◌/◌, ◌%◌, ◌^◌, ◌<◌, ◌≡◌, refl, bit_and, bit_or, Bool, true, false, not, ◌&&◌, ◌||◌, arith,
  ◌==◌, holds_below, check_below,
}
use brownie_os.Pmm.{Framemap, page_frame, set_frame, clear_frame, test_frame}

-- The cells are bytes.
abbrev pub IsBytes : Framemap → Type 0
IsBytes m = (i : ℕ) → m i < 256

abbrev same : Bool → Bool → Bool
same true b = b
same false b = not b

bit : ℕ → ℕ → Bool
bit b o = not (bit_and b (2 ^ o) == 0)

set_law : ℕ → ℕ → ℕ → Bool
unfolding bit
set_law b o p = same (bit (bit_or b (2 ^ o) % 256) p) ((o == p) || bit b p)

clear_law : ℕ → ℕ → ℕ → Bool
unfolding bit
clear_law b o p = same (bit (bit_and b (4294967295 - 2 ^ o) % 256) p) (not (o == p) && bit b p)

set_table : holds_below 256 (λ b. holds_below 8 (λ o. holds_below 8 (λ p. set_law b o p))) ≡ true
unfolding holds_below set_law
set_table = refl

clear_table :
    holds_below 256 (λ b. holds_below 8 (λ o. holds_below 8 (λ p. clear_law b o p))) ≡ true
unfolding holds_below clear_law
clear_table = refl

module _ (b o p : ℕ) (hb : b < 256) (ho : o < 8) (hp : p < 8) where
  set_bit : bit (bit_or b (2 ^ o) % 256) p ≡ ((o == p) || bit b p)
  unfolding set_law
  set_bit =
      ground (arith, check_below 8 _ p (check_below 8 _ o (check_below 256 _ b set_table hb) ho) hp)

  clear_bit : bit (bit_and b (4294967295 - 2 ^ o) % 256) p ≡ (not (o == p) && bit b p)
  unfolding clear_law
  clear_bit =
      ground
        (arith, check_below 8 _ p (check_below 8 _ o (check_below 256 _ b clear_table hb) ho) hp)

module _ (m : Framemap) (a b : ℕ) (bytes : IsBytes m) where
  -- After `set_frame a` a frame tests as used if it is the frame of `a` or was used before.
  pub test_frame-set_frame :
      test_frame (set_frame m a) b ≡ ((page_frame a == page_frame b) || test_frame m b)
  unfolding test_frame set_frame bit
  test_frame-set_frame =
      let fa = page_frame a in
      let fb = page_frame b in
      ground (arith, set_bit (m (fa / 8)) (fa % 8) (fb % 8) (bytes _) (omega arith) (omega arith))

  -- After `clear_frame a` a frame tests as used if it was before and is not the frame of `a`.
  pub test_frame-clear_frame :
      test_frame (clear_frame m a) b ≡ (not (page_frame a == page_frame b) && test_frame m b)
  unfolding test_frame clear_frame bit
  test_frame-clear_frame =
      let fa = page_frame a in
      let fb = page_frame b in
      ground (arith, clear_bit (m (fa / 8)) (fa % 8) (fb % 8) (bytes _) (omega arith) (omega arith))

pub set_frame-IsBytes : (m : Framemap) (a : ℕ) → IsBytes m → IsBytes (set_frame m a)
unfolding set_frame
set_frame-IsBytes m a bytes i = ground (arith, bytes i)

pub clear_frame-IsBytes : (m : Framemap) (a : ℕ) → IsBytes m → IsBytes (clear_frame m a)
unfolding clear_frame
clear_frame-IsBytes m a bytes i = ground (arith, bytes i)
