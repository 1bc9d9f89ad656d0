-- ===== src/Apic/Timer.antt =====
-- pit_init: the rate at which the timer interrupts.
use brownie_os.Base.{
  ℕ, ◌+◌, ◌*◌, ◌/◌, ◌%◌, ◌≤◌, ◌<◌, ◌≡◌, refl, arith, [], ◌∷◌, ◌++◌, bit_and, update_self,
}
use native.Mathlib.Decide.{dec_lt}
use native.Mathlib.Nat.{div-mul-le_self, mod-lt, div-add-mod, add-mul, mul_comm, le-div_iff_mul-le}
use brownie_os.Base.Bits.{bit_and-ones}
use brownie_os.Interrupts.{outb, isr_set_handler}
use brownie_os.Apic.{Pit, pit_divisor, pit_init}

byte_mask : (a : ℕ) → bit_and a 0xFF ≡ a % 256
byte_mask a = bit_and-ones 8 a

-- The two bytes that program the counter, and what they say of the frequency
pub record Programmed (freq low high : ℕ) : Type 0 where
  pub low_byte : low < 256
  pub high_byte : high < 256
  pub at_least : (low + 256 * high) * (3 * freq) ≤ 3579545
  pub at_most : 3579545 < (low + 256 * high + 1) * (3 * freq)

quotient_bounds :
    (w : ℕ)
    → 57 ≤ w
    → let d = 3579545 / w in (d * w ≤ 3579545) × (3579545 < (d + 1) * w) × (d < 65536)
quotient_bounds w wide =
    let d : ℕ = 3579545 / w in
    let small : 65536 ≤ d → d < 65536 = λ h. absurd (
      omega (
        arith,
        wide,
        (le-div_iff_mul-le {k = w} {x = 65536} {y = 3579545} (omega (arith, wide))).0 h,
      )) in
    (
      div-mul-le_self 3579545 w,
      omega (
        arith,
        div-mul-le_self 3579545 w,
        mod-lt 3579545 {m = w} (omega (arith, wide)),
        div-add-mod 3579545 w,
        add-mul d 1 w,
        mul_comm d w,
      ),
      elim (dec_lt d 65536) [ yes h ↦ h | no h ↦ small (omega (arith, h)) ],
    )

two_bytes :
    (freq d : ℕ)
    → d * (3 * freq) ≤ 3579545
    → 3579545 < (d + 1) * (3 * freq)
    → d < 65536
    → Programmed freq (d % 256) (d / 256 % 256)
two_bytes freq d low high small =
    let whole : d % 256 + 256 * (d / 256 % 256) ≡ d = omega (arith, small) in
    record {
      low_byte = omega arith;
      high_byte = omega arith;
      at_least = rw whole low;
      at_most = rw whole high;
    }

-- For a frequency of 19 or more, pit_init sends the mode and then two bytes whose 16-bit number is
-- the oscillator's frequency, 3579545 / 3 Hz, over `freq`, rounded down; the frequency is noted,
-- and the handler is that of vector 32.
pub pit_init-Programmed :
    (pit_handler freq : ℕ) (pit : Pit)
    → 19 ≤ freq
    → let t = pit_init pit_handler freq pit in
      (low : ℕ) × (high : ℕ) × (t.out
        ≡ pit.out ++ (outb 0x43 0x36 ∷ outb 0x40 low ∷ outb 0x40 high ∷ []))
      × Programmed freq low high
      × (t.pit_cur_frequency ≡ freq)
      × (t.isr_handlers 32 ≡ pit_handler)
unfolding pit_init pit_divisor isr_set_handler
pit_init-Programmed pit_handler freq pit fast =
    let d : ℕ = 3579545 / (3 * freq) in
    let bounds = quotient_bounds (3 * freq) (omega (arith, fast)) in
    (
      bit_and d 0xFF,
      bit_and (d / 256) 0xFF,
      refl,
      rw (byte_mask d, byte_mask (d / 256)) (two_bytes freq d bounds.0 bounds.1 bounds.2),
      refl,
      update_self pit.isr_handlers 32 pit_handler,
    )
