-- ===== src/Libc/Printf/Bound.antt =====
-- vsnprintf stays in its buffer and ends the text with a NUL.
use brownie_os.Base.{ℕ, ◌^◌, ◌≤◌, ◌<◌, ◌≡◌, some}
use brownie_os.Libc.Itoa.{Buffer}
use brownie_os.Libc.Printf.{
  length, Filled, wild_fill, failed_fill, returned_fill, Filling, Step, stop, go, fill_loop,
}

module _ (n : ℕ) (s₀ : Buffer) where
  -- No cell from `n` on has changed.
  abbrev pub Untouched : Buffer → Type 0
  Untouched m = (k : ℕ) → n ≤ k → m k ≡ s₀ k

  -- The promise of `vsnprintf` for a buffer of `n` characters; an outcome that reads beyond the
  -- format or takes an argument of another kind is the caller's.
  unfoldable pub IsBounded : Filled → Type 0
  IsBounded wild_fill = Unit
  IsBounded (failed_fill m) = Untouched m
  IsBounded (returned_fill written m) = (written < n) × (m written ≡ 0) × Untouched m

  record Inside (s : Filling) : Type 0 where
    room : s.written < n
    rest : Untouched s.buffer

  unfoldable StepInside : (len : ℕ) → Step Filling Filled → Type 0
  StepInside len (stop r) = IsBounded r
  StepInside len (go s) = Inside s × (length s.format ≤ len)

  module _ (positive : 1 ≤ n) (small : n < 2 ^ 31) where
    -- The loop ends well from `s` on `f` rounds.
    Ends : (f : ℕ) → Buffer → Filling → Type 0
    Ends f str s = (r : Filled) × (fill_loop f n str s ≡ some r) × IsBounded r
