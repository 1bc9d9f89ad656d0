-- ===== src/Libc/Printf/Count.antt =====
-- vprintf ends, and returns the number of characters it has printed.
use brownie_os.Base.{ℕ, ◌≤◌, ◌≡◌, some}
use brownie_os.Libc.Itoa.{Buffer}
use brownie_os.Libc.Printf.{
  length, Printed, wild, failed, returned, Printing, Step, stop, go, print_loop, int_max,
}

-- A count that is returned is the number of characters printed, and an `int`. Nothing is promised
-- of a call that reads beyond the format or takes an argument of another kind.
unfoldable pub IsCount : Printed → Type 0
IsCount wild = Unit
IsCount (failed out) = length out ≤ int_max
IsCount (returned written out) = (written ≡ length out) × (written ≤ int_max)

record Counting (s : Printing) : Type 0 where
  count : s.written ≡ length s.out
  bound : s.written ≤ int_max

unfoldable StepCounting : (len : ℕ) → Step Printing Printed → Type 0
StepCounting len (stop r) = IsCount r
StepCounting len (go s) = Counting s × (length s.format ≤ len)

Ends : (f : ℕ) → Buffer → Printing → Type 0
Ends f str s = (r : Printed) × (print_loop f str s ≡ some r) × IsCount r
