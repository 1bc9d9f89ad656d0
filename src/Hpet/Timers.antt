-- ===== src/Hpet/Timers.antt =====
-- init_hpet: the timers that are off and the one that runs.
use brownie_os.Base.{ℕ, ◌/◌, ◌%◌, ◌^◌, ◌<◌, ◌≤◌, ◌≡◌}
use brownie_os.Libc.Memory.{Memory}
use brownie_os.Hpet.{HpetState, tim_n_conf, start_timer}

-- The first timer raises interrupt 2 periodically, at every `int_per` steps of the counter, which runs
-- from 0; the others raise none.
pub record Runs (n handler : ℕ) (t : HpetState) : Type 0 where
  pub enabled : t.registers 0x100 / 2 ^ 2 % 2 ≡ 1
  pub periodic : t.registers 0x100 / 2 ^ 3 % 2 ≡ 1
  pub route : t.registers 0x100 / 2 ^ 9 % 32 ≡ 2
  pub comparator : t.registers 0x108 ≡ t.int_per
  pub others_off : (k : ℕ) → 1 ≤ k → k < n → t.registers (tim_n_conf k) / 2 ^ 2 % 2 ≡ 0
  pub counter : t.registers 0xF0 ≡ 0
  pub counting : t.registers 0x10 % 2 ≡ 1
  pub handled : t.isr_handlers 32 ≡ handler

module _ (quotient : ℕ → ℕ → ℕ) (freq handler n : ℕ) (s : HpetState) where
  abbrev t : HpetState
  t = start_timer quotient freq handler s
