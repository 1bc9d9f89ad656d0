-- ===== src/Hpet.antt =====
-- kernel/kernel/drivers/hpet.c: the High Precision Event Timer. Its registers are a function from the
-- offset to a 64-bit word, which holds what is written. The quotient of two doubles, cut to a whole
-- number, is the parameter `quotient`.
pub mod Timers
use brownie_os.Base.{
  ℕ, zero, suc, ◌+◌, ◌*◌, ◌/◌, ◌%◌, ◌^◌, Bool, true, false, not, ◌&&◌, Option, none, some, ◌==◌,
  if◌then◌else◌, update,
}
use brownie_os.Libc.Memory.{Memory}
use brownie_os.Madt.{u32_at}
use brownie_os.Vmm.{Tables, kmap}
use brownie_os.Interrupts.{isr_set_handler}
use brownie_os.Boot.{Ended}

-- The variables of hpet.c, the registers, the handlers and the page tables. `hpet_addr` is what the
-- pointers to the registers are made of.
pub record HpetState : Type 0 where
  pub hpet_addr : ℕ
  pub clk_per : ℕ
  pub main_cnt_freq : ℕ
  pub int_freq : ℕ
  pub int_per : ℕ
  pub ticks : ℕ
  pub registers : ℕ → ℕ
  pub isr_handlers : ℕ → ℕ
  pub tables : Tables

-- `hpet_handler`: whether it prints, and the state; for a frequency that is not 0
unfoldable pub hpet_handler : HpetState → Bool × HpetState
hpet_handler s = (s.ticks % s.int_freq == 0, record s { ticks = (s.ticks + 1) % 2 ^ 32 })

-- The register of the configuration of timer `i`, and whether the timer has 64 bits, is periodic
-- and can raise interrupt 2
abbrev pub tim_n_conf : (i : ℕ) → ℕ
tim_n_conf i = 0x100 + 0x20 * i

unfoldable pub is_capable : (conf : ℕ) → Bool
is_capable conf =
    (conf / 2 ^ 5 % 2 == 1) && (conf / 2 ^ 4 % 2 == 1) && (conf / 2 ^ 32 / 2 ^ 2 % 2 == 1)

-- `&= tim_n_disable_mask`: the bits 2, 3, 6 and 9 to 13 are cleared.
unfoldable pub disabled_conf : (conf : ℕ) → ℕ
disabled_conf conf =
    conf / 2 ^ 14 * 2 ^ 14 + conf / 2 ^ 7 % 4 * 2 ^ 7 + conf / 2 ^ 4 % 4 * 2 ^ 4 + conf % 4

-- `|= tim_n_enable_mask`: the bits 2, 3, 6 and 10 are set.
unfoldable pub enabled_conf : (conf : ℕ) → ℕ
enabled_conf conf =
    conf / 2 ^ 11 * 2 ^ 11
    + 2 ^ 10
    + conf / 2 ^ 7 % 8 * 2 ^ 7
    + 2 ^ 6
    + conf / 2 ^ 4 % 4 * 2 ^ 4
    + 2 ^ 3
    + 2 ^ 2
    + conf % 4

-- The loop over the timers, from `i` on with `n` left: a timer without the capabilities is a panic.
pub disable_timers : (n i : ℕ) → (ℕ → ℕ) → Ended (ℕ → ℕ)
disable_timers zero i registers = Ended.returned registers
disable_timers (suc n) i registers =
    let conf = registers (tim_n_conf i) in
    let rest = disable_timers n (i + 1) (update registers (tim_n_conf i) (disabled_conf conf)) in
    if is_capable conf then rest else Ended.panicked

-- What follows the loop: the handler, the rate, and the first timer
abbrev pub start_timer : (quotient : ℕ → ℕ → ℕ) (freq handler : ℕ) → HpetState → HpetState
start_timer quotient freq handler s =
    let main_cnt_freq = quotient 1000000000000000 s.clk_per % 2 ^ 32 in
    let int_per = quotient main_cnt_freq freq % 2 ^ 32 in
    let r₁ = update s.registers 0x100 (enabled_conf (s.registers 0x100)) in
    let r₂ = update r₁ 0x108 int_per in
    record s {
      main_cnt_freq = main_cnt_freq;
      int_freq = freq;
      int_per = int_per;
      registers = update r₂ 0x10 (r₂ 0x10 / 2 * 2 + 1);
      isr_handlers = isr_set_handler 32 handler s.isr_handlers;
    }

abbrev pub started :
    (quotient : ℕ → ℕ → ℕ) (freq handler : ℕ) → HpetState → Ended (ℕ → ℕ) → Ended HpetState
started quotient freq handler s (Ended.returned registers) =
    Ended.returned (start_timer quotient freq handler (record s { registers = registers }))
started quotient freq handler s Ended.panicked = Ended.panicked
started quotient freq handler s Ended.running = Ended.running

-- `init_hpet`, with the table's copy at `hpet`, whose address space is at the offset 40 and whose
-- address at 44, and the handler's address: the counter stands still and is reset first.
unfoldable pub init_hpet :
    (quotient : ℕ → ℕ → ℕ) (freq handler hpet : ℕ) → Memory → HpetState → Ended HpetState
unfolding disable_timers
init_hpet quotient freq handler hpet m s =
    let got = kmap (u32_at m hpet 44) s.tables in
    let gen_cap = s.registers 0 in
    let num_tim = gen_cap / 2 ^ 8 % 32 + 1 in
    let r₁ = update s.registers 0x10 (s.registers 0x10 / 4 * 4) in
    let r₂ = update r₁ 0xF0 0 in
    let t = record s {
      hpet_addr = got.0;
      clk_per = gen_cap / 2 ^ 32 % 2 ^ 32;
      registers = r₂;
      tables = got.1;
    } in
    if hpet == 0
    then Ended.panicked
    else if not (m (hpet + 40) == 0)
    then Ended.panicked
    else started quotient freq handler t (disable_timers num_tim 0 r₂)
