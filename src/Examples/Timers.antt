-- ===== src/Examples/Timers.antt =====
-- The High Precision Event Timer with three timers.
use brownie_os.Base.{if◌then◌else◌, ◌==◌}
use brownie_os.Hpet.{HpetState}

abbrev off : HpetState
off = record {
  hpet_addr = 0;
  clk_per = 0;
  main_cnt_freq = 0;
  int_freq = 0;
  int_per = 0;
  ticks = 0;
  registers = λ a. if a == 0 then 0x0098968000000200 else 0x400000030;
  isr_handlers = λ v. 0;
  tables = λ i j. 0;
}
