-- ===== src/Examples/Processes.antt =====
-- The scheduler on a table of two processes.
use brownie_os.Base.{ℕ, ◌+◌, ◌*◌, ◌≡◌, arith, if◌then◌else◌, ◌==◌}
use brownie_os.Proc.{
  System, ProcState, ProcPriority, Context, IntRegs, swap_dir, scheduler_switch_process,
}
use brownie_os.Proc.Switch.{switch_there_and_back}

abbrev context_with : (cs : ℕ) → Context
context_with cs = record {
  edi = 1;
  esi = 2;
  ebp = 3;
  esp = 4;
  ebx = 5;
  edx = 6;
  ecx = 7;
  eax = 8;
  eip = 9;
  cs = cs;
  eflags = 10;
  useresp = 11;
  ss = 12;
}

abbrev pub frame_with : (cs : ℕ) → IntRegs
frame_with cs = record {
  edi = 21;
  esi = 22;
  ebp = 23;
  esp = 24;
  ebx = 25;
  edx = 26;
  ecx = 27;
  eax = 28;
  int_no = 32;
  err_code = 0;
  eip = 29;
  cs = cs;
  eflags = 30;
  useresp = 31;
  ss = 35;
}

-- Processes 1 and 2 stand at the addresses 100 and 200.
abbrev pub two : System
two = record {
  proc_list = λ i. if i == 0 then 100 else if i == 1 then 200 else 0;
  procs = λ p. record {
    pid = p;
    page_directory = 0xC0500000 + p * 4096;
    context = context_with 27;
    procstate = ProcState.running;
    priority = ProcPriority.normal;
    brk = 0;
    heap_start = 0;
    stack_top = 0xB0000000;
    stack_size = 4096;
    kstack_top = 0xC0600000 + p * 4096;
    kstack_size = 4096;
    kstack_base = 0xC0600000;
    cr3 = 0;
    run_next = 0;
  };
  current_proc = 100;
  esp0 = 0;
  cr3 = 0;
}

switch_there_and_back_example :
    let gone = scheduler_switch_process two 200 (frame_with 27) in
    let back = scheduler_switch_process gone.0 100 (frame_with 43) in
    (back.1 ≡ record (frame_with 27) { int_no = 32; err_code = 0 })
    × (back.0.current_proc ≡ 100)
    × (back.0.esp0 ≡ (two.procs 100).kstack_top)
    × (back.0.cr3 ≡ swap_dir (two.procs 100).page_directory)
switch_there_and_back_example =
    switch_there_and_back two 200 (frame_with 27) (frame_with 43) (omega arith) (omega arith)
      (omega arith)
