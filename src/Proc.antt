-- ===== src/Proc.antt =====
-- kernel/include/proc/proc.h, kernel/include/core/isr.h, kernel/kernel/proc/proc.c,
-- kernel/kernel/proc/scheduler.c, kernel/kernel/drivers/pit.c: saved contexts, the process table, and the
-- round-robin scheduler that the timer drives. A process control block stands at an address; the
-- CPU's CR3 and the TSS's ESP0 are fields of the state, and NULL is 0.
pub mod Create
pub mod Slots
pub mod Pick
pub mod Switch
use brownie_os.Base.{
  ℕ, zero, suc, ◌+◌, ◌-◌, ◌*◌, ◌%◌, bit_and, Bool, true, false, not, ◌&&◌, ◌||◌, Option, none, some,
  ltb, ◌==◌, if◌then◌else◌, update, u32, sub32, mul32,
}

-- `struct context`
pub record Context : Type 0 where
  pub edi : ℕ
  pub esi : ℕ
  pub ebp : ℕ
  pub esp : ℕ
  pub ebx : ℕ
  pub edx : ℕ
  pub ecx : ℕ
  pub eax : ℕ
  pub eip : ℕ
  pub cs : ℕ
  pub eflags : ℕ
  pub useresp : ℕ
  pub ss : ℕ

-- `struct int_regs`
pub record IntRegs : Type 0 where
  pub edi : ℕ
  pub esi : ℕ
  pub ebp : ℕ
  pub esp : ℕ
  pub ebx : ℕ
  pub edx : ℕ
  pub ecx : ℕ
  pub eax : ℕ
  pub int_no : ℕ
  pub err_code : ℕ
  pub eip : ℕ
  pub cs : ℕ
  pub eflags : ℕ
  pub useresp : ℕ
  pub ss : ℕ

-- `enum procstate`
pub data ProcState : Type 0 where
  unused setup running blocked destroy : ProcState

-- `enum procpriority`
pub data ProcPriority : Type 0 where
  low normal high : ProcPriority

-- `struct proc`
pub record Proc : Type 0 where
  pub pid : ℕ
  pub page_directory : ℕ
  pub context : Context
  pub procstate : ProcState
  pub priority : ProcPriority
  pub brk : ℕ
  pub heap_start : ℕ
  pub stack_top : ℕ
  pub stack_size : ℕ
  pub kstack_top : ℕ
  pub kstack_size : ℕ
  pub kstack_base : ℕ
  pub cr3 : ℕ
  pub run_next : ℕ

-- MAXPROC
abbrev pub max_proc : ℕ
max_proc = 64

-- The process table, the blocks at their addresses, `current_proc`, TSS.ESP0 and CR3.
pub record System : Type 0 where
  pub proc_list : ℕ → ℕ
  pub procs : ℕ → Proc
  pub current_proc : ℕ
  pub esp0 : ℕ
  pub cr3 : ℕ

-- `proc_init`: the loop over the table, and no current process.
clear_slots : ℕ → (ℕ → ℕ) → ℕ → ℕ
clear_slots zero t = t
clear_slots (suc n) t = update (clear_slots n t) n 0

unfoldable pub proc_init : System → System
unfolding clear_slots
proc_init s = record s { proc_list = clear_slots max_proc s.proc_list; current_proc = 0 }

-- `proc_context_from_regs`, for pointers that are not NULL; `dest` is written whole.
unfoldable pub proc_context_from_regs : IntRegs → Context
proc_context_from_regs src = record {
  edi = src.edi;
  esi = src.esi;
  ebp = src.ebp;
  esp = src.esp;
  ebx = src.ebx;
  edx = src.edx;
  ecx = src.ecx;
  eax = src.eax;
  eip = src.eip;
  cs = src.cs;
  eflags = src.eflags;
  useresp = src.useresp;
  ss = src.ss;
}

-- `proc_context_to_regs`
unfoldable pub proc_context_to_regs : IntRegs → Context → IntRegs
proc_context_to_regs dest src = record dest {
  edi = src.edi;
  esi = src.esi;
  ebp = src.ebp;
  esp = src.esp;
  ebx = src.ebx;
  edx = src.edx;
  ecx = src.ecx;
  eax = src.eax;
  eip = src.eip;
  cs = src.cs;
  eflags = src.eflags;
  useresp = src.useresp;
  ss = src.ss;
}

-- The first loop of `pick_next_proc`: the slot of `cur`, if any.
pub find_slot : (n i : ℕ) → (ℕ → ℕ) → ℕ → Option ℕ
find_slot zero i t cur = none
find_slot (suc n) i t cur =
    let rest = find_slot n (i + 1) t cur in if t i == cur then some i else rest

abbrev pub is_running : ProcState → Bool
is_running ProcState.running = true
is_running _ = false

-- Whether the scan takes the process at slot `i`: the four `continue` tests.
unfoldable pub eligible : System → (cur i : ℕ) → Bool
eligible s cur i =
    let p = s.proc_list i in
    not (p == 0)
    && not (p == cur)
    && is_running (s.procs p).procstate
    && (bit_and (s.procs p).context.cs 3 == 3)

-- One pass over the table from slot `i` with `n` slots left: the process returned, if any.
pub scan_slots : (n i : ℕ) → System → ℕ → Option ℕ
scan_slots zero i s cur = none
scan_slots (suc n) i s cur =
    let rest = scan_slots n (i + 1) s cur in if eligible s cur i then some (s.proc_list i) else rest

abbrev pub start_slot : Option ℕ → ℕ
start_slot none = 0
start_slot (some i) = i + 1

abbrev pub or_null : Option ℕ → ℕ
or_null none = 0
or_null (some p) = p

abbrev pub or_else : Option ℕ → Option ℕ → Option ℕ
or_else none q = q
or_else (some p) q = some p

-- `pick_next_proc`: one pass from behind the current slot, and one from the start.
unfoldable pub pick_next_proc : System → ℕ → ℕ
pick_next_proc s cur =
    let start = start_slot (find_slot max_proc 0 s.proc_list cur) in
    or_null (or_else (scan_slots (max_proc - start) start s cur) (scan_slots max_proc 0 s cur))

-- `swap_dir`: CR3 gets the physical address of the directory.
abbrev pub swap_dir : ℕ → ℕ
swap_dir dir = sub32 dir 0xC0000000

-- `proc_context_from_regs(&current_proc->context, regs)`
abbrev pub save_context : System → IntRegs → System
save_context s regs = record s {
  procs =
      update s.procs s.current_proc
        (record (s.procs s.current_proc) { context = proc_context_from_regs regs });
}

-- `scheduler_switch_process`
unfoldable pub scheduler_switch_process : System → (next : ℕ) → IntRegs → System × IntRegs
scheduler_switch_process s next regs =
    if next == 0 || next == s.current_proc
    then (s, regs)
    else let s₁ = save_context s regs in
      (
        record s₁ {
          esp0 = (s₁.procs next).kstack_top;
          cr3 = swap_dir (s₁.procs next).page_directory;
          current_proc = next;
        },
        proc_context_to_regs regs (s₁.procs next).context,
      )

-- `scheduler_switch_next`
unfoldable pub scheduler_switch_next : System → IntRegs → System × IntRegs
scheduler_switch_next s regs =
    if not (bit_and regs.cs 3 == 3)
    then (s, regs)
    else let s₁ = save_context s regs in
      scheduler_switch_process s₁ (pick_next_proc s₁ s₁.current_proc) regs

-- `pit_handler`: `tick` is a `uint64_t`, and the slice is 2 seconds of ticks.
unfoldable pub pit_handler :
    (pit_cur_frequency : ℕ) → (tick : ℕ) → System → IntRegs → ℕ × System × IntRegs
pit_handler frequency tick s regs =
    let tick' = (tick + 1) % 18446744073709551616 in
    let slice = frequency * 2 in
    let (s', regs') = scheduler_switch_next s regs in
    if not (slice == 0) && (bit_and regs.cs 3 == 3) && (tick' % slice == 0)
    then (tick', s', regs')
    else (tick', s, regs)
