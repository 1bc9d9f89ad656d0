-- ===== src/Tss.antt =====
-- kernel/kernel/core/tss.c, kernel/include/core/tss.h: the task state segment, from which the
-- processor takes the stack for an interrupt in user mode, and its descriptor.
pub mod Segments
use brownie_os.Base.{ℕ, ◌+◌, ◌-◌, add32}
use brownie_os.Gdt.{GdtEntry, gdt_set_gate}

-- `struct tss_entry`, packed
pub record TssEntry : Type 0 where
  pub prev_tss : ℕ
  pub esp0 : ℕ
  pub ss0 : ℕ
  pub esp1 : ℕ
  pub ss1 : ℕ
  pub esp2 : ℕ
  pub ss2 : ℕ
  pub cr3 : ℕ
  pub eip : ℕ
  pub eflags : ℕ
  pub eax : ℕ
  pub ecx : ℕ
  pub edx : ℕ
  pub ebx : ℕ
  pub esp : ℕ
  pub ebp : ℕ
  pub esi : ℕ
  pub edi : ℕ
  pub es : ℕ
  pub cs : ℕ
  pub ss : ℕ
  pub ds : ℕ
  pub fs : ℕ
  pub gs : ℕ
  pub ldt : ℕ
  pub trap : ℕ
  pub iomap_base : ℕ

-- `sizeof(tss_entry_t)`: 18 fields of 4 bytes and 9 of 2
abbrev pub tss_size : ℕ
tss_size = 90

abbrev pub tss_zero : TssEntry
tss_zero = record {
  prev_tss = 0;
  esp0 = 0;
  ss0 = 0;
  esp1 = 0;
  ss1 = 0;
  esp2 = 0;
  ss2 = 0;
  cr3 = 0;
  eip = 0;
  eflags = 0;
  eax = 0;
  ecx = 0;
  edx = 0;
  ebx = 0;
  esp = 0;
  ebp = 0;
  esi = 0;
  edi = 0;
  es = 0;
  cs = 0;
  ss = 0;
  ds = 0;
  fs = 0;
  gs = 0;
  ldt = 0;
  trap = 0;
  iomap_base = 0;
}

-- The task state segment, the descriptors and the task register
pub record Cpu : Type 0 where
  pub tss : TssEntry
  pub gdt_entries : ℕ → GdtEntry
  pub task_register : ℕ

-- `tss_set_kernel_stack`
unfoldable pub tss_set_kernel_stack : (kstack_top : ℕ) → Cpu → Cpu
tss_set_kernel_stack kstack_top c = record c { tss = record (c.tss) { esp0 = kstack_top } }

-- `tss_init`, by the addresses of `tss` and of `initial_kstack`
unfoldable pub tss_init : (tss_at initial_kstack : ℕ) → Cpu → Cpu
tss_init tss_at initial_kstack c = record {
  tss = record tss_zero { ss0 = 0x10; esp0 = add32 initial_kstack 8192; iomap_base = tss_size };
  gdt_entries = gdt_set_gate 5 tss_at (tss_size - 1) 0x89 0x00 c.gdt_entries;
  task_register = 0x28;
}
