-- ===== src/Startup.antt =====
-- kmain of kernel/kernel/core/kernel.c, up to syscall_init, with isr_init of
-- kernel/kernel/core/interrupts/isr.c: the order in which the kernel's parts are set up. The rest of
-- kmain, init_acpi, parse_madt, pit_init and kernel_three_process_test, stands with its parts.
pub mod Ready
use brownie_os.Base.{ℕ, ◌+◌, Bool, Option, none, some, List, ◌++◌, add32}
use brownie_os.Libc.Memory.{Memory}
use brownie_os.Gdt.{gdt_init}
use brownie_os.Tss.{Cpu, tss_init}
use brownie_os.Interrupts.{IdtEntry, Output, idt_init, isr_set_handler}
use brownie_os.Pmm.{Framemap}
use brownie_os.Kmm.{Kmm, Header, Footer, kheap_init}
use brownie_os.Vmm.{Tables, kmap}
use brownie_os.Proc.{System, proc_init}
use brownie_os.Proc.Create.{Os, kernel_proc_init}
use brownie_os.Paging.{Paging}
use brownie_os.Paging.Clone.{and_then}
use brownie_os.Boot.{Ended, Kernel, paging_init}
use brownie_os.Syscall.{syscall_init}

-- The addresses that the linker gives: the handlers of the page fault, of system calls and of
-- SYS_PRINT_STRING, the stubs, the task state segment, the initial stack, the directory of the
-- kernel and its page tables
pub record Symbols : Type 0 where
  pub page_fault : ℕ
  pub syscall_dispatch : ℕ
  pub sys_print_string : ℕ
  pub stub : ℕ → ℕ
  pub tss : ℕ
  pub initial_kstack : ℕ
  pub kernel_directory_aligned : ℕ
  pub kernel_page_tables : ℕ

-- The machine: `header_place` and `footer_place` are the arrays of the heap as memory has them.
pub record Machine : Type 0 where
  pub cpu : Cpu
  pub idt : ℕ → IdtEntry
  pub out : List Output
  pub kernel : Kernel
  pub header_place : ℕ → ℕ
  pub footer_place : ℕ → ℕ
  pub os : Os
  pub apic_eoi : ℕ
  pub syscall_table : ℕ → ℕ

-- `gdt_init`, which ends in tss_init, and `idt_init`
unfoldable pub set_up_descriptors : Symbols → Machine → Machine
set_up_descriptors y m =
    let gates = idt_init y.stub m.idt in
    record m {
      cpu =
          tss_init y.tss y.initial_kstack
            (record (m.cpu) { gdt_entries = gdt_init m.cpu.gdt_entries });
      idt = gates.1;
      out = m.out ++ gates.0;
    }

-- `kheap_init`, with the frames that paging_init has left
abbrev pub heap_ready : Kernel → Machine → Option (Kmm × Framemap) → Ended Machine
heap_ready k m none = Ended.running
heap_ready k m (some (heap, framemap)) = Ended.returned (record m {
  kernel = record k { paging = record (k.paging) { framemap = framemap } };
  os = record (m.os) {
    heap = heap;
    pages = record (m.os.pages) { paging = record (k.paging) { framemap = framemap } };
  };
})

abbrev pub set_up_heap : (f : ℕ) → Machine → Kernel → Ended Machine
set_up_heap f m k =
    heap_ready k m
      (kheap_init f k.paging.framemap m.header_place m.footer_place m.os.heap.hdr m.os.heap.ftr)

-- `proc_init`, `kernel_proc_init`, `scheduler_init`, which is empty, `isr_init`, which keeps the address
-- of the local APIC's register of the end of an interrupt, and `syscall_init`
unfoldable pub set_up_processes : Symbols → Machine → Machine
set_up_processes y m =
    let o = record (m.os) { system = proc_init m.os.system } in
    let eoi = kmap 0xFEE000B0 m.os.pages.window in
    let with_kernel = kernel_proc_init y.kernel_directory_aligned o in
    record m {
      os = record with_kernel { pages = record (m.os.pages) { window = eoi.1 } };
      apic_eoi = eoi.0;
      kernel = record (m.kernel) {
        isr_handlers = isr_set_handler 0x80 y.syscall_dispatch m.kernel.isr_handlers;
      };
      syscall_table = (syscall_init y.sys_print_string).1;
    }

-- `kmain`, up to `syscall_init`
unfoldable pub kmain : (f : ℕ) → Symbols → (mbd magic : ℕ) → Memory → Machine → Ended Machine
kmain f y mbd magic mem m =
    let described = set_up_descriptors y m in
    and_then
      (paging_init f y.page_fault y.kernel_directory_aligned y.kernel_page_tables mbd magic mem
        described.kernel)
      (λ k. and_then (set_up_heap f described k) (λ t. Ended.returned (set_up_processes y t)))
