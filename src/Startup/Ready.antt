-- ===== src/Startup/Ready.antt =====
-- kmain: the kernel once its parts are set up.
use brownie_os.Base.{
  ℕ, suc, ◌-◌, ◌+◌, ◌*◌, ◌/◌, ◌%◌, ◌<◌, ◌≤◌, ◌≡◌, ◌≢◌, refl, sym, ap, ◌∙◌, arith, inl, inr, Bool,
  false, some, [], ◌||◌, bit_and, add32, ne→==, update_self, update_ne,
}
use brownie_os.Libc.Memory.{Memory}
use brownie_os.Madt.{u32_at}
use brownie_os.Pmm.{test_frame}
use brownie_os.Pmm.Bitmap.{IsBytes}
use brownie_os.Pmm.Scan.{FreeRun}
use brownie_os.Kmm.{Kmm, kheap_pages, align_size, kmalloc}
use brownie_os.Kmm.State.{blocks, block_size, block_used, IsHeap}
use brownie_os.Kmm.Init.{kheap_init-IsHeap}
use brownie_os.Kmm.Regions.{Serves, IsServable, alloc-Serves}
use brownie_os.Tss.Segments.{Segments, set_stacks, last_stack, tss_init-Segments}
use brownie_os.Interrupts.{isr_set_handler}
use brownie_os.Interrupts.Gates.{IsGate, idt_init-gates}
use brownie_os.Syscall.{syscall_register}
use brownie_os.Proc.{Proc, ProcState, ProcPriority, proc_init}
use brownie_os.Proc.Create.{kernel_proc_init}
use brownie_os.Paging.{frame_of, to_virt}
use brownie_os.Paging.Clone.{and_then}
use brownie_os.Paging.Walk.{walk}
use brownie_os.Boot.{Ended, Kernel, mmap_entry_at}
use brownie_os.Boot.Regions.{claimed, IsRegion}
use brownie_os.Boot.Start.{Started, paging_init-Started}
use brownie_os.Startup.{
  Symbols, Machine, set_up_descriptors, heap_ready, set_up_heap, set_up_processes, kmain,
}

-- A heap of one free block has room for a block of a process.
first-IsServable : (s : Kmm) → blocks s ≡ 1 → block_size s 0 ≡ 1024 * 4096 - 32 → IsServable s 104
unfolding align_size
first-IsServable s one large i inside unused fits =
    let e : i ≡ 0 = omega (arith, inside, one) in rw e (inl (omega (arith, large)))

-- The block of the kernel's process, in a heap with one free block of almost 4 MiB
kernel_block-Serves :
    (s : Kmm)
    → IsHeap s
    → blocks s ≡ 1
    → block_used s 0 ≡ 0
    → block_size s 0 ≡ 1024 * 4096 - 32
    → Serves s 104 (kmalloc s 104).0 (kmalloc s 104).1
unfolding align_size
kernel_block-Serves s heap one unused large =
    elim (alloc-Serves {s = s} 104 heap (omega (arith, one)) (omega arith) (omega arith)
      (first-IsServable s one large)) [
        | inl served ↦ served
        | inr (null, same, none_fits) ↦
            absurd (omega (arith, large, none_fits 0 (omega (arith, one)) unused))
      ]

-- The kernel is ready to make processes: the segments and the task state segment, gates for the timer
-- and for system calls, the handlers, the window onto the low 896 MiB, a well-formed heap, and the
-- process of the kernel, in a block that the heap serves.
pub record Ready (y : Symbols) (m t : Machine) : Type 0 where
  pub segments : Segments y.tss (add32 y.initial_kstack 8192) t.cpu
  pub timer_gate : IsGate (t.idt 32) (y.stub 32) 0b10001110
  pub call_gate : IsGate (t.idt 128) (y.stub 128) 0b11101110
  pub fault_handler : t.kernel.isr_handlers 14 ≡ y.page_fault
  pub call_handler : t.kernel.isr_handlers 128 ≡ y.syscall_dispatch
  pub print_call : t.syscall_table 1 ≡ y.sys_print_string
  pub window :
      (p : ℕ)
      → p < 939524096
      → (word : ℕ) × (walk t.os.pages.paging y.kernel_directory_aligned (to_virt p) ≡ some word)
        × (frame_of word ≡ p / 4096)
  pub served : (s : Kmm) × Serves s 104 t.os.heap t.os.system.current_proc
  pub slot : t.os.system.proc_list m.os.pid_ctr ≡ t.os.system.current_proc
  pub state : (t.os.system.procs t.os.system.current_proc).procstate ≡ ProcState.running
  pub directory :
      (t.os.system.procs t.os.system.current_proc).page_directory ≡ y.kernel_directory_aligned

-- What is set up before the processes, given what paging_init and kheap_init have left
module _ (y : Symbols) (m t : Machine) where
  abbrev final : Machine
  final = set_up_processes y t

  -- The block of the kernel's process
  abbrev kernel_block : Proc
  kernel_block = record (t.os.system.procs (kmalloc t.os.heap 104).1) {
    pid = t.os.pid_ctr;
    procstate = ProcState.running;
    priority = ProcPriority.high;
    page_directory = y.kernel_directory_aligned;
    brk = 0;
    heap_start = 0;
    stack_top = 0;
    stack_size = 0;
  }

  block_is : final.os.system.procs final.os.system.current_proc ≡ kernel_block
  unfolding set_up_processes kernel_proc_init proc_init
  block_is = update_self t.os.system.procs (kmalloc t.os.heap 104).1 kernel_block

  processes-Ready :
      y.sys_print_string ≢ 0
      → t.kernel.isr_handlers 14 ≡ y.page_fault
      → Segments y.tss (add32 y.initial_kstack 8192) t.cpu
      → IsGate (t.idt 32) (y.stub 32) 0b10001110
      → IsGate (t.idt 128) (y.stub 128) 0b11101110
      → ((p : ℕ)
          → p < 939524096
          → (word : ℕ) × (walk t.os.pages.paging y.kernel_directory_aligned (to_virt p) ≡ some word)
            × (frame_of word ≡ p / 4096))
      → Serves t.os.heap 104 (kmalloc t.os.heap 104).0 (kmalloc t.os.heap 104).1
      → t.os.pid_ctr ≡ m.os.pid_ctr
      → Ready y m final
  unfolding set_up_processes kernel_proc_init proc_init isr_set_handler syscall_register
  processes-Ready call fault segments timer call_gate window served pid =
      let p : ℕ = (kmalloc t.os.heap 104).1 in
      let handler : ℕ → ℕ = t.kernel.isr_handlers in
      let other : 14 ≢ 128 = λ e. omega (arith, e) in
      record {
        segments = segments;
        timer_gate = timer;
        call_gate = call_gate;
        fault_handler = update_ne handler 128 14 y.syscall_dispatch other ∙ fault;
        call_handler = update_self handler 128 y.syscall_dispatch;
        print_call = rw (ne→== y.sys_print_string 0 call) refl;
        window = window;
        served = (t.os.heap, served);
        slot =
            ap final.os.system.proc_list (sym pid)
            ∙ update_self (proc_init t.os.system).proc_list t.os.pid_ctr p;
        state = ap (λ (b : Proc). b.procstate) block_is;
        directory = ap (λ (b : Proc). b.page_directory) block_is;
      }

module _ (extra n k mbd : ℕ) (y : Symbols) (mem : Memory) (m : Machine) where
  abbrev info : ℕ
  info = add32 mbd 0xC0000000

  abbrev base : ℕ
  base = add32 (u32_at mem (add32 mbd 0xC0000000) 48) 0xC0000000

  -- The heap's frames, and all that follows them
  heap-Ready :
      (k' : Kernel)
      → Started y.page_fault y.kernel_directory_aligned n base mem m.kernel k'
      → FreeRun k'.paging.framemap k kheap_pages
      → k + kheap_pages ≤ 229376
      → y.sys_print_string ≢ 0
      → y.tss < 4294967296
      → ((v : ℕ) → y.stub v < 4294967296)
      → (t : Machine) × (and_then
            (set_up_heap (229376 + suc extra) (set_up_descriptors y m) k')
            (λ t. Ended.returned (set_up_processes y t))
          ≡ Ended.returned t)
        × Ready y m t
  unfolding set_up_descriptors set_stacks last_stack
  heap-Ready k' started run fits call tss stubs =
      let described = set_up_descriptors y m in
      let (heap, framemap, first, e, al, begins, is_heap, one, unused, large) =
        kheap_init-IsHeap extra k k'.paging.framemap m.header_place m.footer_place m.os.heap.hdr
          m.os.heap.ftr started.bytes fits run in
      let t : Machine = record described {
        kernel = record k' { paging = record (k'.paging) { framemap = framemap } };
        os = record (m.os) {
          heap = heap;
          pages = record (m.os.pages) { paging = record (k'.paging) { framemap = framemap } };
        };
      } in
      let gates = idt_init-gates y.stub stubs m.idt in
      (
        set_up_processes y t,
        ap (λ r. and_then (heap_ready k' described r) (λ t. Ended.returned (set_up_processes y t)))
            e,
        processes-Ready y m t call started.handler
            (tss_init-Segments y.tss y.initial_kstack [] m.cpu tss).0 (gates.0 32 (omega arith))
            gates.1 (λ p h. window_of started p h)
            (kernel_block-Serves heap is_heap one unused large) refl,
      )
    where
      window_of :
          {k' : Kernel}
          → Started y.page_fault y.kernel_directory_aligned n base mem m.kernel k'
          → (p : ℕ) → p < 939524096
          → (word : ℕ) × (walk k'.paging y.kernel_directory_aligned (to_virt p) ≡ some word)
            × (frame_of word ≡ p / 4096)
      window_of {k' = k'} started p h = let w = started.window p h in (w.0, w.1, w.2)

  -- kmain, with the boot loader's magic number and a memory map as paging_init asks for, an aligned
  -- array of page tables in the upper quarter of the address space, 1024 free frames in a row above
  -- 4 MiB and below 896 MiB that the memory map does not claim, and fuel for the search for frames
  -- and for the entries of the map: it comes to the end of syscall_init, and the kernel is ready.
  pub kmain-Ready :
      y.kernel_page_tables % 4096 ≡ 0
      → 3221225472 ≤ y.kernel_page_tables
      → y.kernel_page_tables + 1048576 ≤ 4294967296
      → n < 229376 + suc extra
      → bit_and (u32_at mem info 0) 0x20 ≢ 0
      → u32_at mem info 44 ≡ n * 24
      → n * 24 < 4294967296
      → u32_at mem info 48 < 4294967296
      → base + n * 24 ≤ 4294967296
      → ((i : ℕ) → i < n → IsRegion (mmap_entry_at mem (base + i * 24)))
      → IsBytes m.kernel.paging.framemap
      → 1024 ≤ k
      → k + kheap_pages ≤ 229376
      → ((j : ℕ)
          → k ≤ j
          → j < k + kheap_pages
          → (claimed mem n base (j * 4096) ≡ false)
            × (test_frame m.kernel.paging.framemap (j * 4096) ≡ false))
      → y.sys_print_string ≢ 0
      → y.tss < 4294967296
      → ((v : ℕ) → y.stub v < 4294967296)
      → (t : Machine) × (kmain (229376 + suc extra) y mbd 0x2BADB002 mem m ≡ Ended.returned t)
        × Ready y m t
  unfolding kmain set_up_descriptors
  kmain-Ready aligned upper top enough given len small low_addr inside regions bytes above fits
        unused call tss stubs =
      let (k', e, started) =
        paging_init-Started (229376 + suc extra) y.page_fault y.kernel_directory_aligned
          y.kernel_page_tables mbd n mem m.kernel aligned upper top enough given len small low_addr
          inside regions bytes in
      let run : FreeRun k'.paging.framemap k kheap_pages = λ j lo hi.
        started.high (j * 4096) (omega (arith, above, lo))
        ∙ free_frame (unused j lo hi).0 (unused j lo hi).1 in
      let done = heap-Ready k' started run fits call tss stubs in
      (
        done.0,
        ap
              (λ r. and_then r (λ k''.
                and_then (set_up_heap (229376 + suc extra) (set_up_descriptors y m) k'')
                  (λ t. Ended.returned (set_up_processes y t))))
              e
            ∙ done.1,
        done.2,
      )
    where
      free_frame : {a b : Bool} → a ≡ false → b ≡ false → (a || b) ≡ false
      free_frame {a = a} {b = b} ea eb = rw (ea, eb) refl
