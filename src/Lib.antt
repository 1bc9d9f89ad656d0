-- ===== src/Lib.antt =====
-- BrownieOS: a 32-bit x86 kernel and its C library.
--
-- The program's parts and how they interact: the frame allocator (kernel/kernel/mm/paging.c)
-- marks 4 KiB frames in a bitmap; the kernel heap (kernel/kernel/mm/kmm.c) takes 1024 of them
-- once and cuts them into blocks, whose headers and footers it lists in two ordered arrays
-- (kernel/kernel/core/common.c). The timer interrupt (kernel/kernel/drivers/pit.c) calls the
-- round-robin scheduler (kernel/kernel/proc/scheduler.c), which saves and loads register frames.
-- It enters through the gates of kernel/kernel/core/interrupts/idt.c, on the stack that the task
-- state segment (kernel/kernel/core/tss.c) names, and the handlers' table of isr.c beside it.
-- paging_init sets up the kernel's window onto physical memory and reserves what the boot
-- loader's memory map does not give; proc_map_pages (kernel/kernel/proc/proc.c) maps pages for a
-- process, with frames of alloc_pages for its page tables. kernel/kernel/core/acpi.c finds and
-- kernel/kernel/core/madt.c reads the tables of the firmware. System calls
-- (kernel/kernel/core/syscall.c) read strings from the memory of the current process.
-- kernel/kernel/core/kernel.c makes three user processes, whose machine code prints a message
-- each; kernel/kernel/core/interrupts/ioapic.c and apic.c set up the interrupt controllers.
-- printf (libc/stdio/printf.c) formats, and the VGA terminal (kernel/kernel/drivers/tty.c) shows.
--
-- Files. Base: shared names, Boolean tests, 32-bit words, memory as a function. OrderedArray: the
-- ordered array of common.c, one function per operation (init_ordered_array_place,
-- insert_ordered_array, remove_ordered_array, find_ordered_array), with a child module for each.
-- Pmm: the bitmap (set_frame, clear_frame, test_frame), alloc_pages, free_pages and reserve of
-- paging.c; Pmm/Scan is on the search loop, Pmm/Highmem and Pmm/Reserve on its edges. Kmm: alloc,
-- free, their helpers and kheap_init of kmm.c; Kmm/Layout and Kmm/State say what a well-formed
-- heap is, Kmm/Split, SplitBlock, Merge, Merged and Coalesce are on cutting and joining blocks,
-- Alloc, Free, Init and Corrupt on the operations, Regions and History on the live regions that
-- clients see and on sequences of kmalloc and kfree. Libc/Itoa: itoa and its five relatives;
-- Libc/Printf: vprintf and vsnprintf; Libc/Memory: libc/string. Vmm: kmap and kunmap of
-- kernel/kernel/mm/vmm.c, the temporary mappings of physical pages. Proc: the structs of proc.h
-- and isr.h, the contexts of proc.c, scheduler.c, and pit_handler; Proc/Pick and Proc/Switch are
-- on the choice and the switch. Syscall: user_addr_accessible, copy_user_string, the handler
-- table, sys_print_string. Tty: the terminal, with Tty/Scroll on the buffer and Tty/Tape on the
-- terminal as a window on a tape. Gdt: the segment descriptors of kernel/kernel/core/gdt.c. Tss:
-- tss_init and tss_set_kernel_stack. Interrupts: idt_init and its gates, isr_set_handler,
-- isr_handler and irq_handler; Interrupts/Dispatch is on the handlers' table, Slices on the
-- timer's interrupts and the scheduler. Tss/Segments is on what the processor reads of the segment. Paging: page directories and tables, setup_kernel_directory and proc_map_pages;
-- Paging/Walk is what the processor finds for an address, Setup the window, Open, Table and Map
-- one page, Range a range; Paging/Clone is clone_page_dir. Proc/Create: kernel_proc_init,
-- create_proc and proc_enter. Boot: reserve_mem_map and paging_init. Madt: parse_madt;
-- Madt/Encode is the encoding of a table's records, Parse and Contents the way back, Stuck the
-- records that it does not know. Acpi: find_rsdp and the checksums; Acpi/Tables: find_table and
-- the copies of the tables, by physical addresses, with Tables/Find on the search and Tables/Copy
-- on the copies. Apic: init_ioapic, init_apic and pit_init; Apic/Codec is on the bit fields of a
-- redirection entry, Overrides and Table on the redirection table, Timer on the divisor. Startup:
-- kmain up to syscall_init, with Startup/Ready on what is set up then. Demo:
-- make_user_proc_with_message and kernel_three_process_test; Demo/Stores, Pages, Mapped, Build and
-- Install are on the two pages of a process, Program runs the machine code, Prints follows it
-- into the kernel; Demo/Single is kernel_single_process_test, Single/Calls runs its program.
-- Hpet: init_hpet and hpet_handler of kernel/kernel/drivers/hpet.c, Hpet/Timers is on the timers'
-- registers. Examples: the theorems on concrete inputs.
--
-- State is passed explicitly. A `uint32_t` is a native number below 2 ^ 32 with its wrap-around
-- written out (add32, sub32, mul32). Memory is a function from addresses; the heap's headers and
-- footers are typed cells. NULL is 0.
--
-- Fuel: alloc_pages has one round per frame looked at, 229377 rounds for lowmem and 819200 for
-- highmem, and a further round finds nothing new. reserve runs 2 ^ 20 rounds, one for each frame
-- that there is. The digit loops run one round for each bit of the number. vprintf and vsnprintf
-- run one round more than the format has characters.
--
-- The walk over a MADT takes one round for each record and one to see the end, that over the
-- memory map likewise; the checksum of a table takes one round for each byte. find_rsdp looks at
-- the 8192 candidates that there are.
--
-- A device is a function from its registers. What a register of the I/O APIC holds after a write
-- is a parameter, one of the HPET holds what is written; the fields that the code leaves
-- uninitialised, and the quotient of two doubles in init_hpet, are parameters too.
--
-- Not modelled: assembly; the flush of the TLB; port and register I/O but for what idt_init,
-- irq_handler, pit_init, init_ioapic, init_apic and init_hpet do; and what the kernel prints of
-- its own progress, but for the records that parse_madt prints. init_hpet and the single-process
-- test stand by themselves, since kmain calls neither. kmain is not joined to the tables of the
-- firmware, which are read by physical address.
pub mod Acpi
pub mod Base
pub mod Boot
pub mod Examples
pub mod OrderedArray
pub mod Pmm
pub mod Kmm
pub mod Libc
pub mod Proc
pub mod Syscall
pub mod Tty
pub mod Vmm
pub mod Interrupts
pub mod Madt
pub mod Paging
pub mod Demo
pub mod Hpet
pub mod Startup
pub mod Apic
pub mod Gdt
pub mod Tss
