-- ===== src/Examples/Traps.antt =====
-- Interrupts and segments on concrete inputs.
use brownie_os.Base.{
  ℕ, ◌+◌, ◌*◌, ◌%◌, ◌≤◌, ◌<◌, ◌≡◌, ◌≢◌, refl, arith, ◌⊎◌, some, [], ◌∷◌, ◌++◌, bit_and,
}
use brownie_os.Proc.{IntRegs, scheduler_switch_next}
use brownie_os.Gdt.{GdtEntry, gdt_init}
use brownie_os.Tss.{Cpu, tss_zero, tss_init}
use brownie_os.Tss.Segments.{Segments, set_stacks, last_stack, ring0_stack, tss_init-Segments}
use brownie_os.Interrupts.{no_gate, idt_init, isr_set_handler, irq_handler}
use brownie_os.Interrupts.Gates.{IsGate, idt_init-gates}
use brownie_os.Interrupts.Slices.{
  timer_only, served, told, acknowledged, Frames, timer_interrupts-slice,
}
use brownie_os.Examples.Processes.{two, frame_with}

-- Stubs of 16 bytes from 1 MiB on
abbrev stubs : ℕ → ℕ
stubs n = 0xC0100000 + n % 256 * 16

idt_init-gates_example :
    ((k : ℕ) → k < 48 → IsGate ((idt_init stubs (λ i. no_gate)).1 k) (stubs k) 0b10001110)
    × IsGate ((idt_init stubs (λ i. no_gate)).1 128) (stubs 128) 0b11101110
    × ((k : ℕ) → 48 ≤ k → k < 256 → k ≢ 128 → (idt_init stubs (λ i. no_gate)).1 k ≡ no_gate)
idt_init-gates_example = idt_init-gates stubs (λ n. omega arith) (λ i. no_gate)

-- The disk's interrupt, of the slave's line 14
abbrev disk : IntRegs
disk = record (frame_with 8) { int_no = 46 }

-- A slice of 200 ticks ends with the second tick; an interrupt of the disk and a tick in kernel mode
-- come before.
timer_interrupts-slice_example :
    let set = isr_set_handler 32 5000 (λ i. 0) in
    let before = disk ∷ frame_with 8 ∷ [] in
    let all = disk ∷ frame_with 8 ∷ frame_with 27 ∷ [] in
    let result = served set (timer_only 100 5000) all (198, two) in
    let switched = scheduler_switch_next two (frame_with 27) in
    (((bit_and (frame_with 27).cs 3 ≡ 3)
        × (result ≡ ((200, switched.0), before ++ (switched.1 ∷ []), told all)))
      ⊎ ((bit_and (frame_with 27).cs 3 ≢ 3) × (result ≡ ((200, two), all, told all))))
    × ((t : ℕ)
        → irq_handler set (timer_only 0 5000) (frame_with 27) (t, two)
          ≡ ((frame_with 27, ((t + 1) % 18446744073709551616, two)), acknowledged 32))
timer_interrupts-slice_example =
    timer_interrupts-slice (λ i. 0) 100 5000 198 1 two (disk ∷ frame_with 8 ∷ []) (frame_with 27)
      (omega arith)
      (Frames.other disk (omega arith) refl (Frames.timer (frame_with 8) refl Frames.none)) refl
      refl (omega arith)

abbrev no_segment : GdtEntry
no_segment = record {
  limit_low = 0;
  base_low = 0;
  base_middle = 0;
  access = 0;
  granularity = 0;
  base_high = 0;
}

abbrev pub reset : Cpu
reset = record { tss = tss_zero; gdt_entries = λ i. no_segment; task_register = 0 }

-- Two processes are switched to.
tss_init-Segments_example :
    let ready =
      tss_init 0xC0123456 0xC0200000 (record reset { gdt_entries = gdt_init (λ i. no_segment) }) in
    let u = set_stacks (0xC0300000 ∷ 0xC0304000 ∷ []) ready in
    Segments 0xC0123456 0xC0304000 u × (ring0_stack u ≡ some (0x10, 0xC0304000))
unfolding last_stack
tss_init-Segments_example =
    tss_init-Segments 0xC0123456 0xC0200000 (0xC0300000 ∷ 0xC0304000 ∷ []) reset (omega arith)
