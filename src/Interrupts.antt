-- ===== src/Interrupts.antt =====
-- kernel/kernel/core/interrupts/idt.c and isr.c, kernel/include/core/idt.h: the interrupt
-- descriptor table and the dispatch of interrupts to handlers. `stub` gives the addresses of the
-- assembly stubs isr0 to isr31, irq0 to irq15 (vectors 32 to 47) and isr128. What the code writes
-- to ports and to the local APIC is a list, first to last.
pub mod Gates
pub mod Dispatch
pub mod Slices
use brownie_os.Base.{
  ℕ, zero, suc, ◌+◌, ◌*◌, ◌/◌, ◌%◌, Bool, true, false, not, List, [], ◌∷◌, ◌++◌, ltb, leb, ◌==◌,
  if◌then◌else◌, update,
}
use brownie_os.Proc.{IntRegs, System, pit_handler}

-- `struct idt_entry`
pub record IdtEntry : Type 0 where
  pub base_low : ℕ
  pub selector : ℕ
  pub reserved : ℕ
  pub flags : ℕ
  pub base_high : ℕ

-- `idt_set_gate`: `& 0xFFFF` is written as a remainder.
unfoldable pub idt_set_gate : (index base selector flags : ℕ) → (ℕ → IdtEntry) → ℕ → IdtEntry
idt_set_gate index base selector flags entries = update entries index (record {
  base_low = base % 65536;
  base_high = base / 65536 % 65536;
  selector = selector;
  reserved = 0;
  flags = flags;
})

-- The calls of `idt_set_gates` for the vectors below `n`, in their order
pub set_stubs : (n : ℕ) → (stub : ℕ → ℕ) → (ℕ → IdtEntry) → ℕ → IdtEntry
set_stubs zero stub entries = entries
set_stubs (suc n) stub entries = idt_set_gate n (stub n) 0x08 0b10001110 (set_stubs n stub entries)

-- `idt_set_gates`
unfoldable pub idt_set_gates : (stub : ℕ → ℕ) → (ℕ → IdtEntry) → ℕ → IdtEntry
idt_set_gates stub entries = idt_set_gate 128 (stub 128) 0x08 0b11101110 (set_stubs 48 stub entries)

-- What goes out: a byte to a port, or a word to the end-of-interrupt register of the local APIC.
pub data Output : Type 0 where
  outb : (port value : ℕ) → Output
  apic_eoi : (value : ℕ) → Output

-- `irq_remap`
unfoldable pub irq_remap : List Output
irq_remap =
    outb 0x20 0x11
    ∷ outb 0xA0 0x11
    ∷ outb 0x21 0x20
    ∷ outb 0xA1 0x28
    ∷ outb 0x21 0x04
    ∷ outb 0xA1 0x02
    ∷ outb 0x21 0x01
    ∷ outb 0xA1 0x01
    ∷ outb 0x21 0x0
    ∷ outb 0xA1 0x0
    ∷ []

abbrev pub no_gate : IdtEntry
no_gate = record { base_low = 0; selector = 0; reserved = 0; flags = 0; base_high = 0 }

-- `memset` of the table's 256 entries
unfoldable pub clear_gates : (ℕ → IdtEntry) → ℕ → IdtEntry
clear_gates entries i = if ltb i 256 then no_gate else entries i

-- `idt_init`, without the load of the table register.
unfoldable pub idt_init : (stub : ℕ → ℕ) → (ℕ → IdtEntry) → List Output × (ℕ → IdtEntry)
idt_init stub entries = (irq_remap, idt_set_gates stub (clear_gates entries))

-- `isr_set_handler`, on the table of handlers' addresses
unfoldable pub isr_set_handler : (int_no handler : ℕ) → (ℕ → ℕ) → ℕ → ℕ
isr_set_handler int_no handler handlers = update handlers int_no handler

-- `isr_handler`: `run` calls the handler at an address; without one a message is printed.
unfoldable pub isr_handler {ℓ} :
    {W : Type ℓ}
    → (handlers : ℕ → ℕ) (run : ℕ → IntRegs → W → IntRegs × W) → IntRegs
    → W
    → IntRegs × W
isr_handler handlers run registers w =
    let handler = handlers registers.int_no in
    if not (handler == 0) then run handler registers w else (registers, w)

-- The end of `irq_handler`: the local APIC, the slave PIC for the vectors from 40 on, the master.
unfoldable pub end_of_interrupt : IntRegs → List Output
end_of_interrupt registers =
    apic_eoi 0
    ∷ (if leb 40 registers.int_no
        then outb 0xA0 0x20 ∷ outb 0x20 0x20 ∷ []
        else outb 0x20 0x20 ∷ [])

-- `irq_handler`
unfoldable pub irq_handler {ℓ} :
    {W : Type ℓ}
    → (handlers : ℕ → ℕ) (run : ℕ → IntRegs → W → IntRegs × W) → IntRegs
    → W
    → (IntRegs × W) × List Output
irq_handler handlers run registers w =
    let after = isr_handler handlers run registers w in (after, end_of_interrupt after.0)
