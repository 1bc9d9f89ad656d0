-- ===== src/Interrupts/Dispatch.antt =====
-- isr.c with pit.c and scheduler.c: the way of an interrupt through the handlers' table.
use brownie_os.Base.{
  ℕ, ◌≡◌, refl, ◌≢◌, arith, ◌==◌, ne→==, Bool-cases, inl, inr, bit_and, update_self, update_ne,
}
use brownie_os.Proc.{
  System, IntRegs, scheduler_switch_next, scheduler_switch_process, save_context, pick_next_proc,
  proc_context_to_regs,
}
use brownie_os.Interrupts.{isr_set_handler, isr_handler, end_of_interrupt, irq_handler}

-- The scheduler writes the context of another process into the frame, not the vector's number.
switch_process_int_no :
    (s : System) (next : ℕ) (regs : IntRegs)
    → (scheduler_switch_process s next regs).1.int_no ≡ regs.int_no
unfolding scheduler_switch_process proc_context_to_regs
switch_process_int_no s next regs = ground arith

pub switch_next_int_no :
    (s : System) (regs : IntRegs) → (scheduler_switch_next s regs).1.int_no ≡ regs.int_no
unfolding scheduler_switch_next
switch_next_int_no s regs = elim (Bool-cases (bit_and regs.cs 3 == 3)) [
  | inl user ↦ rw user (
      switch_process_int_no (save_context s regs)
        (pick_next_proc (save_context s regs) s.current_proc) regs)
  | inr kernel ↦ rw kernel refl
]

-- A handler that is set for a vector is the one that an exception or an interrupt of that vector
-- calls, and no other vector's handler changes.
pub isr_set_handler-dispatch {ℓ} :
    {W : Type ℓ}
    → (handlers : ℕ → ℕ) (run : ℕ → IntRegs → W → IntRegs × W) → (int_no handler : ℕ) → handler ≢ 0
    → let set = isr_set_handler int_no handler handlers in
      ((regs : IntRegs) (w : W)
        → regs.int_no ≡ int_no
        → (isr_handler set run regs w ≡ run handler regs w)
          × (irq_handler set run regs w
              ≡ (run handler regs w, end_of_interrupt (run handler regs w).0)))
      × ((regs : IntRegs) (w : W)
          → regs.int_no ≢ int_no
          → isr_handler set run regs w ≡ isr_handler handlers run regs w)
unfolding isr_set_handler isr_handler irq_handler
isr_set_handler-dispatch handlers run int_no handler nonnull =
    let self = update_self handlers int_no handler in
    (
      (λ regs w e. rw (e, self, ne→== handler 0 nonnull) (refl, refl)),
      (λ regs w ne. rw (update_ne handlers int_no regs.int_no handler ne) refl),
    )
