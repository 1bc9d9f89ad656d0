-- ===== src/Proc/Switch.antt =====
-- scheduler.c: what a switch changes and what it keeps.
use brownie_os.Base.{
  ℕ, ◌+◌, ◌%◌, ◌*◌, ◌≡◌, refl, ap, ◌∙◌, sym, ◌≢◌, ◌⊎◌, inl, inr, ◌==◌, ne→==, eq→==, Bool-cases,
  bit_and, update_self, update_ne,
}
use brownie_os.Proc.{
  System, IntRegs, Proc, proc_context_from_regs, proc_context_to_regs, scheduler_switch_process,
  scheduler_switch_next, swap_dir, pit_handler,
}

-- Registers that are saved and written back are the registers that were saved, apart from the
-- interrupt number and the error code, which stay those of the frame written to.
pub context_round_trip :
    (dest src : IntRegs)
    → proc_context_to_regs dest (proc_context_from_regs src)
      ≡ record src { int_no = dest.int_no; err_code = dest.err_code }
unfolding proc_context_to_regs proc_context_from_regs
context_round_trip dest src = refl

-- A switch to the process block `next`, another one than the current one: the registers that the
-- interrupted process had are in its block, CR3, ESP0 and the current process are those of
-- `next`, the frame that IRET pops holds the context of `next`, and all other blocks are as before.
pub record Switched (s : System) (next : ℕ) (regs : IntRegs) (s' : System) (regs' : IntRegs)
    : Type 0 where
  pub saved :
      s'.procs s.current_proc
      ≡ record (s.procs s.current_proc) { context = proc_context_from_regs regs }
  pub kept : (p : ℕ) → p ≢ s.current_proc → s'.procs p ≡ s.procs p
  pub table : s'.proc_list ≡ s.proc_list
  pub current : s'.current_proc ≡ next
  pub stack : s'.esp0 ≡ (s.procs next).kstack_top
  pub directory : s'.cr3 ≡ swap_dir (s.procs next).page_directory
  pub frame : regs' ≡ proc_context_to_regs regs (s.procs next).context

-- `scheduler_switch_process` to a process that is neither NULL nor the current one.
pub scheduler_switch_process-Switched :
    (s : System) (next : ℕ) (regs : IntRegs)
    → next ≢ 0
    → next ≢ s.current_proc
    → Switched s next regs
        (scheduler_switch_process s next regs).0
        (scheduler_switch_process s next regs).1
unfolding scheduler_switch_process
scheduler_switch_process-Switched s next regs nonnull other =
    let null = ne→== next 0 nonnull in
    let same = ne→== next s.current_proc other in
    rw (null, same)
      (record {
        saved =
            update_self s.procs s.current_proc
              (record (s.procs s.current_proc) { context = proc_context_from_regs regs });
        kept = λ p ne.
            update_ne s.procs s.current_proc p
              (record (s.procs s.current_proc) { context = proc_context_from_regs regs }) ne;
        table = refl;
        current = refl;
        stack = refl;
        directory = refl;
        frame = refl;
      })

-- `scheduler_switch_process` to NULL or to the current process changes nothing.
pub scheduler_switch_process-stays :
    (s : System) (next : ℕ) (regs : IntRegs)
    → (next ≡ 0) ⊎ (next ≡ s.current_proc)
    → scheduler_switch_process s next regs ≡ (s, regs)
unfolding scheduler_switch_process
scheduler_switch_process-stays s next regs h = elim h [
  | inl null ↦ rw (eq→== next 0 null) refl
  | inr same ↦
      rw (eq→== next s.current_proc same)
        (elim (Bool-cases (next == 0)) [ inl e ↦ rw e refl | inr e ↦ rw e refl ])
]

-- A switch to another process and, with whatever registers that one has by then, a switch back:
-- the process resumes with the registers it was interrupted with, on its own kernel stack and in
-- its own address space.
pub switch_there_and_back :
    (s : System) (next : ℕ) (regs later : IntRegs)
    → s.current_proc ≢ 0
    → next ≢ 0
    → next ≢ s.current_proc
    → let gone = scheduler_switch_process s next regs in
      let back = scheduler_switch_process gone.0 s.current_proc later in
      (back.1 ≡ record regs { int_no = later.int_no; err_code = later.err_code })
      × (back.0.current_proc ≡ s.current_proc)
      × (back.0.esp0 ≡ (s.procs s.current_proc).kstack_top)
      × (back.0.cr3 ≡ swap_dir (s.procs s.current_proc).page_directory)
switch_there_and_back s next regs later cur nonnull other =
    let gone = scheduler_switch_process s next regs in
    let there = scheduler_switch_process-Switched s next regs nonnull other in
    let back =
      scheduler_switch_process-Switched gone.0 s.current_proc later cur
        (λ e. other (sym (e ∙ there.current))) in
    (
      back.frame
          ∙ ap (λ (p : Proc). proc_context_to_regs later p.context) there.saved
          ∙ context_round_trip later regs,
      back.current,
      back.stack ∙ ap (λ (p : Proc). p.kstack_top) there.saved,
      back.directory ∙ ap (λ (p : Proc). swap_dir p.page_directory) there.saved,
    )

-- The timer in kernel mode, and `scheduler_switch_next` there: nothing changes but the tick.
pub kernel_is_not_preempted :
    (s : System) (frequency tick : ℕ) (regs : IntRegs)
    → bit_and regs.cs 3 ≢ 3
    → (scheduler_switch_next s regs ≡ (s, regs))
      × (pit_handler frequency tick s regs ≡ ((tick + 1) % 18446744073709551616, s, regs))
unfolding scheduler_switch_next pit_handler
kernel_is_not_preempted s frequency tick regs h =
    let kernel = ne→== (bit_and regs.cs 3) 3 h in
    rw kernel
      (refl, elim (Bool-cases (frequency * 2 == 0)) [ inl e ↦ rw e refl | inr e ↦ rw e refl ])
