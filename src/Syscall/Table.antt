-- ===== src/Syscall/Table.antt =====
-- syscall_register and syscall_dispatch.
use brownie_os.Base.{
  ℕ, ◌<◌, ◌≡◌, ◌≢◌, refl, arith, false, leb, ne→==, eq→==, lt→ltb, update, update_self, update_ne,
}
use brownie_os.Proc.{IntRegs}
use brownie_os.Syscall.{syscall_max, syscall_register, syscall_dispatch, Registered}

-- A handler that `syscall_register` has taken is the one that `syscall_dispatch` calls for its
-- number, on the whole frame; all other numbers are dispatched as before, and the slot refuses any
-- further handler.
pub syscall_register-dispatch {ℓ} :
    {W : Type ℓ}
    → (table : ℕ → ℕ) (run : ℕ → IntRegs → W → IntRegs × W) → (num handler : ℕ) → num < syscall_max
    → handler ≢ 0
    → table num ≡ 0
    → let registered = syscall_register num handler table in
      (registered.0 ≡ Registered.ok)
      × ((regs : IntRegs) (w : W)
          → regs.eax ≡ num
          → syscall_dispatch registered.1 run regs w ≡ run handler regs w)
      × ((regs : IntRegs) (w : W)
          → regs.eax ≢ num
          → syscall_dispatch registered.1 run regs w ≡ syscall_dispatch table run regs w)
      × ((other : ℕ)
          → other ≢ 0
          → syscall_register num other registered.1 ≡ (Registered.taken, registered.1))
unfolding syscall_register syscall_dispatch
syscall_register-dispatch table run num handler bound nonnull free =
    let new = update table num handler in
    let self : new num ≡ handler = update_self table num handler in
    let below : leb syscall_max num ≡ false = ground arith in
    rw (below, ne→== handler 0 nonnull, eq→== (table num) 0 free)
      (
        refl,
        (λ regs w e. rw (e, self, lt→ltb num syscall_max bound, ne→== handler 0 nonnull) refl),
        (λ regs w ne. rw (update_ne table num regs.eax handler ne) refl),
        (λ other h. rw (ne→== other 0 h, self, ne→== handler 0 nonnull) refl),
      )
