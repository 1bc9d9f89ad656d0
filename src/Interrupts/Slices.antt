-- ===== src/Interrupts/Slices.antt =====
-- isr.c with pit.c and scheduler.c: the interrupts of a slice of time.
use brownie_os.Base.{
  ℕ, ◌+◌, ◌*◌, ◌%◌, ◌<◌, ◌≡◌, refl, sym, ◌≢◌, ◌∙◌, ap, arith, List, [], ◌∷◌, ◌==◌, eq→==, ne→==,
  inl, inr, ◌⊎◌, ◌++◌, suc, ◌-◌, ◌/◌, if◌then◌else◌, bit_and, update_ne,
}
use native.Mathlib.Decide.{ℕ_discrete}
use native.Mathlib.Nat.{mod-eq_of_lt, mod_self, suc-mod}
use brownie_os.Proc.{System, IntRegs, scheduler_switch_next, pit_handler}
use brownie_os.Interrupts.{
  Output, outb, apic_eoi, isr_set_handler, isr_handler, end_of_interrupt, irq_handler,
}
use brownie_os.Interrupts.Dispatch.{switch_next_int_no, isr_set_handler-dispatch}

-- The handlers' code, where `pit_at` is the address of `pit_handler`: the tick and the system are
-- what it works on.
abbrev pub timer_only : (frequency pit_at : ℕ) → ℕ → IntRegs → ℕ × System → IntRegs × (ℕ × System)
timer_only frequency pit_at handler regs (tick, s) =
    let after = pit_handler frequency tick s regs in
    if handler == pit_at then (after.2, (after.0, after.1)) else (regs, (tick, s))

next_tick : (tick m : ℕ) → (tick + 1) % m ≡ (tick % m + 1) % m
next_tick tick m = ap (λ x. x % m) (omega arith) ∙ suc-mod tick m ∙ ap (λ x. x % m) (omega arith)

double_zero : (n : ℕ) → n * 2 ≡ 0 → n ≡ 0
double_zero n e = omega (arith, e)

-- `pit_handler` at the end of a slice
pit_handler-switches :
    (frequency tick : ℕ) (s : System) (regs : IntRegs)
    → bit_and regs.cs 3 ≡ 3
    → frequency ≢ 0
    → tick + 1 < 18446744073709551616
    → (tick + 1) % (frequency * 2) ≡ 0
    → pit_handler frequency tick s regs
      ≡ (tick + 1, (scheduler_switch_next s regs).0, (scheduler_switch_next s regs).1)
unfolding pit_handler
pit_handler-switches frequency tick s regs user some small slice =
    rw
      (
        mod-eq_of_lt small,
        slice,
        ne→== (frequency * 2) 0 (λ e. some (double_zero frequency e)),
        eq→== (bit_and regs.cs 3) 3 user,
      )
      refl

-- The end of an interrupt of vector 32
end_of_interrupt-timer :
    (regs : IntRegs) → regs.int_no ≡ 32 → end_of_interrupt regs ≡ apic_eoi 0 ∷ outb 0x20 0x20 ∷ []
unfolding end_of_interrupt
end_of_interrupt-timer regs vector = rw vector refl

-- `pit_handler` in kernel mode, or before the end of a slice
pit_handler-keeps :
    (frequency tick : ℕ) (s : System) (regs : IntRegs)
    → tick + 1 < 18446744073709551616
    → (bit_and regs.cs 3 ≢ 3) ⊎ ((tick + 1) % (frequency * 2) ≢ 0)
    → pit_handler frequency tick s regs ≡ (tick + 1, s, regs)
unfolding pit_handler
pit_handler-keeps frequency tick s regs small keeps = elim keeps [
  | inl kernel ↦ rw (mod-eq_of_lt small, ne→== (bit_and regs.cs 3) 3 kernel) (ground arith)
  | inr early ↦ rw (mod-eq_of_lt small, ne→== ((tick + 1) % (frequency * 2)) 0 early) (ground arith)
]

-- `pit_handler` before pit_init has set a frequency
pit_handler-unset :
    (tick : ℕ) (s : System) (regs : IntRegs)
    → pit_handler 0 tick s regs ≡ ((tick + 1) % 18446744073709551616, s, regs)
unfolding pit_handler
pit_handler-unset tick s regs = refl

-- The interrupts with these frames, one after the other: the state, the frames that IRET pops, and
-- what is put out
pub served {ℓ} :
    {W : Type ℓ}
    → (handlers : ℕ → ℕ) (run : ℕ → IntRegs → W → IntRegs × W) → List IntRegs
    → W
    → W × List IntRegs × List Output
served handlers run [] w = (w, [], [])
served handlers run (f ∷ frames) w =
    let (after, out) = irq_handler handlers run f w in
    let (w', popped, outs) = served handlers run frames after.1 in
    (w', after.0 ∷ popped, out ++ outs)

-- What the interrupt controllers are told. The vectors from 32 on are those of the lines, eight of the
-- master and then those of the slave, which is told first.
abbrev pub acknowledged : (int_no : ℕ) → List Output
acknowledged int_no =
    apic_eoi 0
    ∷ (if (int_no - 32) / 8 == 0 then outb 0x20 0x20 ∷ [] else outb 0xA0 0x20 ∷ outb 0x20 0x20 ∷ [])

pub told : List IntRegs → List Output
told [] = []
told (f ∷ frames) = acknowledged f.int_no ++ told frames

-- Frames of interrupts, `n` of the timer and the others of vectors without a handler
pub data Frames (handlers : ℕ → ℕ) : ℕ → List IntRegs → Type 0 where
  none : Frames handlers 0 []
  timer :
      {n : ℕ} {frames : List IntRegs} (f : IntRegs)
      → f.int_no ≡ 32
      → Frames handlers n frames
      → Frames handlers (suc n) (f ∷ frames)
  other :
      {n : ℕ} {frames : List IntRegs} (f : IntRegs)
      → f.int_no ≢ 32
      → handlers f.int_no ≡ 0
      → Frames handlers n frames
      → Frames handlers n (f ∷ frames)

end_of_interrupt-told : (f : IntRegs) → end_of_interrupt f ≡ acknowledged f.int_no
unfolding end_of_interrupt
end_of_interrupt-told f = ground arith

module _ (handlers : ℕ → ℕ) (frequency pit_at : ℕ) (nonnull : pit_at ≢ 0) where
  abbrev set : ℕ → ℕ
  set = isr_set_handler 32 pit_at handlers

  abbrev run : ℕ → IntRegs → ℕ × System → IntRegs × (ℕ × System)
  run = timer_only frequency pit_at

  timer_step :
      (f f' : IntRegs) (tick tick' : ℕ) (s s' : System)
      → f.int_no ≡ 32
      → f'.int_no ≡ 32
      → pit_handler frequency tick s f ≡ (tick', s', f')
      → irq_handler set run f (tick, s) ≡ ((f', (tick', s')), acknowledged f.int_no)
  timer_step f f' tick tick' s s' vector vector' e =
      let called =
        ((isr_set_handler-dispatch handlers run 32 pit_at nonnull).0 f (tick, s) vector).1 in
      let ran : run pit_at f (tick, s) ≡ (f', (tick', s')) =
        rw (eq→== pit_at pit_at refl, e) refl in
      called
      ∙ ap (λ (r : IntRegs × (ℕ × System)). (r, end_of_interrupt r.0)) ran
      ∙ ap (λ (o : List Output). ((f', (tick', s')), o))
          (end_of_interrupt-told f' ∙ ap acknowledged (vector' ∙ sym vector))

  other_step :
      (f : IntRegs) (w : ℕ × System)
      → f.int_no ≢ 32
      → handlers f.int_no ≡ 0
      → irq_handler set run f w ≡ ((f, w), acknowledged f.int_no)
  unfolding irq_handler isr_handler isr_set_handler
  other_step f w ne free =
      rw (update_ne handlers 32 f.int_no pit_at ne, free)
        (ap (λ (o : List Output). ((f, w), o)) (end_of_interrupt-told f))

  module _ (s s' : System) (last last' : IntRegs) (vector : last.int_no ≡ 32)
      (vector' : last'.int_no ≡ 32)
      (ends : (t : ℕ)
        → (t + 1) % (frequency * 2) ≡ 0
        → t + 1 < 18446744073709551616
        → pit_handler frequency t s last ≡ (t + 1, s', last')) where
    -- The state, the frames and the output of the interrupts up to the end of the slice
    abbrev Slice : (n tick : ℕ) (frames : List IntRegs) → Type 0
    Slice n tick frames =
        served set run (frames ++ (last ∷ [])) (tick, s)
        ≡ ((tick + suc n, s'), frames ++ (last' ∷ []), told (frames ++ (last ∷ [])))

    first-Slice :
        (n m tick tick' : ℕ) (f : IntRegs) (frames : List IntRegs)
        → irq_handler set run f (tick, s) ≡ ((f, (tick', s)), acknowledged f.int_no)
        → tick' + suc n ≡ tick + suc m
        → Slice n tick' frames
        → Slice m tick (f ∷ frames)
    unfolding served told
    first-Slice n m tick tick' f frames one count rest = rw (one, rest, count) refl

    frames-Slice :
        {n : ℕ} {frames : List IntRegs} (tick : ℕ)
        → Frames handlers n frames
        → tick % (frequency * 2) + suc n ≡ frequency * 2
        → tick + suc n < 18446744073709551616
        → Slice n tick frames
    unfolding served told
    frames-Slice tick Frames.none at small =
        let full : (tick + 1) % (frequency * 2) ≡ 0 =
          next_tick tick (frequency * 2)
          ∙ ap (λ x. x % (frequency * 2)) (omega (arith, at))
          ∙ mod_self (frequency * 2) in
        rw
          (timer_step last last' tick (tick + 1) s s' vector vector'
            (ends tick full (omega (arith, small))))
          refl
    frames-Slice {n = suc n} tick (Frames.timer f is_timer more) at small =
        let step : (tick + 1) % (frequency * 2) ≡ tick % (frequency * 2) + 1 =
          next_tick tick (frequency * 2) ∙ mod-eq_of_lt (omega (arith, at)) in
        first-Slice n (suc n) tick (tick + 1) f _
          (timer_step f f tick (tick + 1) s s is_timer is_timer (
            pit_handler-keeps frequency tick s f (omega (arith, small))
              (inr (λ e. absurd (omega (arith, step, e))))))
          (omega arith)
          (frames-Slice (tick + 1) more (omega (arith, at, step)) (omega (arith, small)))
    frames-Slice {n = n} tick (Frames.other f ne free more) at small =
        first-Slice n n tick tick f _ (other_step f (tick, s) ne free) refl
          (frames-Slice tick more at small)

-- With `pit_handler` set for vector 32: take any interrupts, in user or kernel mode, of the timer or of
-- vectors without a handler, and then the interrupt of the timer whose tick ends the slice, before the
-- tick overflows. No frame but the last one and nothing of the processes changes before; then the
-- scheduler switches on where the last interrupt came in user mode, and not where it came in
-- kernel mode. Every tick is counted, and the end of every interrupt is told to the local APIC,
-- to the slave PIC for its lines and to the master PIC. With the frequency 0 no tick switches.
pub timer_interrupts-slice :
    (handlers : ℕ → ℕ) (frequency pit_at tick n : ℕ) (s : System) (frames : List IntRegs)
    (last : IntRegs)
    → pit_at ≢ 0
    → Frames handlers n frames
    → last.int_no ≡ 32
    → tick % (frequency * 2) + suc n ≡ frequency * 2
    → tick + suc n < 18446744073709551616
    → let set = isr_set_handler 32 pit_at handlers in
      let all = frames ++ (last ∷ []) in
      let result = served set (timer_only frequency pit_at) all (tick, s) in
      let switched = scheduler_switch_next s last in
      (((bit_and last.cs 3 ≡ 3)
          × (result ≡ ((tick + suc n, switched.0), frames ++ (switched.1 ∷ []), told all)))
        ⊎ ((bit_and last.cs 3 ≢ 3) × (result ≡ ((tick + suc n, s), all, told all))))
      × ((t : ℕ)
          → irq_handler set (timer_only 0 pit_at) last (t, s)
            ≡ ((last, ((t + 1) % 18446744073709551616, s)), acknowledged 32))
unfolding served
timer_interrupts-slice handlers frequency pit_at tick n s frames last nonnull mixed vector at
      small =
    let some : frequency ≢ 0 = λ e. omega (arith, e, at) in
    let switched = scheduler_switch_next s last in
    let kept : switched.1.int_no ≡ 32 = switch_next_int_no s last ∙ vector in
    (
      elim (ℕ_discrete (bit_and last.cs 3) 3) [
        | yes user ↦ inl (
          user,
          frames-Slice handlers frequency pit_at nonnull s switched.0 last switched.1 vector kept
              (λ t full low. pit_handler-switches frequency t s last user some low full) tick mixed
              at small,
        )
        | no kernel ↦ inr (
          kernel,
          frames-Slice handlers frequency pit_at nonnull s s last last vector vector
              (λ t full low. pit_handler-keeps frequency t s last low (inl kernel)) tick mixed at
              small,
        )
      ],
      λ t.
          timer_step handlers 0 pit_at nonnull last last t ((t + 1) % 18446744073709551616) s s
            vector vector (pit_handler-unset t s last)
          ∙ ap (λ v. ((last, ((t + 1) % 18446744073709551616, s)), acknowledged v)) vector,
    )
