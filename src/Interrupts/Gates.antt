-- ===== src/Interrupts/Gates.antt =====
-- idt.c: what the processor finds in the table.
use native.Mathlib.Decide.{ℕ_discrete}
use brownie_os.Base.{
  ℕ, zero, suc, ◌+◌, ◌*◌, ◌/◌, ◌%◌, ◌≤◌, ◌<◌, ◌≡◌, refl, ◌≢◌, ◌∙◌, sym, subst, arith, ltb, lt→ltb,
  if◌then◌else◌, update_ne,
}
use brownie_os.Interrupts.{
  IdtEntry, idt_set_gate, set_stubs, idt_set_gates, clear_gates, no_gate, idt_init,
}

-- The gate enters code at `base` through the kernel's code segment; `flags` tells present, ring, type.
pub record IsGate (e : IdtEntry) (base flags : ℕ) : Type 0 where
  pub base_of : e.base_low + e.base_high * 65536 ≡ base
  pub selector : e.selector ≡ 0x08
  pub reserved : e.reserved ≡ 0
  pub access : e.flags ≡ flags

written-IsGate :
    (index base flags : ℕ) (entries : ℕ → IdtEntry)
    → base < 4294967296
    → IsGate (idt_set_gate index base 0x08 flags entries index) base flags
unfolding idt_set_gate
written-IsGate index base flags entries small = record {
  base_of = ground arith;
  selector = ground arith;
  reserved = ground arith;
  access = ground arith;
}

set_gate_ne :
    (index base flags k : ℕ) (entries : ℕ → IdtEntry)
    → k ≢ index
    → idt_set_gate index base 0x08 flags entries k ≡ entries k
unfolding idt_set_gate
set_gate_ne index base flags k entries ne =
    update_ne entries index k
      (record {
        base_low = base % 65536;
        base_high = base / 65536 % 65536;
        selector = 0x08;
        reserved = 0;
        flags = flags;
      })
      ne

module _ (stub : ℕ → ℕ) (small : (n : ℕ) → stub n < 4294967296) where
  set_stubs_lem :
      (n k : ℕ) (entries : ℕ → IdtEntry)
      → (k < n → IsGate (set_stubs n stub entries k) (stub k) 0b10001110)
        × (n ≤ k → set_stubs n stub entries k ≡ entries k)
  unfolding set_stubs
  set_stubs_lem zero k entries = (λ h. absurd (omega arith), λ h. refl)
  set_stubs_lem (suc n) k entries =
      let before = set_stubs_lem n k entries in
      (
        λ h. elim (ℕ_discrete k n) [
          | yes here ↦
              rw here (written-IsGate n (stub n) 0b10001110 (set_stubs n stub entries) (small n))
          | no past ↦
              subst (λ e. IsGate e (stub k) 0b10001110)
                (sym (set_gate_ne n (stub n) 0b10001110 k (set_stubs n stub entries) past))
                (before.0 (omega arith))
        ],
        λ h.
            set_gate_ne n (stub n) 0b10001110 k (set_stubs n stub entries) (omega arith)
            ∙ before.1 (omega arith),
      )

  -- After `idt_init`, for stubs below 4 GiB, the vectors 0 to 47 have a present interrupt gate of
  -- ring 0 to their stub, the vector 128 has one that ring 3 may call, and no other of the 256
  -- vectors has a gate.
  pub idt_init-gates :
      (entries : ℕ → IdtEntry)
      → ((k : ℕ) → k < 48 → IsGate ((idt_init stub entries).1 k) (stub k) 0b10001110)
        × IsGate ((idt_init stub entries).1 128) (stub 128) 0b11101110
        × ((k : ℕ) → 48 ≤ k → k < 256 → k ≢ 128 → (idt_init stub entries).1 k ≡ no_gate)
  unfolding idt_init idt_set_gates clear_gates
  idt_init-gates entries =
      let cleared : ℕ → IdtEntry = λ i. if ltb i 256 then no_gate else entries i in
      let stubs = set_stubs 48 stub cleared in
      let skip : (k : ℕ) → k ≢ 128 → idt_set_gate 128 (stub 128) 0x08 0b11101110 stubs k ≡ stubs k =
        λ k ne. set_gate_ne 128 (stub 128) 0b11101110 k stubs ne in
      (
        λ k h.
            subst (λ e. IsGate e (stub k) 0b10001110) (sym (skip k (omega (arith, h))))
              ((set_stubs_lem 48 k cleared).0 h),
        written-IsGate 128 (stub 128) 0b11101110 stubs (small 128),
        λ k h top ne. skip k ne ∙ (set_stubs_lem 48 k cleared).1 h ∙ (rw (lt→ltb k 256 top) refl),
      )
