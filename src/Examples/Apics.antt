-- ===== src/Examples/Apics.antt =====
-- The interrupt controllers and the timer on concrete registers.
use brownie_os.Base.{ℕ, ◌+◌, ◌*◌, ◌<◌, ◌≤◌, ◌≡◌, ◌⊎◌, refl, arith, [], if◌then◌else◌, ◌==◌}
use brownie_os.Madt.{IoapicIso}
use brownie_os.Vmm.{kmap}
use brownie_os.Apic.{RedirEntryLo, RedirEntryHi, Device, IoapicState, init_ioapic, Pit}
use brownie_os.Apic.Codec.{IsLoEntry}
use brownie_os.Apic.Overrides.{IsOrdered}
use brownie_os.Apic.Table.{Takes, Redirects, init_ioapic-Redirects}

abbrev keyboard : RedirEntryLo
keyboard = record {
  vector = 33;
  deliv_mode = 0;
  dest_mode = 0;
  deliv_status = 0;
  pin_polarity = 1;
  remote_irr = 0;
  trigger_mode = 1;
  masked = 1;
  lo_reserved = 5;
}

keyboard-IsLoEntry : IsLoEntry keyboard
keyboard-IsLoEntry = record {
  vector = omega arith;
  deliv_mode = omega arith;
  dest_mode = omega arith;
  deliv_status = omega arith;
  pin_polarity = omega arith;
  remote_irr = omega arith;
  trigger_mode = omega arith;
  masked = omega arith;
  lo_reserved = omega arith;
}

abbrev first_processor : RedirEntryHi
first_processor = record { hi_reserved = 7; dest = 1 }

-- Interrupt 0 of the ISA bus is the global interrupt 2; there is no other override, and the places
-- behind it are zero.
abbrev override_at : (irq_src gsi : ℕ) → IoapicIso
override_at irq_src gsi = record {
  header = record { type = 0; length = 0 };
  bus_src = 0;
  irq_src = irq_src;
  gsi = gsi;
  flags = 0;
}

abbrev overrides : ℕ → IoapicIso
overrides j = if j == 0 then override_at 0 2 else override_at 0 0

abbrev plain : Device
plain reg old val = val

plain-Takes : Takes plain
plain-Takes = record {
  vector = λ reg old val. refl;
  deliv_mode = λ reg old val. refl;
  trigger_mode = λ reg old val. refl;
  pin_polarity = λ reg old val. refl;
  masked = λ reg old val. refl;
  dest = λ reg old val. refl;
}

-- Version 0x11, with 24 entries
abbrev reset : IoapicState
reset = record {
  ioapic = 0;
  ioapic_ver = 0;
  max_redir_entries = 0;
  gsi_count = 0;
  registers = λ r. if r == 1 then 0x170011 else 0;
}

overrides-IsOrdered : IsOrdered overrides 1
overrides-IsOrdered = record {
  few = omega arith;
  sorted = λ a b h k. absurd (omega (arith, h, k));
  unused_gsi = λ a past below. ground (arith, past);
  unused_src = λ a past below. ground (arith, past);
}

init_ioapic-Redirects_example :
    let t = init_ioapic plain (λ i. 0) (λ i. 3) overrides 0xFEC00000 (reset, λ i j. 0) in
    ((k : ℕ)
      → k < 24
      → Redirects overrides 1 k 3 (t.0.registers (16 + 2 * k)) (t.0.registers (17 + 2 * k)))
    × ((r : ℕ) → (r < 16) ⊎ (64 ≤ r) → t.0.registers r ≡ reset.registers r)
    × (t.0.ioapic ≡ (kmap 0xFEC00000 (λ i j. 0)).0)
    × (t.0.ioapic_ver ≡ 0x11)
    × (t.0.max_redir_entries ≡ 24)
init_ioapic-Redirects_example =
    init_ioapic-Redirects plain (λ i. 0) (λ i. 3) overrides 1 0xFEC00000 reset (λ i j. 0)
      (omega arith) refl plain-Takes overrides-IsOrdered (λ i. (omega arith, omega arith))

abbrev stopped : Pit
stopped = record { pit_cur_frequency = 0; isr_handlers = λ v. 0; out = [] }
