-- ===== src/Madt/Stuck.antt =====
-- A record type without a case in the switch of parse_madt.
use brownie_os.Base.{ℕ, zero, suc, ◌<◌, ◌≡◌, refl, arith, none, lt→ltb, ne→==, add32}
use brownie_os.Libc.Memory.{Memory}
use brownie_os.Madt.{u32_at, Madt, entry_at, parse_records, parse_madt}

-- The `switch` has no case for a type above 5.
entry_at-none : (m : Memory) (p : ℕ) → 5 < m p → entry_at m p ≡ none
unfolding entry_at
entry_at-none m p above =
    rw
      (
        ne→== (m p) 0 (λ e. omega (arith, e, above)),
        ne→== (m p) 1 (λ e. omega (arith, e, above)),
        ne→== (m p) 2 (λ e. omega (arith, e, above)),
        ne→== (m p) 3 (λ e. omega (arith, e, above)),
        ne→== (m p) 4 (λ e. omega (arith, e, above)),
        ne→== (m p) 5 (λ e. omega (arith, e, above)),
      )
      refl

-- A loop that is at such a record stays there.
parse_records-stuck :
    (f end p : ℕ) (m : Memory) (s : Madt) → 5 < m p → p < end → parse_records f end p m s ≡ none
unfolding parse_records
parse_records-stuck zero end p m s above more = refl
parse_records-stuck (suc f) end p m s above more =
    rw (lt→ltb p end more, entry_at-none m p above) (parse_records-stuck f end p m s above more)

-- A MADT whose first record has a type above 5, as an x2APIC's of type 9 has, is never done: with
-- any fuel the loop of parse_madt is still running.
pub parse_madt-stuck :
    (f madt : ℕ) (m : Memory) (s : Madt)
    → 5 < m (add32 madt 44)
    → add32 madt 44 < add32 madt (u32_at m madt 4)
    → parse_madt f madt m s ≡ none
unfolding parse_madt
parse_madt-stuck f madt m s above more =
    parse_records-stuck f (add32 madt (u32_at m madt 4)) (add32 madt 44) m
      (record s { lapic_addr = u32_at m madt 36 }) above more
