-- ===== src/Apic.antt =====
-- kernel/kernel/core/interrupts/ioapic.c and apic.c, kernel/include/core/ioapic.h, and pit_init of
-- kernel/kernel/drivers/pit.c: the redirection table of the I/O APIC, the local APIC's registers
-- and the timer's divisor. A register file is a function from the register's number to its 32-bit
-- word: a read or write selects the register with IOREGSEL and goes through IOREGWIN.
pub mod Codec
pub mod Overrides
pub mod Table
pub mod Timer
use brownie_os.Base.{
  ℕ, zero, suc, ◌+◌, ◌-◌, ◌*◌, ◌/◌, ◌%◌, ◌^◌, Bool, true, false, not, List, [], ◌∷◌, ◌++◌, ltb,
  ◌==◌, bit_and, bit_or, if◌then◌else◌, update,
}
use brownie_os.Madt.{IoapicIso}
use brownie_os.Vmm.{Tables, kmap}
use brownie_os.Boot.{Ended}
use brownie_os.Interrupts.{Output, outb, isr_set_handler}

-- `struct redir_entry_lo`, whose field `reserved` is `lo_reserved`
pub record RedirEntryLo : Type 0 where
  pub vector : ℕ
  pub deliv_mode : ℕ
  pub dest_mode : ℕ
  pub deliv_status : ℕ
  pub pin_polarity : ℕ
  pub remote_irr : ℕ
  pub trigger_mode : ℕ
  pub masked : ℕ
  pub lo_reserved : ℕ

-- `struct redir_entry_hi`, whose field `reserved` is `hi_reserved`
pub record RedirEntryHi : Type 0 where
  pub hi_reserved : ℕ
  pub dest : ℕ

-- `*(uint32_t*)&entry_lo`: the bit fields from the lowest bit on
unfoldable pub lo_word : RedirEntryLo → ℕ
lo_word e =
    e.vector
    + e.deliv_mode * 2 ^ 8
    + e.dest_mode * 2 ^ 11
    + e.deliv_status * 2 ^ 12
    + e.pin_polarity * 2 ^ 13
    + e.remote_irr * 2 ^ 14
    + e.trigger_mode * 2 ^ 15
    + e.masked * 2 ^ 16
    + e.lo_reserved * 2 ^ 17

-- `(redir_entry_lo_t*)&lo`
unfoldable pub lo_entry : ℕ → RedirEntryLo
lo_entry w = record {
  vector = w % 256;
  deliv_mode = w / 2 ^ 8 % 8;
  dest_mode = w / 2 ^ 11 % 2;
  deliv_status = w / 2 ^ 12 % 2;
  pin_polarity = w / 2 ^ 13 % 2;
  remote_irr = w / 2 ^ 14 % 2;
  trigger_mode = w / 2 ^ 15 % 2;
  masked = w / 2 ^ 16 % 2;
  lo_reserved = w / 2 ^ 17 % 32768;
}

-- `*(uint32_t*)&entry_hi` and `(redir_entry_hi_t*)&hi`
unfoldable pub hi_word : RedirEntryHi → ℕ
hi_word e = e.hi_reserved + e.dest * 2 ^ 24

unfoldable pub hi_entry : ℕ → RedirEntryHi
hi_entry w = record { hi_reserved = w % 16777216; dest = w / 2 ^ 24 % 256 }

-- What a register holds after a write, by its number, the word before and the word written: some bits
-- are read-only.
abbrev pub Device : Type 0
Device = (reg old val : ℕ) → ℕ

-- `read_ioapic` and `write_ioapic`
abbrev pub read_ioapic : (reg : ℕ) → (ℕ → ℕ) → ℕ
read_ioapic reg registers = registers reg

abbrev pub write_ioapic : Device → (reg val : ℕ) → (ℕ → ℕ) → ℕ → ℕ
write_ioapic accept reg val registers = update registers reg (accept reg (registers reg) val)

-- The variables of ioapic.c, with the registers
pub record IoapicState : Type 0 where
  pub ioapic : ℕ
  pub ioapic_ver : ℕ
  pub max_redir_entries : ℕ
  pub gsi_count : ℕ
  pub registers : ℕ → ℕ

-- IOAPIC_RED_TBL_REG(n), in a `uint8_t`
abbrev pub red_tbl_reg : ℕ → ℕ
red_tbl_reg n = (0x10 + 2 * n) % 256

-- The vector of the entry `i`: `entry_lo.vector` has 8 bits.
abbrev pub redirected : (gsi_entries : ℕ → IoapicIso) (gsi_count i : ℕ) → ℕ
redirected gsi_entries gsi_count i =
    if i == (gsi_entries gsi_count).gsi
    then (32 + (gsi_entries gsi_count).irq_src) % 256
    else (32 + i) % 256

-- The body of the loop of `init_ioapic`. It does not write the fields `remote_irr` and `dest`, which
-- hold what stood on the stack: `irr i` and `garbage i`.
unfoldable pub redirect_entry :
    Device → (irr garbage : ℕ → ℕ) (gsi_entries : ℕ → IoapicIso) (i : ℕ) → IoapicState → IoapicState
redirect_entry accept irr garbage gsi_entries i s =
    let lo_idx = red_tbl_reg i in
    let hi_idx = (0x10 + 2 * i + 1) % 256 in
    let lo = read_ioapic lo_idx s.registers in
    let hi = read_ioapic hi_idx s.registers in
    let lo' = lo_word (record {
      vector = redirected gsi_entries s.gsi_count i;
      deliv_mode = 0;
      dest_mode = 0;
      deliv_status = 0;
      pin_polarity = 0;
      remote_irr = irr i;
      trigger_mode = 0;
      masked = 0;
      lo_reserved = (lo_entry lo).lo_reserved;
    }) in
    let hi' = hi_word (record { hi_reserved = (hi_entry hi).hi_reserved; dest = garbage i }) in
    record s {
      gsi_count =
          if i == (gsi_entries s.gsi_count).gsi then (s.gsi_count + 1) % 256 else s.gsi_count;
      registers = write_ioapic accept hi_idx hi' (write_ioapic accept lo_idx lo' s.registers);
    }

-- The loop, from `i` on with `n` rounds left
pub redirect_entries :
    (n i : ℕ)
    → Device
    → (irr garbage : ℕ → ℕ) (gsi_entries : ℕ → IoapicIso) → IoapicState
    → IoapicState
redirect_entries zero i accept irr garbage gsi_entries s = s
redirect_entries (suc n) i accept irr garbage gsi_entries s =
    redirect_entries n (i + 1) accept irr garbage gsi_entries
      (redirect_entry accept irr garbage gsi_entries i s)

-- `init_ioapic`, with the tables of the temporary mappings: the register of the version holds the
-- version and the last entry's number, whose successor is taken as a `uint8_t`.
unfoldable pub init_ioapic :
    Device
    → (irr garbage : ℕ → ℕ) (gsi_entries : ℕ → IoapicIso) (ioapic_addr : ℕ) → IoapicState × Tables
    → IoapicState × Tables
unfolding redirect_entries
init_ioapic accept irr garbage gsi_entries ioapic_addr (s, tables) =
    let got = kmap ioapic_addr tables in
    let version = read_ioapic 0x01 s.registers in
    let entries = (version / 2 ^ 16 % 256 + 1) % 256 in
    (
      redirect_entries entries 0 accept irr garbage gsi_entries
          (record s { ioapic = got.0; ioapic_ver = version % 256; max_redir_entries = entries }),
      got.1,
    )

-- `disable_pic`
unfoldable pub disable_pic : List Output
disable_pic = outb 0xA1 0xFF ∷ outb 0x21 0xFF ∷ []

-- `get_apic_base`, from the two halves of the model-specific register: 24 bits from bit 12 on, as a
-- `uint32_t`
unfoldable pub get_apic_base : (lo hi : ℕ) → ℕ
get_apic_base lo hi = (bit_and ((hi * 2 ^ 32 + lo) / 2 ^ 12) 0xFFFFFF * 2 ^ 12) % 2 ^ 32

-- CPUID_FEAT_EDX_APIC, and `confirm_apic` on what CPUID gives in EDX
abbrev pub cpuid_feat_edx_apic : ℕ
cpuid_feat_edx_apic = 2 ^ 9

abbrev pub confirm_apic : (edx : ℕ) → Bool
confirm_apic edx = not (bit_and edx cpuid_feat_edx_apic == 0)

-- What `init_apic` works on: the halves of the model-specific register of the base, the spurious
-- interrupt register of the local APIC, the temporary mappings, the I/O APIC, and the ports
pub record LocalApic : Type 0 where
  pub lo : ℕ
  pub hi : ℕ
  pub spurious : ℕ
  pub tables : Tables
  pub io : IoapicState
  pub ports : List Output

-- `init_apic`, up to CLI and STI: the spurious register is that of the page that is mapped.
unfoldable pub init_apic :
    Device
    → (irr garbage : ℕ → ℕ) (gsi_entries : ℕ → IoapicIso) (ioapic_addr edx : ℕ) → LocalApic
    → Ended LocalApic
init_apic accept irr garbage gsi_entries ioapic_addr edx a =
    if not (confirm_apic edx)
    then Ended.panicked
    else let got = kmap (get_apic_base a.lo a.hi) a.tables in
      let redirected_all = init_ioapic accept irr garbage gsi_entries ioapic_addr (a.io, got.1) in
      Ended.returned (record {
        lo = bit_or a.lo (2 ^ 11);
        hi = a.hi;
        spurious = bit_or a.spurious 0x1FF;
        tables = redirected_all.1;
        io = redirected_all.0;
        ports = a.ports ++ disable_pic;
      })

-- The divisor of `pit_init`: the quotient of the oscillator's
-- frequency, 3579545 / 3 Hz, is taken exactly, and cut to a whole number.
unfoldable pub pit_divisor : (freq : ℕ) → ℕ
pit_divisor freq = 3579545 / (3 * freq)

-- The variable of pit.c, the table of handlers, and what went to the ports
pub record Pit : Type 0 where
  pub pit_cur_frequency : ℕ
  pub isr_handlers : ℕ → ℕ
  pub out : List Output

-- `pit_init`, for a frequency that is not 0: the low and the high byte of the divisor follow the
-- mode.
unfoldable pub pit_init : (pit_handler freq : ℕ) → Pit → Pit
pit_init pit_handler freq pit =
    let divisor = pit_divisor freq in
    record {
      pit_cur_frequency = freq;
      isr_handlers = isr_set_handler 32 pit_handler pit.isr_handlers;
      out =
          pit.out
          ++ (outb 0x43 0b00110110
              ∷ outb 0x40 (bit_and divisor 0xFF)
              ∷ outb 0x40 (bit_and (divisor / 256) 0xFF)
              ∷ []);
    }
