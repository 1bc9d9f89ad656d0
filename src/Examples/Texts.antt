-- ===== src/Examples/Texts.antt =====
-- Conversions, formatted output and the terminal on concrete inputs.
use brownie_os.Base.{ℕ, ◌+◌, ◌^◌, ◌<◌, ◌≡◌, some, List, [], ◌∷◌, arith}
use brownie_os.Libc.Itoa.{negsuc, Buffer, itoa, utoa, ltoa, ultoa, lltoa, ulltoa}
use brownie_os.Libc.Itoa.Unsigned.{IsNumeral, EndsAt, utoa-IsNumeral}
use brownie_os.Libc.Itoa.Signed.{itoa_negative}
use brownie_os.Tty.{Terminal, terminal_initialize, terminal_write, vga_entry, space}
use brownie_os.Tty.Tape.{
  Tape, Shows, print_all, terminal_write-Shows, terminal_initialize-Shows, terminal_write-outside,
}

abbrev junk : Buffer
junk = λ i. 85

utoa-IsNumeral_example :
    (60000 < 2 ^ 32
      → (m' : Buffer) × (k : ℕ) × (utoa 60000 16 junk ≡ some m')
        × (ultoa 60000 16 junk ≡ some m')
        × IsNumeral 16 32 60000 k m'
        × EndsAt m' k)
    × (60000 < 2 ^ 64
        → (m' : Buffer) × (k : ℕ) × (ulltoa 60000 16 junk ≡ some m')
          × IsNumeral 16 64 60000 k m'
          × EndsAt m' k)
utoa-IsNumeral_example = utoa-IsNumeral 60000 16 junk (omega arith) (omega arith)

itoa_negative_example :
    (41 < 2 ^ 31
      → (m' : Buffer) × (k : ℕ) × (itoa (negsuc 41) 10 junk ≡ some m')
        × (ltoa (negsuc 41) 10 junk ≡ some m')
        × IsNumeral 10 32 42 k m'
        × (m' k ≡ b'-')
        × EndsAt m' (k + 1))
    × (41 < 2 ^ 63
        → (m' : Buffer) × (k : ℕ) × (lltoa (negsuc 41) 10 junk ≡ some m')
          × IsNumeral 10 64 42 k m'
          × (m' k ≡ b'-')
          × EndsAt m' (k + 1))
itoa_negative_example = itoa_negative 41 junk

-- "a%u%%" with the argument 7
abbrev format : List ℕ
format = b'a' ∷ b'%' ∷ b'u' ∷ b'%' ∷ b'%' ∷ []

abbrev off : Terminal
off = record { row = 7; column = 90; color = 3; buffer = λ k. 1 }

abbrev blank_tape : Tape
blank_tape = record { cell = λ j. vga_entry space 10; row = 0; column = 0 }

started : Shows 10 (terminal_initialize off) blank_tape
started = terminal_initialize-Shows off

terminal_write-Shows_example :
    Shows 10
      (terminal_write (terminal_initialize off) (b'h' ∷ b'i' ∷ 10 ∷ []))
      (print_all 10 blank_tape (b'h' ∷ b'i' ∷ 10 ∷ []))
terminal_write-Shows_example =
    terminal_write-Shows 10 (terminal_initialize off) blank_tape (b'h' ∷ b'i' ∷ 10 ∷ []) started

terminal_write-outside_example :
    (terminal_write (terminal_initialize off) (b'h' ∷ [])).buffer 2000
    ≡ (terminal_initialize off).buffer 2000
terminal_write-outside_example =
    terminal_write-outside 2000 (omega arith) 10 (terminal_initialize off) blank_tape (b'h' ∷ [])
      started
