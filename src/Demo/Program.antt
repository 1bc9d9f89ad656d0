-- ===== src/Demo/Program.antt =====
-- The program of a demo process on a processor with the instructions that it is made of, by their
-- encoding in the instruction set's manual.
use brownie_os.Base.{
  ℕ, zero, suc, ◌+◌, ◌*◌, ◌/◌, ◌%◌, ◌<◌, ◌≡◌, refl, ap, ◌∙◌, arith, ltb, ◌==◌, if◌then◌else◌, add32,
  sub32,
}
use brownie_os.Libc.Memory.{Memory}
use brownie_os.Madt.{u32_at}
use brownie_os.Demo.{user_program, user_test_code_va}
use brownie_os.Demo.Stores.{Reads}

-- The registers that the program uses
pub record Registers : Type 0 where
  pub eip : ℕ
  pub eax : ℕ
  pub ebx : ℕ
  pub ecx : ℕ

-- After an instruction the processor goes on, or has raised a software interrupt; an instruction
-- that is not listed has no meaning here.
pub data Executed : Type 0 where
  continues : Registers → Executed
  interrupt : (vector : ℕ) → Registers → Executed
  unlisted : Executed

-- The target of a short jump: the displacement is a signed byte.
abbrev pub jump_target : (eip displacement : ℕ) → ℕ
jump_target eip displacement =
    if ltb displacement 128
    then add32 (add32 eip 2) displacement
    else sub32 (add32 (add32 eip 2) displacement) 256

-- nop, mov r32, imm32, int imm8 and jmp rel8
unfoldable pub execute : (view : Memory) → Registers → Executed
execute view r =
    let opcode = view r.eip in
    let imm = u32_at view r.eip 1 in
    if opcode == 0x90
    then Executed.continues (record r { eip = add32 r.eip 1 })
    else if opcode == 0xB8
    then Executed.continues (record r { eip = add32 r.eip 5; eax = imm })
    else if opcode == 0xBB
    then Executed.continues (record r { eip = add32 r.eip 5; ebx = imm })
    else if opcode == 0xB9
    then Executed.continues (record r { eip = add32 r.eip 5; ecx = imm })
    else if opcode == 0xCD
    then Executed.interrupt (view (r.eip + 1)) (record r { eip = add32 r.eip 2 })
    else if opcode == 0xEB
    then Executed.continues (record r { eip = jump_target r.eip (view (r.eip + 1)) })
    else Executed.unlisted

-- At most `n` instructions, up to the first interrupt
unfoldable pub run : (n : ℕ) → (view : Memory) → Executed → Executed
run zero view e = e
run (suc n) view (Executed.continues r) = run n view (execute view r)
run (suc n) view e = e

pub little_endian :
    (len a b c d : ℕ)
    → len < 4294967296
    → a ≡ len % 256
    → b ≡ len / 256 % 256
    → c ≡ len / 65536 % 256
    → d ≡ len / 16777216 % 256
    → a + b * 256 + c * 65536 + d * 16777216 ≡ len
little_endian len a b c d small ea eb ec ed = omega (arith, small, ea, eb, ec, ed)

abbrev pub registers : (eip eax ebx ecx : ℕ) → Registers
registers eip eax ebx ecx = record { eip = eip; eax = eax; ebx = ebx; ecx = ecx }

module _ (view : Memory) (eip eax ebx ecx imm : ℕ) (e : u32_at view eip 1 ≡ imm) where
  pub mov_eax :
      view eip ≡ 0xB8
      → execute view (registers eip eax ebx ecx)
        ≡ Executed.continues (registers (add32 eip 5) imm ebx ecx)
  unfolding execute
  mov_eax opcode = rw (opcode, e) refl

  pub mov_ebx :
      view eip ≡ 0xBB
      → execute view (registers eip eax ebx ecx)
        ≡ Executed.continues (registers (add32 eip 5) eax imm ecx)
  unfolding execute
  mov_ebx opcode = rw (opcode, e) refl

  pub mov_ecx :
      view eip ≡ 0xB9
      → execute view (registers eip eax ebx ecx)
        ≡ Executed.continues (registers (add32 eip 5) eax ebx imm)
  unfolding execute
  mov_ecx opcode = rw (opcode, e) refl

module _ (view : Memory) (eip eax ebx ecx : ℕ) where
  pub int_80 :
      view eip ≡ 0xCD
      → view (eip + 1) ≡ 0x80
      → execute view (registers eip eax ebx ecx)
        ≡ Executed.interrupt 0x80 (registers (add32 eip 2) eax ebx ecx)
  unfolding execute
  int_80 opcode vector = rw (opcode, vector) refl

  pub jmp_rel8 :
      (displacement : ℕ)
      → view eip ≡ 0xEB
      → view (eip + 1) ≡ displacement
      → execute view (registers eip eax ebx ecx)
        ≡ Executed.continues (registers (jump_target eip displacement) eax ebx ecx)
  unfolding execute
  jmp_rel8 displacement opcode target = rw (opcode, target) refl

-- The program from the start of its page, for a message of `len` bytes: the fourth instruction
-- raises interrupt 0x80 with the call's number, the message's address and its length; the
-- instruction behind it jumps to itself.
pub user_program-run :
    (len : ℕ) (view : Memory) (eax ebx ecx : ℕ)
    → len < 4294967296
    → Reads (user_program len) 0 (λ j. view (0x400000 + j))
    → (run 4 view (Executed.continues (registers user_test_code_va eax ebx ecx))
        ≡ Executed.interrupt 0x80 (registers 0x400011 1 0x401000 len))
      × ((eax' ebx' ecx' : ℕ)
          → execute view (registers 0x400011 eax' ebx' ecx')
            ≡ Executed.continues (registers 0x400011 eax' ebx' ecx'))
unfolding run Reads
user_program-run len view eax ebx ecx small
      (
        b0,
        (
          b1,
          (
            b2,
            (
              b3,
              (
                b4,
                (
                  b5,
                  (
                    b6,
                    (
                      b7,
                      (b8, (b9, (b10, (b11, (b12, (b13, (b14, (b15, (b16, (b17, (b18, e))))))))))),
                    ),
                  ),
                ),
              ),
            ),
          ),
        ),
      ) =
    let n =
      little_endian len (view 0x40000B) (view 0x40000C) (view 0x40000D) (view 0x40000E) small b11
        b12 b13 b14 in
    let number : u32_at view 0x400000 1 ≡ 1 = omega (arith, b1, b2, b3, b4) in
    let message : u32_at view 0x400005 1 ≡ 0x401000 = omega (arith, b6, b7, b8, b9) in
    (
      ap (run 3 view) (mov_eax view 0x400000 eax ebx ecx 1 number b0)
          ∙ ap (run 2 view) (mov_ebx view 0x400005 1 ebx ecx 0x401000 message b5)
          ∙ ap (run 1 view) (mov_ecx view 0x40000A 1 0x401000 ecx len n b10)
          ∙ int_80 view 0x40000F 1 0x401000 len b15 b16,
      λ eax' ebx' ecx'. jmp_rel8 view 0x400011 eax' ebx' ecx' 0xFE b17 b18,
    )
