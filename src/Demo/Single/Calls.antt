-- ===== src/Demo/Single/Calls.antt =====
-- The program of kernel_single_process_test on the processor: one call for each message.
use native.Mathlib.Nat.{mod-eq_of_lt}
use brownie_os.Base.{
  ℕ, suc, ◌+◌, ◌*◌, ◌/◌, ◌%◌, ◌<◌, ◌≡◌, ap, subst, ◌∙◌, arith, List, [], ◌∷◌, ◌++◌, add32,
}
use brownie_os.Libc.Memory.{Memory}
use brownie_os.Madt.{u32_at}
use brownie_os.Demo.{imm32, user_test_data_va}
use brownie_os.Demo.Stores.{Reads}
use brownie_os.Demo.Program.{
  registers, Executed, execute, run, jump_target, mov_eax, mov_ebx, mov_ecx, int_80, jmp_rel8,
  little_endian,
}
use brownie_os.Demo.Single.{calls_program}

-- From `eip` on, whatever the registers, each message is a system call with its number, address and
-- length, at the fourth instruction, and behind the last one the processor stays where it is.
pub Calls : (view : Memory) (eip : ℕ) (messages : List (ℕ × ℕ)) → Type 0
Calls view eip [] =
    (eax ebx ecx : ℕ)
    → execute view (registers eip eax ebx ecx) ≡ Executed.continues (registers eip eax ebx ecx)
Calls view eip ((offset, length) ∷ messages) =
    ((eax ebx ecx : ℕ)
      → run 4 view (Executed.continues (registers eip eax ebx ecx))
        ≡ Executed.interrupt 0x80 (registers (eip + 17) 1 (add32 user_test_data_va offset) length))
    × Calls view (eip + 17) messages

unfoldable pub count : List (ℕ × ℕ) → ℕ
count [] = 0
count (message ∷ messages) = suc (count messages)

-- Every length fits a word.
unfoldable pub AreWords : List (ℕ × ℕ) → Type 0
AreWords [] = 0 < 1
AreWords ((offset, length) ∷ messages) = (length < 4294967296) × AreWords messages

-- The four bytes of an operand
operand :
    (view : Memory) (eip imm : ℕ)
    → imm < 4294967296
    → view (eip + 1) ≡ imm % 256
    → view (eip + 2) ≡ imm / 256 % 256
    → view (eip + 3) ≡ imm / 65536 % 256
    → view (eip + 4) ≡ imm / 16777216 % 256
    → u32_at view eip 1 ≡ imm
operand view eip imm small a b c d =
    little_endian imm (view (eip + 1)) (view (eip + 2)) (view (eip + 3)) (view (eip + 4)) small a b
      c d

-- An instruction of five bytes, and what is behind it
five_bytes :
    (view : Memory) (eip opcode imm : ℕ) (rest : List ℕ)
    → imm < 4294967296
    → Reads (opcode ∷ (imm32 imm ++ rest)) eip view
    → (view eip ≡ opcode) × (u32_at view eip 1 ≡ imm) × Reads rest (eip + 5) view
unfolding Reads
five_bytes view eip opcode imm rest small (b₀, (b₁, (b₂, (b₃, (b₄, more))))) = (
  b₀,
  operand view eip imm small b₁ (ap view (omega arith) ∙ b₂) (ap view (omega arith) ∙ b₃)
      (ap view (omega arith) ∙ b₄),
  subst (λ i. Reads rest i view) (omega arith) more,
)

two_bytes :
    (view : Memory) (eip a b : ℕ) (rest : List ℕ)
    → Reads (a ∷ b ∷ rest) eip view
    → (view eip ≡ a) × (view (eip + 1) ≡ b) × Reads rest (eip + 2) view
unfolding Reads
two_bytes view eip a b rest (b₀, (b₁, more)) =
    (b₀, b₁, subst (λ i. Reads rest i view) (omega arith) more)

one_call :
    (view : Memory) (eip message length eax ebx ecx : ℕ)
    → eip + 17 < 4294967296
    → view eip ≡ 0xB8
    → u32_at view eip 1 ≡ 1
    → view (eip + 5) ≡ 0xBB
    → u32_at view (eip + 5) 1 ≡ message
    → view (eip + 5 + 5) ≡ 0xB9
    → u32_at view (eip + 5 + 5) 1 ≡ length
    → view (eip + 5 + 5 + 5) ≡ 0xCD
    → view (eip + 5 + 5 + 5 + 1) ≡ 0x80
    → run 4 view (Executed.continues (registers eip eax ebx ecx))
      ≡ Executed.interrupt 0x80 (registers (eip + 17) 1 message length)
unfolding run
one_call view eip message length eax ebx ecx fits b₀ i₀ b₁ i₁ b₂ i₂ b₃ i₃ =
    let e₁ : add32 eip 5 ≡ eip + 5 = mod-eq_of_lt (omega (arith, fits)) in
    let e₂ : add32 (eip + 5) 5 ≡ eip + 5 + 5 = mod-eq_of_lt (omega (arith, fits)) in
    let e₃ : add32 (eip + 5 + 5) 5 ≡ eip + 5 + 5 + 5 = mod-eq_of_lt (omega (arith, fits)) in
    let e₄ : add32 (eip + 5 + 5 + 5) 2 ≡ eip + 17 = omega (arith, fits) in
    ap (run 3 view) (mov_eax view eip eax ebx ecx 1 i₀ b₀)
    ∙ ap (λ e. run 3 view (Executed.continues (registers e 1 ebx ecx))) e₁
    ∙ ap (run 2 view) (mov_ebx view (eip + 5) 1 ebx ecx message i₁ b₁)
    ∙ ap (λ e. run 2 view (Executed.continues (registers e 1 message ecx))) e₂
    ∙ ap (run 1 view) (mov_ecx view (eip + 5 + 5) 1 message ecx length i₂ b₂)
    ∙ ap (λ e. run 1 view (Executed.continues (registers e 1 message length))) e₃
    ∙ int_80 view (eip + 5 + 5 + 5) 1 message length b₃ i₃
    ∙ ap (λ e. Executed.interrupt 0x80 (registers e 1 message length)) e₄

-- For messages whose lengths are words, at an address from which 17 bytes for each message and two more
-- stay below 4 GiB, where the bytes of calls_program stand: whatever the registers, the processor
-- makes one system call for each message, in their order, by int 0x80 at the fourth instruction, with
-- the number 1, the message's address and its length, and behind the last call it stays on the jump
-- to itself.
pub calls_program-Calls :
    (messages : List (ℕ × ℕ)) (view : Memory) (eip : ℕ)
    → AreWords messages
    → eip + 17 * count messages + 2 < 4294967296
    → Reads (calls_program messages) eip view
    → Calls view eip messages
unfolding calls_program Calls count AreWords
calls_program-Calls [] view eip small fits reads = λ eax ebx ecx.
    let (op, displacement, rest) = two_bytes view eip 0xEB 0xFE [] reads in
    let home : jump_target eip 0xFE ≡ eip = omega (arith, fits) in
    jmp_rel8 view eip eax ebx ecx 0xFE op displacement
    ∙ ap (λ e. Executed.continues (registers e eax ebx ecx)) home
calls_program-Calls ((offset, length) ∷ messages) view eip (small, others) fits reads =
    let message : ℕ = add32 user_test_data_va offset in
    let eax_part = five_bytes view eip 0xB8 1 _ (omega arith) reads in
    let ebx_part = five_bytes view (eip + 5) 0xBB message _ (omega arith) eax_part.2 in
    let ecx_part = five_bytes view (eip + 5 + 5) 0xB9 length _ small ebx_part.2 in
    let call = two_bytes view (eip + 5 + 5 + 5) 0xCD 0x80 _ ecx_part.2 in
    (
      λ eax ebx ecx.
          one_call view eip message length eax ebx ecx (omega (arith, fits)) eax_part.0 eax_part.1
            ebx_part.0 ebx_part.1 ecx_part.0 ecx_part.1 call.0 call.1,
      calls_program-Calls messages view (eip + 17) others (omega (arith, fits))
          (subst (λ i. Reads (calls_program messages) i view) (omega arith) call.2),
    )
