-- ===== src/Demo/Prints.antt =====
-- A demo process from its first instruction to the kernel's printf of its message.
use brownie_os.Base.{
  ℕ, ◌+◌, ◌≤◌, ◌<◌, ◌≡◌, ◌≢◌, refl, sym, ap, subst, ◌∙◌, arith, inl, inr, Bool, true, false, ◌==◌,
  Option, some, ne→==, add32,
}
use native.Mathlib.Nat.{mod-eq_of_lt}
use native.Mathlib.Decide.{dec_lt}
use brownie_os.Libc.Memory.{Memory}
use brownie_os.Boot.{Ended}
use brownie_os.Proc.{System, IntRegs}
use brownie_os.Syscall.{
  Paging, kern_start, user_addr_accessible, copy_user_string, print_copied, sys_print_string,
}
use brownie_os.Syscall.Copy.{Copies, limit_of, copy_user_string_lem}
use brownie_os.Paging.Clone.{Cloning}
use brownie_os.Demo.{user_program, user_test_code_va}
use brownie_os.Demo.Stores.{size, Reads-along}
use brownie_os.Demo.Pages.{Prepared}
use brownie_os.Demo.Program.{Registers, registers, Executed, run, user_program-run}

-- The string at `buffer` is the `len` characters `f` gives, with a NUL.
pub record Holds (buffer len : ℕ) (f : ℕ → ℕ) (m : Memory) : Type 0 where
  pub chars : (j : ℕ) → j < len → m (buffer + j) ≡ f j
  pub ends : m (buffer + len) ≡ 0

-- A copy of `len` readable characters that are not NUL is complete.
Copies-Holds :
    (accessible : ℕ → Bool) (buffer src len : ℕ) (m : Memory) (r : Bool × Memory)
    → src + len < 4294967296
    → ((j : ℕ) → j < len → accessible (src + j) ≡ true)
    → ((j : ℕ) → j < len → m (src + j) ≢ 0)
    → Copies accessible buffer src len m r
    → (r.0 ≡ true) × Holds buffer len (λ j. m (src + j)) r.1
unfolding Copies
Copies-Holds accessible buffer src len m r fits readable chars (outside, result) =
    let at : (j : ℕ) → j < len → add32 src j ≡ src + j =
      λ j h. mod-eq_of_lt (omega (arith, fits, h)) in
    elim result [
      | inl (good, w) ↦
          let whole : w.len ≡ len = elim (dec_lt w.len len) [
            | yes early ↦ elim w.ending [
              | inl full ↦ omega (arith, full)
              | inr (here, nul) ↦ absurd (chars w.len early (ap m (sym (at w.len early)) ∙ nul))
            ]
            | no late ↦ omega (arith, late, w.to)
          ] in
          (
            good,
            record {
              chars = λ j h. (w.chars j (omega arith) (omega (arith, whole, h))).2 ∙ ap m (at j h);
              ends = ap (λ k. r.1 (buffer + k)) (sym whole) ∙ w.terminated;
            },
          )
      | inr (failed, w) ↦
          let inside : w.stop < len = omega (arith, w.to) in
          let here = ap accessible (at w.stop inside) in
          absurd (ground (arith, here, w.bad, readable w.stop inside))
    ]

-- The call returns 0, and what goes to printf is the string at `buffer`, of `len` characters.
abbrev pub Printed :
    (buffer len : ℕ) (f : ℕ → ℕ) (regs : IntRegs) → IntRegs × Memory × Option ℕ → Type 0
Printed buffer len f regs p =
    (p.0 ≡ record regs { eax = 0 }) × (p.2 ≡ some buffer) × Holds buffer len f p.1

-- What sys_print_string does once the string is copied
print_copied-Holds :
    (buffer len : ℕ) (f : ℕ → ℕ) (regs : IntRegs) (r : Bool × Memory)
    → r.0 ≡ true
    → Holds buffer len f r.1
    → Printed buffer len f regs (print_copied buffer regs r)
print_copied-Holds buffer len f regs (true, m) good h = (refl, refl, h)
print_copied-Holds buffer len f regs (false, m) good h = absurd (ground (arith, good))

sys_print_string-copies :
    (paging : Paging) (s : System) (buffer : ℕ) (regs : IntRegs) (m : Memory)
    → (s.current_proc == 0) ≡ false
    → (regs.ebx == 0) ≡ false
    → (regs.ecx == 0) ≡ false
    → sys_print_string paging s buffer regs m
      ≡ print_copied buffer regs
          (copy_user_string paging s s.current_proc buffer 256 regs.ebx regs.ecx m)
unfolding sys_print_string
sys_print_string-copies paging s buffer regs m process address count =
    rw (process, address, count) refl

-- The message of `len` characters in the page at 0x401000, printed by the running process
message-printed :
    (paging : Paging) (s : System) (buffer len : ℕ) (regs : IntRegs) (m : Memory)
    → s.current_proc ≢ 0
    → regs.ebx ≡ 0x401000
    → regs.ecx ≡ len
    → 0 < len
    → len < 256
    → kern_start ≤ buffer
    → buffer + 256 ≤ 4294967296
    → ((j : ℕ) → j < len → user_addr_accessible paging s s.current_proc (0x401000 + j) ≡ true)
    → ((j : ℕ) → j < len → m (0x401000 + j) ≢ 0)
    → Printed buffer len (λ j. m (0x401000 + j)) regs (sys_print_string paging s buffer regs m)
message-printed paging s buffer len regs m process address count some_chars few kernel fits readable
      chars =
    let accessible = user_addr_accessible paging s s.current_proc in
    let r = copy_user_string paging s s.current_proc buffer 256 0x401000 len m in
    let limit : limit_of 256 len ≡ len = ground (arith, few) in
    let copied =
      copy_user_string_lem paging s s.current_proc buffer 256 0x401000 len m process (omega arith)
        (omega arith) kernel fits in
    let held =
      Copies-Holds accessible buffer 0x401000 len m r (omega (arith, few)) readable chars
        (subst (λ l. Copies accessible buffer 0x401000 l m r) limit copied.1) in
    let called =
      sys_print_string-copies paging s buffer regs m (ne→== s.current_proc 0 process)
        (ne→== regs.ebx 0 (λ e. absurd (omega (arith, e, address))))
        (ne→== regs.ecx 0 (λ e. absurd (omega (arith, e, count, some_chars))))
      ∙ ap
          (λ a.
            print_copied buffer regs
              (copy_user_string paging s s.current_proc buffer 256 a regs.ecx m))
          address
      ∙ ap
          (λ n.
            print_copied buffer regs
              (copy_user_string paging s s.current_proc buffer 256 0x401000 n m))
          count in
    subst (Printed buffer len (λ j. m (0x401000 + j)) regs) (sym called)
      (print_copied-Holds buffer len (λ j. m (0x401000 + j)) regs r held.0 held.1)

Printed-along :
    (buffer len : ℕ) (f g : ℕ → ℕ) (regs : IntRegs) (p : IntRegs × Memory × Option ℕ)
    → ((j : ℕ) → j < len → f j ≡ g j)
    → Printed buffer len f regs p
    → Printed buffer len g regs p
Printed-along buffer len f g regs p same (eax, to, held) =
    (eax, to, record { chars = λ j h. held.chars j h ∙ same j h; ends = held.ends })

-- A demo process whose two pages write_pages has prepared for a message of `len` characters, none of
-- them NUL, at least one and fewer than 256, where the process sees the pages at 0x400000 and
-- 0x401000 and the kernel finds the latter's addresses accessible: from the page's first
-- instruction, whatever the registers, the processor raises interrupt 0x80 at the fourth
-- instruction, with the number 1 in EAX; and for the frame of that call, with a process running and
-- a kernel buffer of 256 bytes, sys_print_string returns 0 and hands printf the message.
pub demo_process-prints :
    (c : Cloning) (code_frame data_frame msg len : ℕ) (mem : Memory) (written : Ended Cloning)
    (prepared : Prepared c code_frame data_frame msg len mem written) (view : Memory)
    (eax ebx ecx : ℕ) (paging : Paging) (s : System) (buffer : ℕ)
    → 0 < len
    → len < 256
    → ((j : ℕ) → j < len → mem (msg + j) ≢ 0)
    → ((j : ℕ) → j < 4096 → view (0x400000 + j) ≡ prepared.ram code_frame j)
    → ((j : ℕ) → j < 4096 → view (0x401000 + j) ≡ prepared.ram data_frame j)
    → s.current_proc ≢ 0
    → kern_start ≤ buffer
    → buffer + 256 ≤ 4294967296
    → ((j : ℕ) → j < len → user_addr_accessible paging s s.current_proc (0x401000 + j) ≡ true)
    → (call : Registers) × (run 4 view
          (Executed.continues (registers user_test_code_va eax ebx ecx))
        ≡ Executed.interrupt 0x80 call)
      × (call.eax ≡ 1)
      × ((regs : IntRegs)
          → regs.ebx ≡ call.ebx
          → regs.ecx ≡ call.ecx
          → Printed buffer len
              (λ j. mem (msg + j))
              regs
              (sys_print_string paging s buffer regs view))
unfolding size
demo_process-prints c code_frame data_frame msg len mem written prepared view eax ebx ecx paging s
      buffer some_chars few chars code data_page process kernel fits readable =
    let program =
      Reads-along (user_program len) 0 (prepared.ram code_frame) (λ j. view (0x400000 + j))
        (λ j h. code j (omega (arith, h))) prepared.program in
    let seen : (j : ℕ) → j < len → view (0x401000 + j) ≡ mem (msg + j) =
      λ j h. data_page j (omega (arith, h, few)) ∙ prepared.message j h in
    (
      registers 0x400011 1 0x401000 len,
      (user_program-run len view eax ebx ecx (omega (arith, few)) program).0,
      refl,
      λ regs address count.
          Printed-along buffer len (λ j. view (0x401000 + j)) (λ j. mem (msg + j)) regs
            (sys_print_string paging s buffer regs view) seen
            (message-printed paging s buffer len regs view process address count some_chars few
              kernel fits readable (λ j h e. chars j h (sym (seen j h) ∙ e))),
    )
