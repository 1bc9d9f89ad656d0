-- ===== src/Examples/Demo.antt =====
-- The demo's processes on concrete states.
use brownie_os.Base.{
  List, [], ◌∷◌, ◌-◌, ap, ℕ, ◌≢◌, ◌+◌, ◌*◌, ◌/◌, ◌%◌, ◌<◌, ◌≡◌, refl, arith, true, some,
  if◌then◌else◌, ◌==◌,
}
use brownie_os.Libc.Memory.{Memory}
use brownie_os.Libc.Printf.{strlen}
use brownie_os.Proc.{IntRegs}
use brownie_os.Syscall.{user_addr_accessible, sys_print_string}
use brownie_os.Paging.Clone.{Cloning}
use brownie_os.Demo.{write_pages, build_proc, user_test_code_va}
use brownie_os.Demo.Stores.{MappedAt, byte_at, byte_at-Reads}
use brownie_os.Demo.Pages.{Prepared, write_pages-Prepared}
use brownie_os.Demo.Mapped.{IsHighFrame}
use brownie_os.Demo.Build.{Built, build_proc-Built}
use brownie_os.Demo.Program.{Registers, registers, Executed, run}
use brownie_os.Demo.Prints.{Printed, demo_process-prints}
use brownie_os.Demo.Single.{calls_program}
use brownie_os.Demo.Single.Calls.{Calls, AreWords, count, calls_program-Calls}
use brownie_os.Examples.Calls.{mapped}
use brownie_os.Examples.Processes.{two}
use brownie_os.Examples.Pages.{bare, small_os}

-- The message "Hi" at 0xC0100000
abbrev hi_text : Memory
hi_text a = if a == 0xC0100000 then 72 else if a == 0xC0100001 then 105 else 0

hi_measured : strlen 10 (λ j. hi_text (0xC0100000 + j)) 0 ≡ some 2
unfolding strlen
hi_measured = refl

high_1 : IsHighFrame 0x40000000
high_1 = record { above = omega arith; aligned = omega arith; below = omega arith }

high_2 : IsHighFrame 0x40001000
high_2 = record { above = omega arith; aligned = omega arith; below = omega arith }

build_proc-Built_example :
    Built 10 0xC0400000 0xC0400000 0x40000000 0x40001000 0xC0100000 2 hi_text small_os
      (build_proc 10 0xC0400000 0xC0400000 0xC0100000 0x40000000 0x40001000 hi_text small_os)
build_proc-Built_example =
    build_proc-Built 10 0xC0400000 0xC0400000 0x40000000 0x40001000 0xC0100000 2 hi_text small_os
      high_1 high_2 (omega arith) hi_measured (omega arith)

-- Two pages in the window of temporary mappings
abbrev two_pages : Cloning
two_pages = record {
  paging = bare;
  window = λ i j. if i == 992 then (0x40000 + j) * 4096 + 3 else 0;
  ram = λ frame i. 0;
}

page_1-MappedAt : MappedAt 0xC0400000 0xF8000000 0x40000 two_pages
page_1-MappedAt = record { aligned = refl; low = omega arith; high = omega arith; found = refl }

page_2-MappedAt : MappedAt 0xC0400000 0xF8001000 0x40001 two_pages
page_2-MappedAt = record { aligned = refl; low = omega arith; high = omega arith; found = refl }

hi_pages :
    Prepared two_pages 0x40000 0x40001 0xC0100000 2 hi_text
      (write_pages 0xC0400000 0xF8000000 0xF8001000 0xC0100000 2 hi_text two_pages)
hi_pages =
    write_pages-Prepared 0xC0400000 0xF8000000 0xF8001000 0x40000 0x40001 0xC0100000 2 hi_text
      two_pages page_1-MappedAt page_2-MappedAt (omega arith) (omega arith)

-- What a process sees of two frames, as pages at 0x400000 and 0x401000
abbrev seen_through : (ℕ → ℕ → ℕ) → Memory
seen_through ram a =
    if a / 4096 == 0x400
    then ram 0x40000 (a % 4096)
    else if a / 4096 == 0x401
    then ram 0x40001 (a % 4096)
    else 0

seen_code : (ram : ℕ → ℕ → ℕ) (j : ℕ) → j < 4096 → seen_through ram (0x400000 + j) ≡ ram 0x40000 j
seen_code ram j h =
    let page : (0x400000 + j) / 4096 ≡ 0x400 = omega (arith, h) in
    let offset : (0x400000 + j) % 4096 ≡ j = omega (arith, h) in rw (page, offset) refl

seen_data : (ram : ℕ → ℕ → ℕ) (j : ℕ) → j < 4096 → seen_through ram (0x401000 + j) ≡ ram 0x40001 j
seen_data ram j h =
    let page : (0x401000 + j) / 4096 ≡ 0x401 = omega (arith, h) in
    let offset : (0x401000 + j) % 4096 ≡ j = omega (arith, h) in rw (page, offset) refl

hi_chars : (j : ℕ) → j < 2 → hi_text (0xC0100000 + j) ≢ 0
hi_chars j h = ground (arith, h)

hi_readable : (j : ℕ) → j < 2 → user_addr_accessible mapped two 100 (0x401000 + j) ≡ true
unfolding user_addr_accessible
hi_readable j h = ground (arith, h)

demo_process-prints_example :
    let view = seen_through hi_pages.ram in
    (call : Registers) × (run 4 view (Executed.continues (registers user_test_code_va 0 0 0))
      ≡ Executed.interrupt 0x80 call)
    × (call.eax ≡ 1)
    × ((regs : IntRegs)
        → regs.ebx ≡ call.ebx
        → regs.ecx ≡ call.ecx
        → Printed 0xC0800000 2
            (λ j. hi_text (0xC0100000 + j))
            regs
            (sys_print_string mapped two 0xC0800000 regs view))
demo_process-prints_example =
    demo_process-prints two_pages 0x40000 0x40001 0xC0100000 2 hi_text
      (write_pages 0xC0400000 0xF8000000 0xF8001000 0xC0100000 2 hi_text two_pages) hi_pages
      (seen_through hi_pages.ram) 0 0 0 mapped two 0xC0800000 (omega arith) (omega arith) hi_chars
      (seen_code hi_pages.ram) (seen_data hi_pages.ram) (omega arith) (omega arith) (omega arith)
      hi_readable

-- Two messages of 2 and 300 characters
abbrev two_messages : List (ℕ × ℕ)
two_messages = (0, 2) ∷ (3, 300) ∷ []

-- Their program at 0x400000
abbrev loaded_program : Memory
loaded_program a = byte_at (calls_program two_messages) (a - 0x400000)

calls_program-Calls_example : Calls loaded_program 0x400000 two_messages
unfolding AreWords count
calls_program-Calls_example =
    calls_program-Calls two_messages loaded_program 0x400000
      (omega arith, (omega arith, omega arith)) (omega arith)
      (byte_at-Reads (calls_program two_messages) 0x400000 loaded_program
        (λ j h. ap (byte_at (calls_program two_messages)) (omega arith)))
