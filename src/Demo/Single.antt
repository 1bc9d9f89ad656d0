-- ===== src/Demo/Single.antt =====
-- kernel_single_process_test of kernel/kernel/core/kernel.c: a process that prints two messages, in the
-- address space of the current process. The pages are written at their user addresses.
pub mod Calls
use brownie_os.Base.{
  ℕ, zero, suc, ◌+◌, Bool, true, false, ◌||◌, Option, none, some, List, [], ◌∷◌, ◌++◌, ◌==◌,
  if◌then◌else◌, add32,
}
use brownie_os.Libc.Memory.{Memory}
use brownie_os.Libc.Printf.{strlen}
use brownie_os.Boot.{Ended}
use brownie_os.Paging.{Paging, proc_map_pages}
use brownie_os.Paging.Clone.{Cloning, and_then}
use brownie_os.Proc.{Context}
use brownie_os.Proc.Create.{Os, set_paging, take_pages}
use brownie_os.Demo.{
  user_test_code_va, user_test_data_va, sys_print_string_number, store8, store_bytes, imm32, emit,
  measured,
}

-- USER_TEST_STACK_TOP
abbrev pub user_test_stack_top : ℕ
user_test_stack_top = 0x00403000

-- The instructions for a message: mov eax, imm32; mov ebx, imm32; mov ecx, imm32; int 0x80
abbrev pub call_program : (offset length : ℕ) → List ℕ
call_program offset length =
    (0xB8 ∷ imm32 sys_print_string_number)
    ++ ((0xBB ∷ imm32 (add32 user_test_data_va offset))
        ++ ((0xB9 ∷ imm32 length) ++ (0xCD ∷ 0x80 ∷ [])))

-- The loop over the messages, and the jump to itself
unfoldable pub calls_program : (messages : List (ℕ × ℕ)) → List ℕ
calls_program [] = 0xEB ∷ 0xFE ∷ []
calls_program ((offset, length) ∷ messages) = call_program offset length ++ calls_program messages

-- The loop that copies the messages, by their addresses, from `data_cursor` on: where each one is, and
-- its length
abbrev noted : ℕ × ℕ → List (ℕ × ℕ) × Cloning → Ended (List (ℕ × ℕ) × Cloning)
noted message (messages, c) = Ended.returned (message ∷ messages, c)

pub write_messages :
    (fuel loaded : ℕ) (texts : List ℕ) (data_cursor : ℕ)
    → Memory
    → Cloning
    → Ended (List (ℕ × ℕ) × Cloning)
write_messages fuel loaded [] data_cursor mem c = Ended.returned ([], c)
write_messages fuel loaded (msg ∷ texts) data_cursor mem c =
    and_then (measured (strlen fuel (λ j. mem (msg + j)) 0)) (λ len.
      let dest = add32 user_test_data_va data_cursor in
      and_then (store_bytes len 0 loaded dest (λ j. mem (msg + j)) c) (λ c₁.
        and_then (store8 loaded (add32 dest len) 0 c₁) (λ c₂.
          and_then (write_messages fuel loaded texts (add32 data_cursor (len + 1)) mem c₂)
            (noted (data_cursor, len)))))

-- The three pages: the code on NOPs, the messages on zeros, and the stack
unfoldable pub write_process : (fuel loaded : ℕ) (texts : List ℕ) → Memory → Cloning → Ended Cloning
unfolding write_messages
write_process fuel loaded texts mem c =
    and_then (store_bytes 4096 0 loaded user_test_code_va (λ j. 0x90) c) (λ c₁.
      and_then (store_bytes 4096 0 loaded user_test_data_va (λ j. 0) c₁) (λ c₂.
        and_then (write_messages fuel loaded texts 0 mem c₂) (λ written.
          and_then (emit (calls_program written.0) loaded user_test_code_va 0 written.1)
            (λ c₃. store_bytes 4096 0 loaded 0x00402000 (λ j. 0) c₃))))

-- `user_ctx`
abbrev pub user_ctx : Context
user_ctx = record {
  edi = 0;
  esi = 0;
  ebp = 0x00402FF0;
  esp = 0x00402FF0;
  ebx = 0;
  edx = 0;
  ecx = 0;
  eax = 0;
  eip = user_test_code_va;
  cs = 0x1B;
  eflags = 0x202;
  useresp = 0x00402FF0;
  ss = 0x23;
}

-- `proc_map_pages(current_proc, virt, phys, 1, true)`, and what follows it unless it fails
abbrev mapped_page :
    Os → Option (Bool × Paging) → (Os → Ended (Os × Option Context)) → Ended (Os × Option Context)
mapped_page o none next = Ended.running
mapped_page o (some (false, g)) next = Ended.returned (set_paging g o, none)
mapped_page o (some (true, g)) next = next (set_paging g o)

abbrev map_page_at :
    (fuel virt phys : ℕ) → Os → (Os → Ended (Os × Option Context)) → Ended (Os × Option Context)
map_page_at fuel virt phys o next =
    let p = o.system.current_proc in
    mapped_page o
      (proc_map_pages fuel p ((o.system.procs p).page_directory) virt phys 1 true o.pages.paging)
      next

-- `kernel_single_process_test`: the state, and the context that is given to iret_jump_user, if it gets
-- there; `texts` are the addresses of the messages.
unfoldable pub kernel_single_process_test :
    (fuel loaded : ℕ) (texts : List ℕ) → Memory → Os → Ended (Os × Option Context)
kernel_single_process_test fuel loaded texts mem o = and_then (take_pages fuel 1 1 o) (λ code.
    and_then (take_pages fuel 1 1 code.1) (λ data_page.
      and_then (take_pages fuel 1 1 data_page.1) (λ stack.
        if (code.0 == 0) || (data_page.0 == 0) || (stack.0 == 0)
        then Ended.returned (stack.1, none)
        else map_page_at fuel user_test_code_va code.0 stack.1 (λ o₁.
          map_page_at fuel user_test_data_va data_page.0 o₁ (λ o₂.
            map_page_at fuel 0x00402000 stack.0 o₂ (λ o₃.
              and_then (write_process fuel loaded texts mem o₃.pages)
                (λ c. Ended.returned (record o₃ { pages = c }, some user_ctx))))))))
