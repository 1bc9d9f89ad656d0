-- ===== src/Demo.antt =====
-- kernel/kernel/core/kernel.c: the user processes of the demo, each with a page of machine code that
-- prints a message and a page with the message. The kernel writes the two pages through temporary
-- mappings. What is printed on the console on errors is left out.
pub mod Stores
pub mod Pages
pub mod Program
pub mod Prints
pub mod Install
pub mod Mapped
pub mod Build
pub mod Single
use brownie_os.Base.{
  ℕ, zero, suc, ◌+◌, ◌-◌, ◌*◌, ◌/◌, ◌%◌, Bool, true, false, ◌||◌, Option, none, some, List, [], ◌∷◌,
  ◌++◌, ◌==◌, if◌then◌else◌, update, add32,
}
use brownie_os.Libc.Memory.{Memory}
use brownie_os.Libc.Printf.{strlen}
use brownie_os.Vmm.{Tables, kmap, kunmap}
use brownie_os.Boot.{Ended}
use brownie_os.Paging.{Paging, proc_map_pages}
use brownie_os.Paging.Clone.{Cloning, and_then, frame_at}
use brownie_os.Proc.{ProcPriority}
use brownie_os.Proc.Create.{Os, set_paging, take_pages, create_proc, proc_enter}

-- USER_TEST_CODE_VA, USER_TEST_DATA_VA, and SYS_PRINT_STRING of core/syscall.h
abbrev pub user_test_code_va : ℕ
user_test_code_va = 0x00400000

abbrev pub user_test_data_va : ℕ
user_test_data_va = 0x00401000

abbrev pub sys_print_string_number : ℕ
sys_print_string_number = 1

-- The store of a byte at a virtual address, with the directory at `loaded` in CR3
abbrev pub store8 : (loaded vaddr byte : ℕ) → Cloning → Ended Cloning
store8 loaded vaddr byte c = and_then (frame_at loaded vaddr c) (λ frame.
    Ended.returned
      (record c { ram = update c.ram frame (update (c.ram frame) (vaddr % 4096) byte) }))

-- The loops of `memset` and `memcpy` on such addresses, from `i` on with `n` rounds left: `src` gives
-- the bytes.
pub store_bytes : (n i loaded dst : ℕ) → (src : ℕ → ℕ) → Cloning → Ended Cloning
store_bytes zero i loaded dst src c = Ended.returned c
store_bytes (suc n) i loaded dst src c =
    and_then (store8 loaded (add32 dst i) (src i) c) (λ t. store_bytes n (i + 1) loaded dst src t)

-- The bytes of `imm` as `memcpy(&code_ptr[idx], &imm, sizeof(imm))` finds them
abbrev pub imm32 : (imm : ℕ) → List ℕ
imm32 imm = imm % 256 ∷ imm / 256 % 256 ∷ imm / 65536 % 256 ∷ imm / 16777216 % 256 ∷ []

-- What is emitted: mov eax, imm32; mov ebx, imm32; mov ecx, imm32; int 0x80; jmp $
abbrev pub user_program : (msg_len : ℕ) → List ℕ
user_program msg_len =
    (0xB8 ∷ imm32 sys_print_string_number)
    ++ ((0xBB ∷ imm32 user_test_data_va)
        ++ ((0xB9 ∷ imm32 msg_len) ++ (0xCD ∷ 0x80 ∷ 0xEB ∷ 0xFE ∷ [])))

-- `code_ptr[idx++] = byte`, for the bytes in order
pub emit : (bytes : List ℕ) → (loaded code_ptr idx : ℕ) → Cloning → Ended Cloning
emit [] loaded code_ptr idx c = Ended.returned c
emit (byte ∷ bytes) loaded code_ptr idx c =
    and_then (store8 loaded (add32 code_ptr idx) byte c)
      (λ t. emit bytes loaded code_ptr (idx + 1) t)

-- The two pages are filled: the code on NOPs, the message and its NUL on zeros.
unfoldable pub write_pages :
    (loaded code_ptr data_ptr msg msg_len : ℕ) → Memory → Cloning → Ended Cloning
unfolding store_bytes emit
write_pages loaded code_ptr data_ptr msg msg_len mem c =
    and_then (store_bytes 4096 0 loaded code_ptr (λ j. 0x90) c) (λ c₁.
      and_then (store_bytes 4096 0 loaded data_ptr (λ j. 0x00) c₁) (λ c₂.
        and_then (store_bytes msg_len 0 loaded data_ptr (λ j. mem (msg + j)) c₂) (λ c₃.
          and_then (store8 loaded (add32 data_ptr msg_len) 0 c₃)
            (λ c₄. emit (user_program msg_len) loaded code_ptr 0 c₄))))

abbrev pub measured : Option ℕ → Ended ℕ
measured none = Ended.running
measured (some len) = Ended.returned len

-- `kunmap(code_ptr); kunmap(data_ptr);`
abbrev pub drop_pages : (code_ptr data_ptr : ℕ) → Os → Os
drop_pages code_ptr data_ptr o = record o {
  pages = record (o.pages) { window = kunmap data_ptr (kunmap code_ptr o.pages.window) };
}

-- What follows the second `proc_map_pages`, and the first
abbrev pub mapped_data : (p code_ptr data_ptr : ℕ) → Os → Option (Bool × Paging) → Ended (Os × ℕ)
mapped_data p code_ptr data_ptr o none = Ended.running
mapped_data p code_ptr data_ptr o (some (false, g)) =
    Ended.returned (drop_pages code_ptr data_ptr (set_paging g o), 0)
mapped_data p code_ptr data_ptr o (some (true, g)) =
    Ended.returned (drop_pages code_ptr data_ptr (set_paging g o), p)

abbrev pub mapped_code :
    (fuel p data_phys code_ptr data_ptr : ℕ) → Os → Option (Bool × Paging) → Ended (Os × ℕ)
mapped_code fuel p data_phys code_ptr data_ptr o none = Ended.running
mapped_code fuel p data_phys code_ptr data_ptr o (some (false, g)) =
    Ended.returned (drop_pages code_ptr data_ptr (set_paging g o), 0)
mapped_code fuel p data_phys code_ptr data_ptr o (some (true, g)) =
    mapped_data p code_ptr data_ptr (set_paging g o) (
      proc_map_pages fuel p ((o.system.procs p).page_directory) user_test_data_va data_phys 1 true
        g)

-- The two frames are mapped into the process `p`; the temporary mappings go.
unfoldable pub install_pages :
    (fuel p code_phys data_phys code_ptr data_ptr : ℕ) → Os → Ended (Os × ℕ)
install_pages fuel p code_phys data_phys code_ptr data_ptr o =
    mapped_code fuel p data_phys code_ptr data_ptr o (
      proc_map_pages fuel p ((o.system.procs p).page_directory) user_test_code_va code_phys 1 true
        o.pages.paging)

-- The process, with the pages written
abbrev pub make_proc :
    (fuel loaded kernel_directory code_phys data_phys code_ptr data_ptr : ℕ) → Os → Ended (Os × ℕ)
make_proc fuel loaded kernel_directory code_phys data_phys code_ptr data_ptr o =
    and_then (create_proc fuel loaded kernel_directory user_test_code_va 4096 ProcPriority.normal o)
      (λ made.
        if made.1 == 0
        then Ended.returned (drop_pages code_ptr data_ptr made.0, 0)
        else install_pages fuel made.1 code_phys data_phys code_ptr data_ptr made.0)

-- With the two mappings, either of which may be NULL: the pages and the process
unfoldable pub mapped_proc :
    (fuel loaded kernel_directory msg code_phys data_phys code_ptr data_ptr : ℕ)
    → Memory
    → Os
    → Ended (Os × ℕ)
mapped_proc fuel loaded kernel_directory msg code_phys data_phys code_ptr data_ptr mem o =
    if (code_ptr == 0) || (data_ptr == 0)
    then Ended.returned (drop_pages code_ptr data_ptr o, 0)
    else and_then (measured (strlen fuel (λ j. mem (msg + j)) 0)) (λ msg_len.
      and_then (write_pages loaded code_ptr data_ptr msg msg_len mem o.pages) (λ written.
        make_proc fuel loaded kernel_directory code_phys data_phys code_ptr data_ptr
          (record o { pages = written })))

abbrev pub set_window : Tables → Os → Os
set_window window o = record o { pages = record (o.pages) { window = window } }

-- With the two frames: the mappings, and the rest
unfoldable pub build_proc :
    (fuel loaded kernel_directory msg code_phys data_phys : ℕ) → Memory → Os → Ended (Os × ℕ)
build_proc fuel loaded kernel_directory msg code_phys data_phys mem o =
    let code = kmap code_phys o.pages.window in
    let data_at = kmap data_phys code.1 in
    mapped_proc fuel loaded kernel_directory msg code_phys data_phys code.0 data_at.0 mem
      (set_window data_at.1 o)

-- `make_user_proc_with_message`: the state and the process, or 0 for NULL. `loaded` is the directory
-- in CR3.
unfoldable pub make_user_proc_with_message :
    (fuel loaded kernel_directory msg : ℕ) → Memory → Os → Ended (Os × ℕ)
make_user_proc_with_message fuel loaded kernel_directory msg mem o =
    if msg == 0
    then Ended.returned (o, 0)
    else and_then (take_pages fuel 1 1 o) (λ code.
      and_then (take_pages fuel 1 1 code.1) (λ data_page.
        if (code.0 == 0) || (data_page.0 == 0)
        then Ended.returned (data_page.1, 0)
        else build_proc fuel loaded kernel_directory msg code.0 data_page.0 mem data_page.1))

-- `kernel_three_process_test`, up to the entry into user mode: `eflags` is what PUSHF gives.
unfoldable pub kernel_three_process_test :
    (fuel loaded kernel_directory m₁ m₂ m₃ eflags : ℕ) → Memory → Os → Ended Os
kernel_three_process_test fuel loaded kernel_directory m₁ m₂ m₃ eflags mem o =
    and_then (make_user_proc_with_message fuel loaded kernel_directory m₁ mem o) (λ p₁.
      and_then (make_user_proc_with_message fuel loaded kernel_directory m₂ mem p₁.0) (λ p₂.
        and_then (make_user_proc_with_message fuel loaded kernel_directory m₃ mem p₂.0) (λ p₃.
          if (p₁.1 == 0) || (p₂.1 == 0) || (p₃.1 == 0)
          then Ended.returned p₃.0
          else Ended.returned (record (p₃.0) { system = proc_enter p₁.1 eflags p₃.0.system }))))
