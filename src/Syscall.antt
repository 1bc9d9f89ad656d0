-- ===== src/Syscall.antt =====
-- kernel/kernel/core/syscall.c: the system call table and the copy of a string from user memory.
-- Memory is one function from the virtual address to the byte, as the current CR3 maps it; page
-- directories and page tables stand at addresses, and NULL is 0.
pub mod Copy
pub mod Table
use brownie_os.Base.{
  ℕ, zero, suc, ◌+◌, ◌-◌, ◌*◌, ◌/◌, ◌%◌, ◌^◌, Bool, true, false, not, ◌&&◌, ◌||◌, Option, none,
  some, ltb, leb, ◌==◌, if◌then◌else◌, update, add32, u32,
}
use brownie_os.Proc.{System, Proc, IntRegs}

-- The bits of `page_dir_entry_t` and `page_t` that the checks read.
pub record Entry : Type 0 where
  pub present : Bool
  pub user : Bool

-- `page_directory_t`
pub record PageDirectory : Type 0 where
  pub page_dir_entries : ℕ → Entry
  pub tables : ℕ → ℕ

-- The directories and the tables' pages, at their addresses.
pub record Paging : Type 0 where
  pub directories : ℕ → PageDirectory
  pub pages : ℕ → ℕ → Entry

-- `PAGE_IDX_VADDR(KERN_START_TBL, 0, 0)`
abbrev pub kern_start : ℕ
kern_start = 768 * 4194304

-- `user_addr_accessible`
unfoldable pub user_addr_accessible : Paging → System → (proc addr : ℕ) → Bool
user_addr_accessible paging s proc addr =
    let directory = (s.procs proc).page_directory in
    let dir = paging.directories directory in
    let pd_idx = addr / 4194304 in
    let pt_idx = addr % 4194304 / 4096 in
    let entry = dir.page_dir_entries pd_idx in
    let table = dir.tables pd_idx in
    let page = paging.pages table pt_idx in
    if proc == 0 || directory == 0
    then false
    else if leb kern_start addr
    then false
    else if not entry.present || not entry.user
    then false
    else if table == 0
    then false
    else if not page.present || not page.user
    then false
    else true

abbrev pub Memory : Type 0
Memory = ℕ → ℕ

-- The loop of `copy_user_string`, with `rest` characters to go to the limit, and its last lines.
pub copy_loop : (accessible : ℕ → Bool) (dest src rest copied : ℕ) → Memory → Bool × Memory
copy_loop accessible dest src zero copied m = (true, update m (add32 dest copied) 0)
copy_loop accessible dest src (suc rest) copied m =
    let addr = add32 src copied in
    let c = m addr in
    let m' = update m (add32 dest copied) c in
    let more = copy_loop accessible dest src rest (copied + 1) m' in
    if not (accessible addr) then (false, m) else if c == 0 then (true, m') else more

-- `copy_user_string`
unfoldable pub copy_user_string :
    Paging → System → (proc dest dest_len src user_len : ℕ) → Memory → Bool × Memory
copy_user_string paging s proc dest dest_len src user_len m =
    let limit = if leb dest_len user_len then dest_len - 1 else user_len in
    if dest == 0 || dest_len == 0 || src == 0 || proc == 0
    then (false, m)
    else if limit == 0
    then (true, update m dest 0)
    else copy_loop (user_addr_accessible paging s proc) dest src limit 0 m

-- SYSCALL_MAX
abbrev pub syscall_max : ℕ
syscall_max = 256

-- What `syscall_register` returns; the table holds the handlers' addresses.
pub data Registered : Type 0 where
  ok invalid taken : Registered

-- `syscall_register`
unfoldable pub syscall_register : (num handler : ℕ) → (ℕ → ℕ) → Registered × (ℕ → ℕ)
syscall_register num handler table =
    if leb syscall_max num || handler == 0
    then (Registered.invalid, table)
    else if not (table num == 0)
    then (Registered.taken, table)
    else (Registered.ok, update table num handler)

-- `syscall_init`: the cleared table with the handler of SYS_PRINT_STRING at `handler`.
abbrev pub syscall_init : (handler : ℕ) → Registered × (ℕ → ℕ)
syscall_init handler = syscall_register 1 handler (λ num. 0)

-- `syscall_dispatch`, for a frame that is not NULL: `run` calls the handler at an address.
unfoldable pub syscall_dispatch {ℓ} :
    {W : Type ℓ} → (table : ℕ → ℕ) (run : ℕ → IntRegs → W → IntRegs × W) → IntRegs → W → IntRegs × W
syscall_dispatch table run regs w =
    let num = regs.eax in
    if ltb num syscall_max && not (table num == 0)
    then run (table num) regs w
    else (record regs { eax = u32 - 1 }, w)

-- SYSCALL_EINVAL and SYSCALL_EFAULT as `uint32_t`, and SYS_PRINT_STRING_MAX_LEN
abbrev pub syscall_einval : ℕ
syscall_einval = u32 - 22

abbrev pub syscall_efault : ℕ
syscall_efault = u32 - 14

abbrev pub sys_print_string_max_len : ℕ
sys_print_string_max_len = 256

-- `if(!copy_user_string(...))`: the frame, the memory, and the string given to `printf("%s\n")`.
abbrev pub print_copied : (buffer : ℕ) → IntRegs → Bool × Memory → IntRegs × Memory × Option ℕ
print_copied buffer regs (false, m) = (record regs { eax = syscall_efault }, m, none)
print_copied buffer regs (true, m) = (record regs { eax = 0 }, m, some buffer)

-- `sys_print_string`, for a frame that is not NULL and the local array at `buffer`; the message on
-- the calling process is left out.
unfoldable pub sys_print_string :
    Paging → System → (buffer : ℕ) → IntRegs → Memory → IntRegs × Memory × Option ℕ
sys_print_string paging s buffer regs m =
    if s.current_proc == 0 || (regs.ebx == 0 || regs.ecx == 0)
    then (record regs { eax = syscall_einval }, m, none)
    else print_copied buffer regs (
        copy_user_string paging s s.current_proc buffer sys_print_string_max_len regs.ebx regs.ecx
          m)
