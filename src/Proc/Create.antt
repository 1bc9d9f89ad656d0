-- ===== src/Proc/Create.antt =====
-- kernel/kernel/proc/proc.c: kernel_proc_init, create_proc and proc_enter, over the process table,
-- the kernel heap and the page directories. The fields of a process block that the code does not
-- write keep what stood at its address.
use brownie_os.Base.{
  ℕ, zero, suc, ◌+◌, ◌-◌, ◌*◌, ◌/◌, Bool, true, false, ◌||◌, Option, none, some, ◌==◌, bit_or,
  if◌then◌else◌, update, add32, sub32,
}
use brownie_os.Pmm.{Framemap, alloc_pages}
use brownie_os.Kmm.{Kmm, kmalloc, kfree}
use brownie_os.Proc.{System, Proc, ProcState, ProcPriority, Context, max_proc, swap_dir}
use brownie_os.Boot.{Ended}
use brownie_os.Paging.{Paging, to_phys, to_virt, proc_map_pages}
use brownie_os.Paging.Clone.{Cloning, and_then, clone_page_dir}

-- The parts of the kernel that a new process needs
pub record Os : Type 0 where
  pub system : System
  pub pages : Cloning
  pub heap : Kmm
  pub pid_ctr : ℕ

abbrev pub is_unused : ProcState → Bool
is_unused ProcState.unused = true
is_unused _ = false

-- `proc_list[i] == NULL || proc_list[i]->procstate == PROC_UNUSED`
unfoldable pub is_free : System → ℕ → Bool
is_free s i = (s.proc_list i == 0) || is_unused (s.procs (s.proc_list i)).procstate

-- The search for a slot, from `i` on with `n` slots left
unfoldable pub find_unused : (n i : ℕ) → System → Option ℕ
find_unused zero i s = none
find_unused (suc n) i s = let rest = find_unused n (i + 1) s in if is_free s i then some i else rest

abbrev pub set_proc : (p : ℕ) → Proc → Os → Os
set_proc p b o = record o { system = record (o.system) { procs = update o.system.procs p b } }

abbrev pub set_paging : Paging → Os → Os
set_paging g o = record o { pages = record (o.pages) { paging = g } }

-- `kernel_proc_init`: the kernel's process has the process identifier as its slot.
unfoldable pub kernel_proc_init : (kernel_directory : ℕ) → Os → Os
kernel_proc_init kernel_directory o =
    let got = kmalloc o.heap 104 in
    let block : Proc = record (o.system.procs got.1) {
      pid = o.pid_ctr;
      procstate = ProcState.running;
      priority = ProcPriority.high;
      page_directory = kernel_directory;
      brk = 0;
      heap_start = 0;
      stack_top = 0;
      stack_size = 0;
    } in
    record o {
      heap = got.0;
      pid_ctr = add32 o.pid_ctr 1;
      system = record (o.system) {
        procs = update o.system.procs got.1 block;
        proc_list = update o.system.proc_list o.pid_ctr got.1;
        current_proc = got.1;
      };
    }

-- A slot that holds an unused block gives it back; then the new block is allocated.
abbrev pub take_block : (i : ℕ) → Os → Os × ℕ
take_block i o =
    let old = o.system.proc_list i in
    let heap' = if old == 0 then o.heap else kfree o.heap old in
    let got = kmalloc heap' 104 in (record o { heap = got.0 }, got.1)

-- `alloc_pages`
abbrev pub allocated_pages : Os → Option (ℕ × Framemap) → Ended (ℕ × Os)
allocated_pages o none = Ended.running
allocated_pages o (some (paddr, m)) =
    Ended.returned (paddr, set_paging (record (o.pages.paging) { framemap = m }) o)

abbrev pub take_pages : (fuel flags count : ℕ) → Os → Ended (ℕ × Os)
take_pages fuel flags count o =
    allocated_pages o (alloc_pages fuel flags count o.pages.paging.framemap)

-- PROC_STACK_TOP
abbrev pub proc_stack_top : ℕ
proc_stack_top = 0xBFFFFFF0

-- The stack from its lowest page to 0xC0000000
abbrev pub stack_bottom_al : (stack_size : ℕ) → ℕ
stack_bottom_al stack_size = sub32 proc_stack_top stack_size / 4096 * 4096

abbrev pub stack_pages : (stack_size : ℕ) → ℕ
stack_pages stack_size = sub32 0xC0000000 (stack_bottom_al stack_size) / 4096

-- The context for the entry to user mode
abbrev pub entry_context : (code : ℕ) → Context → Context
entry_context code c = record c {
  eip = code;
  esp = 0xBFFFFFE0;
  ebp = 0xBFFFFFE0;
  useresp = 0xBFFFFFE0;
  cs = 0x1B;
  ss = 0x23;
  eflags = 0x202;
}

-- The last part: context, kernel stack, and the slot in the table.
abbrev pub publish : (code i p : ℕ) → Os → Os × ℕ
publish code i p o =
    let got = kmalloc o.heap 8192 in
    let b = o.system.procs p in
    let block : Proc = record b {
      context = entry_context code b.context;
      kstack_size = 8192;
      kstack_base = got.1;
      kstack_top = add32 got.1 8192;
      procstate = ProcState.running;
    } in
    (
      record o {
        heap = got.0;
        system = record (o.system) {
          procs = update o.system.procs p block;
          proc_list = update o.system.proc_list i p;
        };
      },
      p,
    )

-- What follows `proc_map_pages` for the stack
abbrev pub with_stack : (code i p : ℕ) → Os → Option (Bool × Paging) → Ended (Os × ℕ)
with_stack code i p o none = Ended.running
with_stack code i p o (some (false, g)) = Ended.returned (set_paging g o, 0)
with_stack code i p o (some (true, g)) = Ended.returned (publish code i p (set_paging g o))

-- The part for the stack: the fields, the pages, the mapping.
unfoldable pub map_stack : (fuel code stack_size i p : ℕ) → Os → Ended (Os × ℕ)
map_stack fuel code stack_size i p o =
    and_then (take_pages fuel 1 (stack_pages stack_size) o) (λ got.
      let b = got.1.system.procs p in
      let t = set_proc p (record b { stack_top = proc_stack_top; stack_size = stack_size }) got.1 in
      if got.0 == 0
      then Ended.returned (t, 0)
      else with_stack code i p t (
          proc_map_pages fuel p b.page_directory (stack_bottom_al stack_size) got.0
            (stack_pages stack_size) true t.pages.paging))

-- The part for the page directory: two pages, cleared, and the clone of the kernel's. The test of
-- `proc->page_directory` comes after KP2V, which is 0 for no address that alloc_pages returns.
unfoldable pub make_directory :
    (fuel loaded kernel_directory p : ℕ) (priority : ProcPriority) → Os → Ended Os
make_directory fuel loaded kernel_directory p priority o = and_then (take_pages fuel 0 2 o) (λ got.
    let dir = to_virt got.0 in
    let block : Proc = record (got.1.system.procs p) {
      pid = o.pid_ctr;
      procstate = ProcState.setup;
      priority = priority;
      page_directory = dir;
    } in
    let t = set_proc p block (record (got.1) { pid_ctr = add32 o.pid_ctr 1 }) in
    let g = t.pages.paging in
    let cleared = record (t.pages) {
      paging = record g {
        directories =
            update g.directories dir (record { page_dir_entries = λ j. 0; tables = λ j. 0 });
      };
    } in
    and_then (clone_page_dir fuel loaded kernel_directory dir cleared) (λ c.
      Ended.returned (set_proc p (record block { cr3 = to_phys dir }) (record t { pages = c }))))

abbrev pub with_slot :
    (fuel loaded kernel_directory code stack_size : ℕ) (priority : ProcPriority)
    → Os
    → Option ℕ
    → Ended (Os × ℕ)
with_slot fuel loaded kernel_directory code stack_size priority o none = Ended.returned (o, 0)
with_slot fuel loaded kernel_directory code stack_size priority o (some i) =
    let got = take_block i o in
    if got.1 == 0
    then Ended.returned (got.0, 0)
    else and_then (make_directory fuel loaded kernel_directory got.1 priority got.0)
        (λ t. map_stack fuel code stack_size i got.1 t)

-- `create_proc`: the state and the address of the block, or 0 for NULL. `loaded` is the directory in
-- CR3; `exec_size` and `heap_size` are not used.
unfoldable pub create_proc :
    (fuel loaded kernel_directory code stack_size : ℕ) (priority : ProcPriority)
    → Os
    → Ended (Os × ℕ)
unfolding find_unused
create_proc fuel loaded kernel_directory code stack_size priority o =
    with_slot fuel loaded kernel_directory code stack_size priority o
      (find_unused (max_proc - 1) 1 o.system)

-- `proc_enter` up to the assembly that enters user mode: `eflags` is what PUSHF gives.
unfoldable pub proc_enter : (p eflags : ℕ) → System → System
proc_enter p eflags s =
    let b = s.procs p in
    record s {
      current_proc = p;
      esp0 = b.kstack_top;
      cr3 = swap_dir b.page_directory;
      procs =
          update s.procs p
            (record b { context = record (b.context) { eflags = bit_or eflags 0x200 } });
    }
