-- ===== src/Tss/Segments.antt =====
-- The descriptors that the processor finds after gdt_init and tss_init.
use brownie_os.Base.{
  ℕ, zero, suc, ◌+◌, ◌-◌, ◌*◌, ◌/◌, ◌%◌, ◌^◌, ◌<◌, ◌≡◌, refl, sym, ap, subst, ◌∙◌, arith, ◌&&◌,
  ◌==◌, leb, if◌then◌else◌, Option, none, some, List, [], ◌∷◌, add32, bytes16, bytes32,
}
use brownie_os.Gdt.{GdtEntry, gdt_set_gate, gdt_init}
use brownie_os.Gdt.Fields.{base_of, limit_of}
use brownie_os.Tss.{TssEntry, tss_size, tss_zero, Cpu, tss_set_kernel_stack, tss_init}

-- What a descriptor says: base and limit, the access byte with the privilege level, and whether
-- the limit counts pages
pub record Segment (e : GdtEntry) (base limit access granularity : ℕ) : Type 0 where
  pub base_is : base_of e ≡ base
  pub limit_is : limit_of e ≡ limit
  pub access_is : e.access ≡ access
  pub granularity_is : e.granularity / 16 ≡ granularity

-- `struct tss_entry` as the processor finds it in memory, byte for byte: the stacks and the directory,
-- the registers, and the segments with the last three fields
abbrev segment_bytes : TssEntry → List ℕ
segment_bytes t = bytes16 t.es (
    bytes16 t.cs (
      bytes16 t.ss (
        bytes16 t.ds (
          bytes16 t.fs
            (bytes16 t.gs (bytes16 t.ldt (bytes16 t.trap (bytes16 t.iomap_base ([])))))))))

abbrev register_bytes : TssEntry → List ℕ
register_bytes t = bytes32 t.eip (
    bytes32 t.eflags (
      bytes32 t.eax (
        bytes32 t.ecx (
          bytes32 t.edx (
            bytes32 t.ebx
              (bytes32 t.esp (bytes32 t.ebp (bytes32 t.esi (bytes32 t.edi (segment_bytes t))))))))))

pub image : TssEntry → List ℕ
image t = bytes32 t.prev_tss (
    bytes32 t.esp0 (
      bytes32 t.ss0 (
        bytes32 t.esp1
          (bytes32 t.ss1 (bytes32 t.esp2 (bytes32 t.ss2 (bytes32 t.cr3 (register_bytes t))))))))

-- `n` bytes of 0, and what follows
pub zeros : ℕ → List ℕ → List ℕ
zeros zero rest = rest
zeros (suc n) rest = 0 ∷ zeros n rest

-- The stack that the processor takes for an interrupt in ring 3: the task register selects a descriptor
-- of a 32-bit task state segment that reaches over the stack's fields, which are the bytes from 4 on;
-- the stack's segment must be writable data of ring 0.
little_word : List ℕ → Option (ℕ × ℕ)
little_word (p₀ ∷ p₁ ∷ p₂ ∷ p₃ ∷ a ∷ b ∷ c ∷ d ∷ e ∷ f ∷ rest) =
    some (e + f * 256, a + b * 256 + c * 65536 + d * 16777216)
little_word bytes = none

checked_stack : Cpu → Option (ℕ × ℕ) → Option (ℕ × ℕ)
checked_stack c none = none
checked_stack c (some (ss, esp)) =
    if (c.gdt_entries (ss / 8)).access == 0b10010010 then some (ss, esp) else none

pub ring0_stack : Cpu → Option (ℕ × ℕ)
ring0_stack c =
    let e = c.gdt_entries (c.task_register / 8) in
    if (e.access == 0x89) && leb 9 (limit_of e)
    then checked_stack c (little_word (image c.tss))
    else none

-- The task register selects the descriptor 5 of the task state segment at `tss_at`, whose stack for
-- ring 0 is `top` in the kernel's data segment, whose I/O map would lie behind it, and whose other
-- bytes are 0; descriptors 1 to 4 are the flat code and data segments of ring 0 and of ring 3.
pub record Segments (tss_at top : ℕ) (c : Cpu) : Type 0 where
  pub selected : c.task_register ≡ 5 * 8
  pub task : Segment (c.gdt_entries 5) tss_at 89 137 0
  pub stack : c.tss.esp0 ≡ top
  pub stack_segment : c.tss.ss0 ≡ 2 * 8
  pub memory :
      image c.tss
      ≡ zeros 4 (bytes32 top (2 * 8 ∷ zeros 79 ((limit_of (c.gdt_entries 5) + 1) ∷ 0 ∷ [])))
  pub null : Segment (c.gdt_entries 0) 0 0 0 0
  pub kernel_code : Segment (c.gdt_entries 1) 0 0xFFFFF 154 12
  pub kernel_data : Segment (c.gdt_entries 2) 0 0xFFFFF 146 12
  pub user_code : Segment (c.gdt_entries 3) 0 0xFFFFF 250 12
  pub user_data : Segment (c.gdt_entries 4) 0 0xFFFFF 242 12

-- Calls of `tss_set_kernel_stack`, one after the other, and the last of the stacks
unfoldable pub set_stacks : List ℕ → Cpu → Cpu
set_stacks [] c = c
set_stacks (top ∷ stacks) c = set_stacks stacks (tss_set_kernel_stack top c)

unfoldable pub last_stack : List ℕ → ℕ → ℕ
last_stack [] top = top
last_stack (next ∷ stacks) top = last_stack stacks next

-- The state with the stack `top`
module _ (tss_at : ℕ) (c : Cpu) where
  abbrev with_stack : (top : ℕ) → Cpu
  with_stack top = record {
    tss = record tss_zero { ss0 = 0x10; esp0 = top; iomap_base = tss_size };
    gdt_entries = gdt_set_gate 5 tss_at (tss_size - 1) 0x89 0x00 (gdt_init c.gdt_entries);
    task_register = 0x28;
  }

  set_stacks-last :
      (stacks : List ℕ) (top : ℕ)
      → set_stacks stacks (with_stack top) ≡ with_stack (last_stack stacks top)
  unfolding set_stacks last_stack tss_set_kernel_stack
  set_stacks-last [] top = refl
  set_stacks-last (next ∷ stacks) top = set_stacks-last stacks next

  with_stack-Segments : tss_at < 4294967296 → (top : ℕ) → Segments tss_at top (with_stack top)
  unfolding gdt_init gdt_set_gate image zeros
  with_stack-Segments small top =
      let base : tss_at % 65536 + tss_at / 65536 % 256 * 65536 + tss_at / 16777216 % 256 * 16777216
          ≡ tss_at =
        omega (arith, small) in
      record {
        selected = refl;
        task = record { base_is = base; limit_is = refl; access_is = refl; granularity_is = refl };
        stack = refl;
        stack_segment = refl;
        memory = refl;
        null = record { base_is = refl; limit_is = refl; access_is = refl; granularity_is = refl };
        kernel_code = record {
          base_is = refl;
          limit_is = refl;
          access_is = refl;
          granularity_is = refl;
        };
        kernel_data = record {
          base_is = refl;
          limit_is = refl;
          access_is = refl;
          granularity_is = refl;
        };
        user_code = record {
          base_is = refl;
          limit_is = refl;
          access_is = refl;
          granularity_is = refl;
        };
        user_data = record {
          base_is = refl;
          limit_is = refl;
          access_is = refl;
          granularity_is = refl;
        };
      }

  with_stack-ring0 : (top : ℕ) → ring0_stack (with_stack top) ≡ some (0x10, top % 2 ^ 32)
  unfolding gdt_init gdt_set_gate image ring0_stack little_word checked_stack
  with_stack-ring0 top = ap (λ esp. some (0x10, esp)) (omega arith)

-- After gdt_init and tss_init, for a task state segment at an address below 4 GiB, and any calls of
-- tss_set_kernel_stack: the task register selects the descriptor of the task state segment, the
-- processor takes the last stack that was set, at first the end of the initial one, in the kernel's
-- data segment, and of the segment's 90 bytes only those of the stack, of its segment and of the
-- I/O map's place are not 0; the flat segments are as gdt_init sets them.
pub tss_init-Segments :
    (tss_at initial_kstack : ℕ) (stacks : List ℕ) (c : Cpu)
    → tss_at < 4294967296
    → let ready =
        tss_init tss_at initial_kstack (record c { gdt_entries = gdt_init c.gdt_entries }) in
      let t = set_stacks stacks ready in
      let top = last_stack stacks (add32 initial_kstack 8192) in
      Segments tss_at top t × (ring0_stack t ≡ some (0x10, top % 2 ^ 32))
unfolding tss_init
tss_init-Segments tss_at initial_kstack stacks c small =
    let top : ℕ = last_stack stacks (add32 initial_kstack 8192) in
    let same = set_stacks-last tss_at c stacks (add32 initial_kstack 8192) in
    (
      subst (Segments tss_at top) (sym same) (with_stack-Segments tss_at c small top),
      ap ring0_stack same ∙ with_stack-ring0 tss_at c top,
    )
