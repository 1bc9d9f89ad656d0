-- ===== src/Demo/Pages.antt =====
-- The two pages of a demo process, as write_pages leaves them.
use native.Mathlib.Decide.{ℕ_discrete}
use brownie_os.Base.{ℕ, ◌+◌, ◌≤◌, ◌<◌, ◌≡◌, ◌≢◌, refl, sym, ap, ◌∙◌, arith, inl, inr, add32}
use brownie_os.Libc.Memory.{Memory}
use brownie_os.Boot.{Ended}
use brownie_os.Paging.Clone.{Cloning, and_then}
use brownie_os.Demo.{store8, store_bytes, user_program, emit, write_pages}
use brownie_os.Demo.Stores.{
  with_ram, MappedAt, Stored, MappedAt-with_ram, store8-Stored, store_bytes-Stored, emit-Stored,
  byte_at, size, Reads, byte_at-Reads,
}

-- The page of code, with the program at its start and NOPs behind it, and the page of data, with
-- the message and zeros behind it; every other frame is as it was.
pub record Prepared (c : Cloning) (code_frame data_frame msg len : ℕ) (mem : Memory)
    (r : Ended Cloning) : Type 0 where
  pub ram : ℕ → ℕ → ℕ
  pub result : r ≡ Ended.returned (with_ram c ram)
  pub program : Reads (user_program len) 0 (ram code_frame)
  pub nops : (j : ℕ) → 19 ≤ j → j < 4096 → ram code_frame j ≡ 0x90
  pub message : (j : ℕ) → j < len → ram data_frame j ≡ mem (msg + j)
  pub zeros : (j : ℕ) → len ≤ j → j < 4096 → ram data_frame j ≡ 0
  pub others : (g : ℕ) → g ≢ code_frame → g ≢ data_frame → ram g ≡ c.ram g

-- The five loops that write the two pages, one after the other
module _ (code_frame data_frame msg len : ℕ) (mem : Memory) (c : Cloning) (r₁ : Ended Cloning)
    (f₂ f₃ f₄ f₅ : Cloning → Ended Cloning) (nops : Stored c code_frame 0 4096 (λ j. 0x90) r₁)
    (zeros : Stored (with_ram c nops.ram) data_frame 0 4096 (λ j. 0) (f₂ (with_ram c nops.ram)))
    (text : Stored
      (with_ram c zeros.ram)
      data_frame
      0
      len
      (λ j. mem (msg + j))
      (f₃ (with_ram c zeros.ram)))
    (nul : Stored (with_ram c text.ram) data_frame len 1 (λ j. 0) (f₄ (with_ram c text.ram)))
    (code : Stored
      (with_ram c nul.ram)
      code_frame
      0
      (size (user_program len))
      (byte_at (user_program len))
      (f₅ (with_ram c nul.ram)))
    (apart : code_frame ≢ data_frame) where
  data_kept : (j : ℕ) → code.ram data_frame j ≡ nul.ram data_frame j
  data_kept j = ap (λ (page : ℕ → ℕ). page j) (code.elsewhere data_frame (λ e. apart (sym e)))

  code_kept : (j : ℕ) → nul.ram code_frame j ≡ nops.ram code_frame j
  code_kept j =
      ap (λ (page : ℕ → ℕ). page j)
        (nul.elsewhere code_frame apart
          ∙ text.elsewhere code_frame apart
          ∙ zeros.elsewhere code_frame apart)

  zeros_behind : (j : ℕ) → len ≤ j → j < 4096 → nul.ram data_frame j ≡ 0
  zeros_behind j lo hi = elim (ℕ_discrete j len) [
    | yes e ↦ nul.inside j lo (omega (arith, e))
    | no ne ↦
        nul.around j (inr (omega (arith, lo, ne)))
        ∙ text.around j (inr (omega (arith, lo)))
        ∙ zeros.inside j (omega arith) (omega (arith, hi))
  ]

  stores-Prepared :
      Prepared c code_frame data_frame msg len mem
        (and_then r₁ (λ c₁. and_then (f₂ c₁) (λ c₂. and_then (f₃ c₂) (λ c₃. and_then (f₄ c₃) f₅))))
  unfolding size
  stores-Prepared = record {
    ram = code.ram;
    result = rw (nops.result, zeros.result, text.result, nul.result, code.result) refl;
    program = byte_at-Reads (user_program len) 0 (code.ram code_frame) (λ j h.
        ap (code.ram code_frame) (omega arith) ∙ code.inside j (omega arith) (omega (arith, h)));
    nops = λ j lo hi.
        code.around j (inr lo) ∙ code_kept j ∙ nops.inside j (omega arith) (omega (arith, hi));
    message =
        λ j h. data_kept j ∙ nul.around j (inl h) ∙ text.inside j (omega arith) (omega (arith, h));
    zeros = λ j lo hi. data_kept j ∙ zeros_behind j lo hi;
    others = λ g not_code not_data.
        code.elsewhere g not_code
        ∙ nul.elsewhere g not_data
        ∙ text.elsewhere g not_data
        ∙ zeros.elsewhere g not_data
        ∙ nops.elsewhere g not_code;
  }

-- write_pages, with both pages mapped, in different frames, and a message that fits the page of data
-- with its NUL
pub write_pages-Prepared :
    (loaded code_ptr data_ptr code_frame data_frame msg len : ℕ) (mem : Memory) (c : Cloning)
    → MappedAt loaded code_ptr code_frame c
    → MappedAt loaded data_ptr data_frame c
    → code_frame ≢ data_frame
    → len < 4096
    → Prepared c code_frame data_frame msg len mem
        (write_pages loaded code_ptr data_ptr msg len mem c)
unfolding write_pages size
write_pages-Prepared loaded code_ptr data_ptr code_frame data_frame msg len mem c code data_page
      apart fits =
    let s₁ =
      store_bytes-Stored 4096 0 loaded code_ptr code_frame (λ j. 0x90) c code (omega arith) in
    let s₂ =
      store_bytes-Stored 4096 0 loaded data_ptr data_frame (λ j. 0) (with_ram c s₁.ram)
        (MappedAt-with_ram loaded data_ptr data_frame c s₁.ram data_page) (omega arith) in
    let s₃ =
      store_bytes-Stored len 0 loaded data_ptr data_frame (λ j. mem (msg + j)) (with_ram c s₂.ram)
        (MappedAt-with_ram loaded data_ptr data_frame c s₂.ram data_page) (omega (arith, fits)) in
    let s₄ =
      store8-Stored loaded data_ptr data_frame len 0 (with_ram c s₃.ram)
        (MappedAt-with_ram loaded data_ptr data_frame c s₃.ram data_page) fits in
    let s₅ =
      emit-Stored (user_program len) 0 loaded code_ptr code_frame (byte_at (user_program len))
        (with_ram c s₄.ram) (MappedAt-with_ram loaded code_ptr code_frame c s₄.ram code)
        (omega arith)
        (byte_at-Reads (user_program len) 0 (byte_at (user_program len))
          (λ j h. ap (byte_at (user_program len)) (omega arith))) in
    stores-Prepared code_frame data_frame msg len mem c
      (store_bytes 4096 0 loaded code_ptr (λ j. 0x90) c)
      (store_bytes 4096 0 loaded data_ptr (λ j. 0))
      (store_bytes len 0 loaded data_ptr (λ j. mem (msg + j)))
      (store8 loaded (add32 data_ptr len) 0) (emit (user_program len) loaded code_ptr 0) s₁ s₂ s₃ s₄
      s₅ apart
