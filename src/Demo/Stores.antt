-- ===== src/Demo/Stores.antt =====
-- The loops of make_user_proc_with_message that write a page, byte for byte, through its mapping.
use native.Mathlib.Decide.{ℕ_discrete}
use native.Mathlib.Nat.{mod-eq_of_lt}
use brownie_os.Base.{
  ℕ, zero, suc, ◌+◌, ◌/◌, ◌%◌, ◌≤◌, ◌<◌, ◌≡◌, ◌≢◌, refl, sym, ap, subst, ◌∙◌, arith, ◌⊎◌, inl, inr,
  List, [], ◌∷◌, le→ltb, update, update_ne, add32,
}
use brownie_os.Boot.{Ended}
use brownie_os.Paging.Clone.{Cloning, and_then, frame_at}
use brownie_os.Demo.{store8, store_bytes, emit}

abbrev pub with_ram : Cloning → (ℕ → ℕ → ℕ) → Cloning
with_ram c ram = record c { ram = ram }

-- The page at `base` in the window of temporary mappings lies in `frame`.
pub record MappedAt (loaded base frame : ℕ) (c : Cloning) : Type 0 where
  pub aligned : base % 4096 ≡ 0
  pub low : 4160749568 ≤ base
  pub high : base + 4096 ≤ 4294967296
  pub found : frame_at loaded base c ≡ Ended.returned frame

-- `n` bytes of `frame` from the offset `lo` on are those of `src`, and nothing else has changed.
pub record Stored (c : Cloning) (frame lo n : ℕ) (src : ℕ → ℕ) (r : Ended Cloning) : Type 0 where
  pub ram : ℕ → ℕ → ℕ
  pub result : r ≡ Ended.returned (with_ram c ram)
  pub inside : (j : ℕ) → lo ≤ j → j < lo + n → ram frame j ≡ src j
  pub around : (j : ℕ) → (j < lo) ⊎ (lo + n ≤ j) → ram frame j ≡ c.ram frame j
  pub elsewhere : (g : ℕ) → g ≢ frame → ram g ≡ c.ram g

frame_at-page :
    (loaded base frame k : ℕ) (c : Cloning)
    → MappedAt loaded base frame c
    → k < 4096
    → frame_at loaded (base + k) c ≡ Ended.returned frame
frame_at-page loaded base frame k c m small =
    let table : (base + k) / 4194304 ≡ base / 4194304 = omega (arith, m.aligned, small) in
    let page : (base + k) % 4194304 / 4096 ≡ base % 4194304 / 4096 =
      omega (arith, m.aligned, small) in
    let e₁ = le→ltb (base + k) 0xC0000000 (omega (arith, m.low)) in
    let e₂ = le→ltb (base + k) 0xF8000000 (omega (arith, m.low)) in
    let f₁ = le→ltb base 0xC0000000 (omega (arith, m.low)) in
    let f₂ = le→ltb base 0xF8000000 (omega (arith, m.low)) in
    rw (e₁, e₂, table, page) (rw (f₁, f₂) at m.found)

pub store8-Stored :
    (loaded base frame k byte : ℕ) (c : Cloning)
    → MappedAt loaded base frame c
    → k < 4096
    → Stored c frame k 1 (λ j. byte) (store8 loaded (add32 base k) byte c)
store8-Stored loaded base frame k byte c m small =
    let at : add32 base k ≡ base + k = mod-eq_of_lt (omega (arith, m.high, small)) in
    let offset : (base + k) % 4096 ≡ k = omega (arith, m.aligned, small) in
    rw (at, frame_at-page loaded base frame k c m small, offset)
      (record {
        ram = update c.ram frame (update (c.ram frame) k byte);
        result = refl;
        inside = λ j lo hi. ground (arith, lo, hi);
        around = λ j out. ground (arith, out);
        elsewhere = λ g ne. update_ne c.ram frame g (update (c.ram frame) k byte) ne;
      })

-- A byte, and what follows it
Stored-cons :
    (c : Cloning) (frame i n byte : ℕ) (src : ℕ → ℕ) (r : Ended Cloning)
    (next : Cloning → Ended Cloning)
    → Stored c frame i 1 (λ j. byte) r
    → src i ≡ byte
    → ((ram : ℕ → ℕ → ℕ) → Stored (with_ram c ram) frame (i + 1) n src (next (with_ram c ram)))
    → Stored c frame i (suc n) src (and_then r next)
Stored-cons c frame i n byte src r next one here more =
    let rest = more one.ram in
    record {
      ram = rest.ram;
      result = ap (λ (x : Ended Cloning). and_then x next) one.result ∙ rest.result;
      inside = λ j lo hi. elim (ℕ_discrete j i) [
        | yes e ↦
            subst (λ k. rest.ram frame k ≡ src k) (sym e)
              (rest.around i (inl (omega arith))
                ∙ one.inside i (omega arith) (omega arith)
                ∙ sym here)
        | no ne ↦ rest.inside j (omega (arith, lo, ne)) (omega (arith, hi))
      ];
      around = λ j out.
          rest.around j
            (elim out [ inl a ↦ inl (omega (arith, a)) | inr a ↦ inr (omega (arith, a)) ])
          ∙ one.around j (elim out [ inl a ↦ inl a | inr a ↦ inr (omega (arith, a)) ]);
      elsewhere = λ g ne. rest.elsewhere g ne ∙ one.elsewhere g ne;
    }

pub MappedAt-with_ram :
    (loaded base frame : ℕ) (c : Cloning) (ram : ℕ → ℕ → ℕ)
    → MappedAt loaded base frame c
    → MappedAt loaded base frame (with_ram c ram)
MappedAt-with_ram loaded base frame c ram m = record {
  aligned = m.aligned;
  low = m.low;
  high = m.high;
  found = m.found;
}

nothing-Stored :
    (c : Cloning) (frame i : ℕ) (src : ℕ → ℕ) → Stored c frame i 0 src (Ended.returned c)
nothing-Stored c frame i src = record {
  ram = c.ram;
  result = refl;
  inside = λ j lo hi. absurd (omega (arith, lo, hi));
  around = λ j out. refl;
  elsewhere = λ g ne. refl;
}

pub store_bytes-Stored :
    (n i loaded base frame : ℕ) (src : ℕ → ℕ) (c : Cloning)
    → MappedAt loaded base frame c
    → i + n ≤ 4096
    → Stored c frame i n src (store_bytes n i loaded base src c)
unfolding store_bytes
store_bytes-Stored zero i loaded base frame src c m fits = nothing-Stored c frame i src
store_bytes-Stored (suc n) i loaded base frame src c m fits =
    Stored-cons c frame i n (src i) src (store8 loaded (add32 base i) (src i) c)
      (λ t. store_bytes n (i + 1) loaded base src t)
      (store8-Stored loaded base frame i (src i) c m (omega (arith, fits))) refl
      (λ ram.
        store_bytes-Stored n (i + 1) loaded base frame src (with_ram c ram)
          (MappedAt-with_ram loaded base frame c ram m) (omega (arith, fits)))

-- The bytes of a list, by their index, and their number
pub byte_at : List ℕ → ℕ → ℕ
byte_at [] j = 0
byte_at (b ∷ bs) zero = b
byte_at (b ∷ bs) (suc j) = byte_at bs j

unfoldable pub size : List ℕ → ℕ
size [] = 0
size (b ∷ bs) = suc (size bs)

-- The `n` bytes that `f` has from the index `i` on are those of the list.
unfoldable pub Reads : (bytes : List ℕ) (i : ℕ) (f : ℕ → ℕ) → Type 0
Reads [] i f = i ≡ i
Reads (b ∷ bs) i f = (f i ≡ b) × Reads bs (i + 1) f

pub emit-Stored :
    (bytes : List ℕ) (i loaded base frame : ℕ) (src : ℕ → ℕ) (c : Cloning)
    → MappedAt loaded base frame c
    → i + size bytes ≤ 4096
    → Reads bytes i src
    → Stored c frame i (size bytes) src (emit bytes loaded base i c)
unfolding emit size Reads
emit-Stored [] i loaded base frame src c m fits reads = nothing-Stored c frame i src
emit-Stored (byte ∷ bytes) i loaded base frame src c m fits (here, reads) =
    Stored-cons c frame i (size bytes) byte src (store8 loaded (add32 base i) byte c)
      (λ t. emit bytes loaded base (i + 1) t)
      (store8-Stored loaded base frame i byte c m (omega (arith, fits))) here
      (λ ram.
        emit-Stored bytes (i + 1) loaded base frame src (with_ram c ram)
          (MappedAt-with_ram loaded base frame c ram m) (omega (arith, fits)) reads)

pub byte_at-Reads :
    (bytes : List ℕ) (i : ℕ) (f : ℕ → ℕ)
    → ((j : ℕ) → j < size bytes → f (i + j) ≡ byte_at bytes j)
    → Reads bytes i f
unfolding Reads byte_at size
byte_at-Reads [] i f same = refl
byte_at-Reads (b ∷ bytes) i f same = (
  ap f (omega arith) ∙ same 0 (omega arith),
  byte_at-Reads bytes (i + 1) f (λ j h. ap f (omega arith) ∙ same (suc j) (omega (arith, h))),
)

pub Reads-along :
    (bytes : List ℕ) (i : ℕ) (f g : ℕ → ℕ)
    → ((j : ℕ) → j < i + size bytes → g j ≡ f j)
    → Reads bytes i f
    → Reads bytes i g
unfolding Reads size
Reads-along [] i f g same reads = refl
Reads-along (b ∷ bytes) i f g same (here, reads) = (
  same i (omega arith) ∙ here,
  Reads-along bytes (i + 1) f g (λ j h. same j (omega (arith, h))) reads,
)
