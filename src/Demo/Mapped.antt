-- ===== src/Demo/Mapped.antt =====
-- The temporary mappings of the two frames of a demo process, and the window's free entries.
use native.Mathlib.Decide.{ℕ_discrete}
use brownie_os.Base.{
  ℕ, ◌+◌, ◌*◌, ◌/◌, ◌%◌, ◌≤◌, ◌<◌, ◌≡◌, ◌≢◌, refl, sym, ap, subst, ◌∙◌, arith, inl, inr, true, some,
  le→ltb, update, update_self, update_ne,
}
use brownie_os.Vmm.{Tables, identity_end, set_page, kmap, kunmap, map_at}
use brownie_os.Vmm.Window.{entry_of, kmap-kunmap}
use brownie_os.Boot.{Ended}
use brownie_os.Paging.{present}
use brownie_os.Paging.Clone.{Cloning}
use brownie_os.Demo.Stores.{MappedAt}

-- A page frame above the window onto low memory
pub record IsHighFrame (paddr : ℕ) : Type 0 where
  pub above : identity_end ≤ paddr
  pub aligned : paddr % 4096 ≡ 0
  pub below : paddr + 4096 ≤ 4294967296

-- A temporary mapping of `paddr` at `vaddr`, in the tables `t`
pub record IsMapped (paddr vaddr : ℕ) (t : Tables) : Type 0 where
  pub aligned : vaddr % 4096 ≡ 0
  pub low : 4160749568 ≤ vaddr
  pub high : vaddr + 4096 ≤ 4294967296
  pub word_present : entry_of t vaddr % 2 ≡ 1
  pub target : entry_of t vaddr / 4096 ≡ paddr / 4096

pub slot-IsMapped :
    (paddr p k : ℕ) (t : Tables)
    → IsHighFrame paddr
    → 992 ≤ p
    → p < 1024
    → k < 1024
    → t p k ≡ 0
    → let r = map_at paddr t (some (p, k)) in IsMapped paddr r.0 r.1
unfolding set_page
slot-IsMapped paddr p k t frame lo hi page free =
    let vaddr : ℕ = p * 4194304 + k * 4096 + paddr % 4096 in
    let table : vaddr / 4194304 ≡ p = omega (arith, frame.aligned, page) in
    let entry : vaddr % 4194304 / 4096 ≡ k = omega (arith, frame.aligned, page) in
    let word : ℕ = paddr / 4096 % 1048576 * 4096 + t p k / 8 % 512 * 8 + 0 * 4 + 1 * 2 + 1 in
    let here : entry_of (update t p (update (t p) k word)) vaddr ≡ word =
      rw (table, entry) (ground arith) in
    let bound : paddr / 4096 < 1048576 = omega (arith, frame.below) in
    record {
      aligned = omega (arith, frame.aligned);
      low = omega (arith, lo);
      high = omega (arith, hi, page, frame.aligned);
      word_present = omega (arith, here, free);
      target = omega (arith, here, free, bound);
    }

-- A mapping outlasts another one that takes a free entry.
pub IsMapped-later :
    (paddr vaddr other p k : ℕ) (t : Tables)
    → IsMapped paddr vaddr t
    → t p k ≡ 0
    → IsMapped paddr vaddr (map_at other t (some (p, k))).1
IsMapped-later paddr vaddr other p k t m free =
    let word : ℕ = set_page (t p k) (other / 4096) 1 1 0 in
    let same : entry_of (update t p (update (t p) k word)) vaddr ≡ entry_of t vaddr =
      elim (ℕ_discrete (vaddr / 4194304) p) [
        | no ne ↦
            ap (λ (f : ℕ → ℕ). f (vaddr % 4194304 / 4096))
              (update_ne t p (vaddr / 4194304) (update (t p) k word) ne)
        | yes e ↦ elim (ℕ_discrete (vaddr % 4194304 / 4096) k) [
          | no ne ↦
              ap (λ i. update t p (update (t p) k word) i (vaddr % 4194304 / 4096)) e
              ∙ ap (λ (f : ℕ → ℕ). f (vaddr % 4194304 / 4096))
                  (update_self t p (update (t p) k word))
              ∙ update_ne (t p) k (vaddr % 4194304 / 4096) word ne
              ∙ ap (λ i. t i (vaddr % 4194304 / 4096)) (sym e)
          | yes e' ↦
              let zero_word : entry_of t vaddr ≡ 0 =
                ap (λ i. t i (vaddr % 4194304 / 4096)) e ∙ ap (t p) e' ∙ free in
              absurd (omega (arith, zero_word, m.word_present))
        ]
      ] in
    record {
      aligned = m.aligned;
      low = m.low;
      high = m.high;
      word_present = ap (λ w. w % 2) same ∙ m.word_present;
      target = ap (λ w. w / 4096) same ∙ m.target;
    }

pub IsMapped-MappedAt :
    (loaded paddr vaddr : ℕ) (c : Cloning)
    → IsMapped paddr vaddr c.window
    → MappedAt loaded vaddr (paddr / 4096) c
IsMapped-MappedAt loaded paddr vaddr c m =
    let user = le→ltb vaddr 0xC0000000 (omega (arith, m.low)) in
    let identity = le→ltb vaddr 0xF8000000 (omega (arith, m.low)) in
    let bit : present (entry_of c.window vaddr) ≡ true = ground (arith, m.word_present) in
    record {
      aligned = m.aligned;
      low = m.low;
      high = m.high;
      found = rw (user, identity, bit) (ap Ended.returned m.target);
    }

pub kunmap_null : (tables : Tables) (p k : ℕ) → kunmap 0 tables p k ≡ tables p k
unfolding kunmap
kunmap_null tables p k = refl

-- What is mapped into a free entry is gone after kunmap.
pub dropped :
    (paddr : ℕ) (tables : Tables) (p k : ℕ) (r : ℕ × Tables)
    → IsHighFrame paddr
    → 992 ≤ p
    → p < 1024
    → k < 1024
    → tables p k ≡ 0
    → kmap paddr tables ≡ r
    → (q j : ℕ) → kunmap r.0 r.1 q j ≡ tables q j
dropped paddr tables p k r frame lo hi page free e =
    elim (kmap-kunmap paddr tables frame.above (omega (arith, frame.below))) [
      | inl (window, was_free, bits, target, undone) ↦
          subst (λ (x : ℕ × Tables). (q j : ℕ) → kunmap x.0 x.1 q j ≡ tables q j) e undone
      | inr (none_left, used) ↦ absurd (used p k lo hi page free)
    ]

-- A free entry of the window
pub record IsFree (tables : Tables) (p k : ℕ) : Type 0 where
  pub low : 992 ≤ p
  pub high : p < 1024
  pub page : k < 1024
  pub free : tables p k ≡ 0

-- The window of temporary mappings has no two free entries.
abbrev pub IsShort : Tables → Type 0
IsShort tables = (p k p' k' : ℕ) → IsFree tables p k → IsFree tables p' k' → (p ≡ p') × (k ≡ k')

pub full-IsShort :
    (tables : Tables)
    → ((p k : ℕ) → 992 ≤ p → p < 1024 → k < 1024 → tables p k ≢ 0)
    → IsShort tables
full-IsShort tables used p k p' k' a b = absurd (used p k a.low a.high a.page a.free)

-- A mapping in the only free entry
pub last-IsShort :
    (paddr p k : ℕ) (tables : Tables)
    → ((q j : ℕ) → 992 ≤ q → q < 1024 → j < 1024 → (map_at paddr tables (some (p, k))).1 q j ≢ 0)
    → IsShort tables
last-IsShort paddr p k tables used q j q' j' a b =
    let word : ℕ = set_page (tables p k) (paddr / 4096) 1 1 0 in
    let only : (x y : ℕ) → IsFree tables x y → (x ≡ p) × (y ≡ k) = λ x y f. elim (ℕ_discrete x p) [
      | no ne ↦ absurd (
          used x y f.low f.high f.page
            (ap (λ (t : ℕ → ℕ). t y) (update_ne tables p x (update (tables p) k word) ne) ∙ f.free))
      | yes e ↦ elim (ℕ_discrete y k) [
        | yes e' ↦ (e, e')
        | no ne ↦ absurd (
            used x y f.low f.high f.page (
              ap (λ i. update tables p (update (tables p) k word) i y) e
              ∙ ap (λ (t : ℕ → ℕ). t y) (update_self tables p (update (tables p) k word))
              ∙ update_ne (tables p) k y word ne
              ∙ ap (λ i. tables i y) (sym e)
              ∙ f.free))
      ]
    ] in
    let one = only q j a in let other = only q' j' b in (one.0 ∙ sym other.0, one.1 ∙ sym other.1)
