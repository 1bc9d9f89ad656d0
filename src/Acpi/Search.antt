-- ===== src/Acpi/Search.antt =====
-- find_rsdp: the first candidate with the signature, where its checksum holds.
use brownie_os.Base.{
  ℕ, zero, suc, ◌+◌, ◌*◌, ◌<◌, ◌≡◌, refl, ap, sym, ◌∙◌, arith, true, false, add32,
}
use brownie_os.Acpi.{Acpi, rsdp_checksum, is_signature, take_rsdp, find_rsdp_from, find_rsdp}

-- A candidate without the signature is passed.
skip_one :
    (n sig ptr : ℕ) (a b : Acpi)
    → is_signature sig ptr a.memory ≡ false
    → find_rsdp_from n sig (add32 ptr 16) a ≡ b
    → find_rsdp_from (suc n) sig ptr a ≡ b
unfolding find_rsdp_from
skip_one n sig ptr a b miss rest = rw miss rest

-- The candidates before the one of index `k` are passed.
find_rsdp_from-first :
    (n k sig ptr : ℕ) (a : Acpi)
    → k < n
    → ptr + n * 16 < 4294967296
    → ((j : ℕ) → j < k → is_signature sig (ptr + j * 16) a.memory ≡ false)
    → is_signature sig (ptr + k * 16) a.memory ≡ true
    → rsdp_checksum (take_rsdp (ptr + k * 16) a) ≡ true
    → find_rsdp_from n sig ptr a ≡ take_rsdp (ptr + k * 16) a
unfolding find_rsdp_from
find_rsdp_from-first zero k sig ptr a small fits none_before here sums =
    absurd (omega (arith, small))
find_rsdp_from-first (suc n) zero sig ptr a small fits none_before here sums =
    let at : ptr + 0 * 16 ≡ ptr = omega arith in
    let here' = ap (λ p. is_signature sig p a.memory) (sym at) ∙ here in
    let sums' = ap (λ p. rsdp_checksum (take_rsdp p a)) (sym at) ∙ sums in
    rw (here', sums') (ap (λ p. take_rsdp p a) (sym at))
find_rsdp_from-first (suc n) (suc k) sig ptr a small fits none_before here sums =
    let next : add32 ptr 16 ≡ ptr + 16 = omega (arith, fits) in
    let shift : (j : ℕ) → ptr + suc j * 16 ≡ ptr + 16 + j * 16 = λ j. omega arith in
    let first : is_signature sig ptr a.memory ≡ false =
      ap (λ p. is_signature sig p a.memory) (omega arith) ∙ none_before 0 (omega arith) in
    let rest =
      find_rsdp_from-first n k sig (ptr + 16) a (omega (arith, small)) (omega (arith, fits))
        (λ j h.
          ap (λ p. is_signature sig p a.memory) (sym (shift j))
          ∙ none_before (suc j) (omega (arith, h)))
        (ap (λ p. is_signature sig p a.memory) (sym (shift k)) ∙ here)
        (ap (λ p. rsdp_checksum (take_rsdp p a)) (sym (shift k)) ∙ sums) in
    skip_one n sig ptr a (take_rsdp (ptr + suc k * 16) a) first
      (ap (λ p. find_rsdp_from n sig p a) next ∙ rest ∙ ap (λ p. take_rsdp p a) (sym (shift k)))

find_rsdp_from-none :
    (n sig ptr : ℕ) (a : Acpi)
    → ptr + n * 16 < 4294967296
    → ((j : ℕ) → j < n → is_signature sig (ptr + j * 16) a.memory ≡ false)
    → find_rsdp_from n sig ptr a ≡ a
unfolding find_rsdp_from
find_rsdp_from-none zero sig ptr a fits nowhere = refl
find_rsdp_from-none (suc n) sig ptr a fits nowhere =
    let next : add32 ptr 16 ≡ ptr + 16 = omega (arith, fits) in
    let first : is_signature sig ptr a.memory ≡ false =
      ap (λ p. is_signature sig p a.memory) (omega arith) ∙ nowhere 0 (omega arith) in
    let rest = find_rsdp_from-none n sig (ptr + 16) a (omega (arith, fits)) (λ j h.
      ap (λ p. is_signature sig p a.memory) (omega arith) ∙ nowhere (suc j) (omega (arith, h))) in
    skip_one n sig ptr a a first (ap (λ p. find_rsdp_from n sig p a) next ∙ rest)

-- No candidate before the one of index `k` has the signature, that one has it, and its checksum
-- holds once it is copied into the heap: find_rsdp stops there, with `rsdp_ptr` at the candidate
-- and `rsdp` at the copy.
pub find_rsdp-first :
    (k sig : ℕ) (a : Acpi)
    → k < 8192
    → ((j : ℕ) → j < k → is_signature sig (0xC00E0000 + j * 16) a.memory ≡ false)
    → is_signature sig (0xC00E0000 + k * 16) a.memory ≡ true
    → rsdp_checksum (take_rsdp (0xC00E0000 + k * 16) a) ≡ true
    → find_rsdp sig a ≡ take_rsdp (0xC00E0000 + k * 16) a
unfolding find_rsdp
find_rsdp-first k sig a small none_before here sums =
    find_rsdp_from-first 8192 k sig 0xC00E0000 a small (omega arith) none_before here sums

-- Where no candidate has the signature, nothing changes.
pub find_rsdp-none :
    (sig : ℕ) (a : Acpi)
    → ((j : ℕ) → j < 8192 → is_signature sig (0xC00E0000 + j * 16) a.memory ≡ false)
    → find_rsdp sig a ≡ a
unfolding find_rsdp
find_rsdp-none sig a nowhere = find_rsdp_from-none 8192 sig 0xC00E0000 a (omega arith) nowhere
