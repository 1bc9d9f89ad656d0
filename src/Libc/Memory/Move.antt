-- ===== src/Libc/Memory/Move.antt =====
-- memcpy, memmove and memset byte by byte.
use brownie_os.Base.{
  ℕ, zero, suc, ◌+◌, ◌%◌, ◌≤◌, ◌<◌, ◌≡◌, refl, ◌⊎◌, inl, inr, arith, Bool-cases, ltb, ltb→lt,
  ltb→le, update,
}
use brownie_os.Libc.Memory.{Memory, copy_up, copy_down, memcpy, memmove, fill_up, memset}

-- `m'` holds at `dst` the `size` bytes that `m` has at `src`, and else what `m` holds.
pub record Moved (dst src size : ℕ) (m m' : Memory) : Type 0 where
  pub inside : (j : ℕ) → j < size → m' (dst + j) ≡ m (src + j)
  pub before : (k : ℕ) → k < dst → m' k ≡ m k
  pub behind : (k : ℕ) → dst + size ≤ k → m' k ≡ m k

copy_up_lem :
    (n i dst src : ℕ) (m : Memory) (k : ℕ)
    → (dst ≤ src) ⊎ (src + (i + n) ≤ dst)
    → ((j : ℕ) → i ≤ j → j < i + n → k ≡ dst + j → copy_up n i dst src m k ≡ m (src + j))
      × (k < dst + i → copy_up n i dst src m k ≡ m k)
      × (dst + (i + n) ≤ k → copy_up n i dst src m k ≡ m k)
unfolding copy_up
copy_up_lem zero i dst src m k h = (λ j a b e. absurd (omega arith), λ a. refl, λ a. refl)
copy_up_lem (suc n) i dst src m k h =
    let m₁ : Memory = update m (dst + i) (m (src + i)) in
    let rest =
      copy_up_lem n (i + 1) dst src m₁ k (elim h [ inl a ↦ inl a | inr a ↦ inr (omega arith) ]) in
    (
      λ j a b e. ground (arith, rest.0 j, rest.1, h),
      λ a. ground (arith, rest.1),
      λ a. ground (arith, rest.2),
    )

copy_down_lem :
    (n dst src : ℕ) (m : Memory) (k : ℕ)
    → src ≤ dst
    → ((j : ℕ) → j < n → k ≡ dst + j → copy_down n dst src m k ≡ m (src + j))
      × (k < dst → copy_down n dst src m k ≡ m k)
      × (dst + n ≤ k → copy_down n dst src m k ≡ m k)
unfolding copy_down
copy_down_lem zero dst src m k h = (λ j a e. absurd (omega arith), λ a. refl, λ a. refl)
copy_down_lem (suc n) dst src m k h =
    let rest = copy_down_lem n dst src (update m (dst + n) (m (src + n))) k h in
    (
      λ j a e. ground (arith, rest.0 j, rest.2),
      λ a. ground (arith, rest.1),
      λ a. ground (arith, rest.2),
    )

-- `memmove` moves the bytes whether or not the two objects overlap.
pub memmove-Moved : (dst src size : ℕ) (m : Memory) → Moved dst src size m (memmove dst src size m)
unfolding memmove
memmove-Moved dst src size m = elim (Bool-cases (ltb dst src)) [
  | inl up ↦
      let low : dst ≤ src = omega (arith, ltb→lt dst src up) in
      let at = λ (k : ℕ). copy_up_lem size 0 dst src m k (inl low) in
      rw up (record {
        inside = λ j a. (at (dst + j)).0 j (omega arith) (omega arith) refl;
        before = λ k a. (at k).1 (omega arith);
        behind = λ k a. (at k).2 (omega arith);
      })
  | inr down ↦
      let at = λ (k : ℕ). copy_down_lem size dst src m k (ltb→le dst src down) in
      rw down (record {
        inside = λ j a. (at (dst + j)).0 j a refl;
        before = λ k a. (at k).1 a;
        behind = λ k a. (at k).2 a;
      })
]

-- `memcpy` copies the bytes where the source does not overlap the destination, or lies behind its
-- start.
pub memcpy-Moved :
    (dst src size : ℕ) (m : Memory)
    → (dst ≤ src) ⊎ (src + size ≤ dst)
    → Moved dst src size m (memcpy dst src size m)
unfolding memcpy
memcpy-Moved dst src size m h =
    let at = λ (k : ℕ).
      copy_up_lem size 0 dst src m k (elim h [ inl a ↦ inl a | inr a ↦ inr (omega arith) ]) in
    record {
      inside = λ j a. (at (dst + j)).0 j (omega arith) (omega arith) refl;
      before = λ k a. (at k).1 (omega arith);
      behind = λ k a. (at k).2 (omega arith);
    }

fill_up_lem :
    (n i buf value : ℕ) (m : Memory) (k : ℕ)
    → (buf + i ≤ k → k < buf + (i + n) → fill_up n i buf value m k ≡ value % 256)
      × (k < buf + i → fill_up n i buf value m k ≡ m k)
      × (buf + (i + n) ≤ k → fill_up n i buf value m k ≡ m k)
unfolding fill_up
fill_up_lem zero i buf value m k = (λ a b. absurd (omega arith), λ a. refl, λ a. refl)
fill_up_lem (suc n) i buf value m k =
    let rest = fill_up_lem n (i + 1) buf value (update m (buf + i) (value % 256)) k in
    (
      λ a b. ground (arith, rest.0, rest.1),
      λ a. ground (arith, rest.1),
      λ a. ground (arith, rest.2),
    )

-- `memset` writes the low byte of the value to each byte of the object and to no other.
pub memset_lem :
    (buf value size : ℕ) (m : Memory) (k : ℕ)
    → (buf ≤ k → k < buf + size → memset buf value size m k ≡ value % 256)
      × ((k < buf) ⊎ (buf + size ≤ k) → memset buf value size m k ≡ m k)
unfolding memset
memset_lem buf value size m k =
    let at = fill_up_lem size 0 buf value m k in
    (
      λ a b. at.0 (omega arith) (omega arith),
      λ h. elim h [ inl a ↦ at.1 (omega arith) | inr a ↦ at.2 (omega arith) ],
    )
