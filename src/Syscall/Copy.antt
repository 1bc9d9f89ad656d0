-- ===== src/Syscall/Copy.antt =====
-- copy_user_string: which bytes it reads and writes.
use native.Mathlib.Decide.{ℕ_discrete}
use brownie_os.Base.{
  ℕ, zero, suc, ◌+◌, ◌-◌, ◌≤◌, ◌<◌, ◌≡◌, ◌≢◌, refl, ◌∙◌, sym, ap, subst, arith, ◌⊎◌, inl, inr, Bool,
  true, false, leb, ◌==◌, ==→eq, ==→ne, ne→==, if◌then◌else◌, update, update_self, update_ne, add32,
  Bool-cases,
}
use brownie_os.Proc.{System}
use brownie_os.Syscall.{
  Paging, kern_start, user_addr_accessible, Memory, copy_loop, copy_user_string,
}

-- What is accessible to user mode lies below the kernel.
pub accessible_user :
    (paging : Paging) (s : System) (proc addr : ℕ)
    → user_addr_accessible paging s proc addr ≡ true
    → addr < kern_start
unfolding user_addr_accessible
accessible_user paging s proc addr h = ground arith

module _ (accessible : ℕ → Bool) (dest src : ℕ) where
  -- From `copied` on, `len` is where the copy ends, in the memory `m'` that comes of `m`.
  pub record CopiedFrom (copied rest : ℕ) (m m' : Memory) : Type 0 where
    pub len : ℕ
    pub from : copied ≤ len
    pub to : len ≤ copied + rest
    pub chars :
        (i : ℕ)
        → copied ≤ i
        → i < len
        → (accessible (add32 src i) ≡ true)
          × (m (add32 src i) ≢ 0)
          × (m' (dest + i) ≡ m (add32 src i))
    pub terminated : m' (dest + len) ≡ 0
    pub ending :
        (len ≡ copied + rest) ⊎ ((accessible (add32 src len) ≡ true) × (m (add32 src len) ≡ 0))

  -- The copy stops at an address that user mode cannot read.
  pub record FaultedFrom (copied rest : ℕ) (m : Memory) : Type 0 where
    pub stop : ℕ
    pub from : copied ≤ stop
    pub to : stop < copied + rest
    pub bad : accessible (add32 src stop) ≡ false
    pub chars :
        (i : ℕ) → copied ≤ i → i < stop → (accessible (add32 src i) ≡ true) × (m (add32 src i) ≢ 0)

  unfoldable pub Untouched : (copied rest : ℕ) (m m' : Memory) → Type 0
  Untouched copied rest m m' =
      (k : ℕ) → (k < dest + copied) ⊎ (dest + (copied + rest) < k) → m' k ≡ m k

  module _ (user_below : (addr : ℕ) → accessible addr ≡ true → addr < kern_start)
      (kernel_dest : kern_start ≤ dest) where
    -- Bytes that user mode can read stay as the string is written.
    source_kept :
        (m : Memory) (place c i : ℕ)
        → dest ≤ place
        → accessible (add32 src i) ≡ true
        → update m place c (add32 src i) ≡ m (add32 src i)
    source_kept m place c i h good =
        update_ne m place (add32 src i) c
          (λ e. absurd (omega (arith, kernel_dest, user_below (add32 src i) good)))

    one_more :
        (rest copied : ℕ) (m : Memory) {r : Bool × Memory}
        → dest + (copied + suc rest) < 4294967296
        → accessible (add32 src copied) ≡ true
        → m (add32 src copied) ≢ 0
        → let m₁ = update m (dest + copied) (m (add32 src copied)) in
          Untouched (copied + 1) rest m₁ r.1
            × (((r.0 ≡ true) × CopiedFrom (copied + 1) rest m₁ r.1)
                ⊎ ((r.0 ≡ false) × FaultedFrom (copied + 1) rest m₁))
          → Untouched copied (suc rest) m r.1
            × (((r.0 ≡ true) × CopiedFrom copied (suc rest) m r.1)
                ⊎ ((r.0 ≡ false) × FaultedFrom copied (suc rest) m))
    unfolding Untouched
    one_more rest copied m {r} fits good char (outside, result) =
        let c : ℕ = m (add32 src copied) in
        let kept : (i : ℕ)
            → accessible (add32 src i) ≡ true
            → update m (dest + copied) c (add32 src i) ≡ m (add32 src i) =
          λ i g. source_kept m (dest + copied) c i (omega arith) g in
        (
          λ k hk.
              outside k (elim hk [ inl a ↦ inl (omega arith) | inr a ↦ inr (omega arith) ])
              ∙ update_ne m (dest + copied) k c
                  (λ e. absurd (elim hk [ inl a ↦ omega arith | inr a ↦ omega arith ])),
          elim result [
            | inl (yes_copied, w) ↦ inl (
              yes_copied,
              record {
                len = w.len;
                from = omega (arith, w.from);
                to = omega (arith, w.to);
                chars = λ i a b. elim (ℕ_discrete i copied) [
                  | yes e ↦
                      subst
                        (λ j.
                          (accessible (add32 src j) ≡ true)
                          × (m (add32 src j) ≢ 0)
                          × (r.1 (dest + j) ≡ m (add32 src j)))
                        (sym e)
                        (
                          good,
                          char,
                          outside (dest + copied) (inl (omega arith))
                              ∙ update_self m (dest + copied) c,
                        )
                  | no ne ↦
                      let (g, z, v) = w.chars i (omega arith) b in
                      (g, (λ e. z (kept i g ∙ e)), v ∙ kept i g)
                ];
                terminated = w.terminated;
                ending = elim w.ending [
                  | inl full ↦ inl (omega arith)
                  | inr (g, z) ↦ inr (g, sym (kept w.len g) ∙ z)
                ];
              },
            )
            | inr (faulted, w) ↦ inr (
              faulted,
              record {
                stop = w.stop;
                from = omega (arith, w.from);
                to = omega (arith, w.to);
                bad = w.bad;
                chars = λ i a b. elim (ℕ_discrete i copied) [
                  | yes e ↦
                      subst (λ j. (accessible (add32 src j) ≡ true) × (m (add32 src j) ≢ 0)) (sym e)
                        (good, char)
                  | no ne ↦ let (g, z) = w.chars i (omega arith) b in (g, (λ e. z (kept i g ∙ e)))
                ];
              },
            )
          ],
        )

    copy_loop_lem :
        (rest copied : ℕ) (m : Memory)
        → dest + (copied + rest) < 4294967296
        → let r = copy_loop accessible dest src rest copied m in
          Untouched copied rest m r.1
          × (((r.0 ≡ true) × CopiedFrom copied rest m r.1)
              ⊎ ((r.0 ≡ false) × FaultedFrom copied rest m))
    unfolding copy_loop Untouched
    copy_loop_lem zero copied m fits =
        let here : add32 dest copied ≡ dest + copied = omega (arith, fits) in
        rw here (
          λ k hk.
              update_ne m (dest + copied) k 0
                (λ e. absurd (elim hk [ inl a ↦ omega arith | inr a ↦ omega arith ])),
          inl (
            refl,
            record {
              len = copied;
              from = omega arith;
              to = omega arith;
              chars = λ i a b. absurd (omega arith);
              terminated = update_self m (dest + copied) 0;
              ending = inl (omega arith);
            },
          ),
        )
    copy_loop_lem (suc rest) copied m fits =
        let here : add32 dest copied ≡ dest + copied = omega (arith, fits) in
        let addr : ℕ = add32 src copied in
        let m₁ : Memory = update m (dest + copied) (m addr) in
        rw here (elim (Bool-cases (accessible addr)) [
          | inr bad ↦ rw bad (
            λ k hk. refl,
            inr (
              refl,
              record {
                stop = copied;
                from = omega arith;
                to = omega arith;
                bad = bad;
                chars = λ i a b. absurd (omega arith);
              },
            ),
          )
          | inl good ↦ rw good (elim (Bool-cases (m addr == 0)) [
            | inl nul ↦ rw nul (
              λ k hk.
                  update_ne m (dest + copied) k (m addr)
                    (λ e. absurd (elim hk [ inl a ↦ omega arith | inr a ↦ omega arith ])),
              inl (
                refl,
                record {
                  len = copied;
                  from = omega arith;
                  to = omega arith;
                  chars = λ i a b. absurd (omega arith);
                  terminated = update_self m (dest + copied) (m addr) ∙ ==→eq (m addr) 0 nul;
                  ending = inr (good, ==→eq (m addr) 0 nul);
                },
              ),
            )
            | inr char ↦ rw char (
                one_more rest copied m fits good (==→ne (m addr) 0 char)
                  (copy_loop_lem rest (copied + 1) m₁ (omega (arith, fits))))
          ])
        ])

-- What a copy of at most `limit` characters to `dest` comes to: nothing outside those places and
-- the next is written, and the copy succeeds as `CopiedFrom` tells or fails as `FaultedFrom` does.
unfoldable pub Copies :
    (accessible : ℕ → Bool) (dest src limit : ℕ) → Memory → Bool × Memory → Type 0
Copies accessible dest src limit m r =
    Untouched accessible dest src 0 limit m r.1
    × (((r.0 ≡ true) × CopiedFrom accessible dest src 0 limit m r.1)
        ⊎ ((r.0 ≡ false) × FaultedFrom accessible dest src 0 limit m))

nothing-Copies :
    (accessible : ℕ → Bool) (dest src : ℕ) (m : Memory)
    → Copies accessible dest src 0 m (true, update m dest 0)
unfolding Copies Untouched
nothing-Copies accessible dest src m = (
  λ k hk.
      update_ne m dest k 0 (λ e. absurd (elim hk [ inl a ↦ omega arith | inr a ↦ omega arith ])),
  inl (
    refl,
    record {
      len = 0;
      from = omega arith;
      to = omega arith;
      chars = λ i a b. absurd (omega arith);
      terminated = ap (update m dest 0) (omega arith) ∙ update_self m dest 0;
      ending = inl (omega arith);
    },
  ),
)

-- How many characters `copy_user_string` copies at most.
abbrev pub limit_of : (dest_len user_len : ℕ) → ℕ
limit_of dest_len user_len = if leb dest_len user_len then dest_len - 1 else user_len

-- `copy_user_string` into a kernel buffer of `dest_len` characters, from a pointer that is not
-- NULL, for a process that is not NULL. Either it succeeds: every byte it has read is accessible to
-- user mode, the buffer holds the characters up to the user's NUL or the limit, and then a NUL. Or
-- it fails, and the first address before a NUL or the limit that is not accessible stopped it.
-- Nothing outside the buffer is written.
pub copy_user_string_lem :
    (paging : Paging) (s : System) (proc dest dest_len src user_len : ℕ) (m : Memory)
    → proc ≢ 0
    → src ≢ 0
    → 1 ≤ dest_len
    → kern_start ≤ dest
    → dest + dest_len ≤ 4294967296
    → (limit_of dest_len user_len < dest_len)
      × Copies
          (user_addr_accessible paging s proc)
          dest
          src
          (limit_of dest_len user_len)
          m
          (copy_user_string paging s proc dest dest_len src user_len m)
unfolding copy_user_string Untouched Copies
copy_user_string_lem paging s proc dest dest_len src user_len m process pointer some_room kernel
      fits =
    let accessible = user_addr_accessible paging s proc in
    let limit = limit_of dest_len user_len in
    let room : limit < dest_len = ground arith in
    let no_proc = ne→== proc 0 process in
    let no_src = ne→== src 0 pointer in
    let no_dest = ne→== dest 0 (λ e. absurd (omega arith)) in
    let no_len = ne→== dest_len 0 (λ e. absurd (omega arith)) in
    (
      room,
      rw (no_dest, no_len, no_src, no_proc)
          (elim (Bool-cases (limit == 0)) [
            | inl e ↦ rw e (
                subst (λ l. Copies accessible dest src l m (true, update m dest 0))
                  (sym (==→eq limit 0 e)) (nothing-Copies accessible dest src m))
            | inr ne ↦ rw ne (
                copy_loop_lem accessible dest src (accessible_user paging s proc) kernel limit 0 m
                  (omega (arith, room)))
          ]),
    )
