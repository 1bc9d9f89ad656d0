-- ===== src/Paging/Range.antt =====
-- proc_map_pages on a range of pages.
use native.Mathlib.Decide.{ℕ_discrete}
use brownie_os.Base.{
  ℕ, zero, suc, ◌+◌, ◌*◌, ◌/◌, ◌<◌, ◌≤◌, ◌≡◌, ◌≢◌, refl, sym, subst, ◌∙◌, arith, Bool, true, false,
  Option, some, add32, mul32, ne→==,
}
use brownie_os.Pmm.Scan.{NoRun}
use brownie_os.Paging.{Paging, map_pages, proc_map_pages}
use brownie_os.Paging.Walk.{walk, IsDirectory, Translates, Translates_later, Put, Keeps}
use brownie_os.Paging.Map.{Round, map_page-Round}

-- From the page `i` on, `n` pages at `virt` translate to those at `phys`; the other pages of the
-- address space translate as before.
pub record MapsRange (s : Paging) (dir_at virt phys i n : ℕ) (writable : Bool) (t : Paging)
    : Type 0 where
  pub well_formed : IsDirectory t dir_at
  pub mapped :
      (k : ℕ) → i ≤ k → k < i + n → Translates t dir_at (virt + k * 4096) (phys + k * 4096) writable
  pub keeps : Keeps s t dir_at
  pub others :
      (v : ℕ)
      → ((k : ℕ) → i ≤ k → k < i + n → v / 4096 ≢ (virt + k * 4096) / 4096)
      → walk t dir_at v ≡ walk s dir_at v

-- What the loop returns: all pages are mapped, or it stopped after `k` pages for want of a frame.
pub data Looped (s : Paging) (dir_at virt phys i n : ℕ) (writable : Bool)
    (r : Option (Bool × Paging)) : Type 0 where
  all :
      (t : Paging)
      → r ≡ some (true, t)
      → MapsRange s dir_at virt phys i n writable t
      → Looped s dir_at virt phys i n writable r
  short :
      (t : Paging) (k : ℕ)
      → k < n
      → r ≡ some (false, t)
      → MapsRange s dir_at virt phys i k writable t
      → NoRun t.framemap 0 229376 1
      → Looped s dir_at virt phys i n writable r

module _ (dir_at virt phys : ℕ) (writable : Bool) where
  MapsRange-refl :
      (s : Paging) (i : ℕ) → IsDirectory s dir_at → MapsRange s dir_at virt phys i 0 writable s
  MapsRange-refl s i wf = record {
    well_formed = wf;
    mapped = λ k lo hi. absurd (omega (arith, lo, hi));
    keeps = λ d. (λ e. e, λ e. e);
    others = λ v out. refl;
  }

  -- A page, and the range behind it
  MapsRange-step :
      (s t u : Paging) (i n : ℕ)
      → Put s dir_at (virt + i * 4096) (phys + i * 4096) writable t
      → MapsRange t dir_at virt phys (i + 1) n writable u
      → MapsRange s dir_at virt phys i (suc n) writable u
  MapsRange-step s t u i n put rest = record {
    well_formed = rest.well_formed;
    mapped = λ k lo hi. elim (ℕ_discrete k i) [
      | yes e ↦
          let later =
            Translates_later t u dir_at (virt + i * 4096) (phys + i * 4096) writable put.mapped
              (rest.others (virt + i * 4096) (λ j low high e'. omega (arith, low, e')))
              rest.keeps in
          subst (λ j. Translates u dir_at (virt + j * 4096) (phys + j * 4096) writable) (sym e)
            later
      | no ne ↦ rest.mapped k (omega (arith, lo, ne)) (omega (arith, hi))
    ];
    keeps =
        λ d. (λ e. (rest.keeps d).0 ((put.keeps d).0 e), λ e. (rest.keeps d).1 ((put.keeps d).1 e));
    others = λ v out.
        rest.others v (λ k lo hi. out k (omega (arith, lo)) (omega (arith, hi)))
        ∙ put.others v (out i (omega arith) (omega arith));
  }

  -- One page and what the loop does from there on
  Looped-step :
      (s t : Paging) (i n : ℕ) (r : Option (Bool × Paging))
      → Put s dir_at (virt + i * 4096) (phys + i * 4096) writable t
      → Looped t dir_at virt phys (i + 1) n writable r
      → Looped s dir_at virt phys i (suc n) writable r
  Looped-step s t i n r put (Looped.all u e m) = Looped.all u e (MapsRange-step s t u i n put m)
  Looped-step s t i n r put (Looped.short u k few e m no_run) =
      Looped.short u (suc k) (omega (arith, few)) e (MapsRange-step s t u i k put m) no_run

  map_pages-Looped :
      (extra n i : ℕ) (s : Paging)
      → IsDirectory s dir_at
      → virt + (i + n) * 4096 ≤ 4294967296
      → phys + (i + n) * 4096 ≤ 4294967296
      → Looped s dir_at virt phys i n writable
          (map_pages n i (229376 + suc extra) dir_at virt phys writable s)
  unfolding map_pages
  map_pages-Looped extra zero i s wf top high = Looped.all s refl (MapsRange-refl s i wf)
  map_pages-Looped extra (suc n) i s wf top high =
      let va : add32 virt (mul32 i 4096) ≡ virt + i * 4096 = omega (arith, top) in
      let pa : add32 phys (mul32 i 4096) ≡ phys + i * 4096 = omega (arith, high) in
      let here =
        map_page-Round s dir_at (virt + i * 4096) (phys + i * 4096) writable (omega (arith, high))
          extra wf in
      rw (va, pa)
        (elim here [
          | Round.done t e put ↦ rw e (
              Looped-step s t i n
                (map_pages n (i + 1) (229376 + suc extra) dir_at virt phys writable t) put
                (map_pages-Looped extra n (i + 1) t put.well_formed (omega (arith, top))
                  (omega (arith, high))))
          | Round.full e absent no_run ↦
              rw e (Looped.short s 0 (omega arith) refl (MapsRange-refl s i wf) no_run)
        ])

-- proc_map_pages for a process with a well-formed directory, and a positive number of pages at
-- virtual and physical addresses that do not pass the end of the address space; 229377 rounds are
-- enough for each search for a frame. It returns 0 with all pages mapped; or it returns -1 with the
-- first `k` of them mapped, and then no frame below 896 MiB is free. A mapped page translates to
-- its physical page, for the user, and writable as asked for; all other pages translate as before.
pub proc_map_pages-Looped :
    (extra proc dir_at virt phys pages : ℕ) (writable : Bool) (s : Paging)
    → proc ≢ 0
    → dir_at ≢ 0
    → pages ≢ 0
    → IsDirectory s dir_at
    → virt + pages * 4096 ≤ 4294967296
    → phys + pages * 4096 ≤ 4294967296
    → Looped s dir_at virt phys 0 pages writable
        (proc_map_pages (229376 + suc extra) proc dir_at virt phys pages writable s)
unfolding proc_map_pages
proc_map_pages-Looped extra proc dir_at virt phys pages writable s some_proc some_dir some_pages wf
      top high =
    rw (ne→== proc 0 some_proc, ne→== dir_at 0 some_dir, ne→== pages 0 some_pages)
      (map_pages-Looped dir_at virt phys writable extra pages 0 s wf (omega (arith, top))
        (omega (arith, high)))
