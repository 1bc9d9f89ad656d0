-- ===== src/Paging/Setup.antt =====
-- setup_kernel_directory: the kernel's window onto the low 896 MiB.
use native.Mathlib.Decide.{ℕ_discrete}
use brownie_os.Base.{
  ℕ, zero, suc, ◌+◌, ◌-◌, ◌*◌, ◌/◌, ◌%◌, ◌<◌, ◌≤◌, ◌≡◌, ◌≢◌, refl, ap, sym, subst, ◌∙◌, arith, true,
  some, update, update_self, update_ne, lt→ltb,
}
use brownie_os.Pmm.{page_frame}
use brownie_os.Vmm.{set_page}
use brownie_os.Paging.{
  Directory, Paging, present, frame_of, to_phys, to_virt, dir_idx, tbl_idx, kern_start_tbl,
  highmem_table, identity_pages, kernel_entries, setup_kernel_directory, copied_entries,
}
use brownie_os.Paging.Walk.{entry, table_of, shown, walk, set_page-fields}

-- The inner loop, below the entry 992: the pages passed get the frames of their addresses.
identity_pages_at :
    (n i : ℕ) (table : ℕ → ℕ)
    → i < highmem_table
    → ((j : ℕ)
        → j < n
        → identity_pages n i table j
          ≡ set_page (table j) ((i - kern_start_tbl) * 1024 + j) 1 1 (table j / 4 % 2))
      × ((j : ℕ) → n ≤ j → identity_pages n i table j ≡ table j)
unfolding identity_pages
identity_pages_at zero i table low = (λ j h. absurd (omega (arith, h)), λ j h. refl)
identity_pages_at (suc n) i table low =
    let rest = identity_pages_at n i table low in
    let same = rest.1 n (omega arith) in
    rw (lt→ltb i highmem_table low, same)
      (
        λ j h. elim (ℕ_discrete j n) [
          | yes e ↦ rw e (update_self (identity_pages n i table) n _)
          | no ne ↦ update_ne (identity_pages n i table) n j _ ne ∙ rest.0 j (omega (arith, h, ne))
        ],
        λ j h.
            update_ne (identity_pages n i table) n j _ (λ e. omega (arith, h, e))
            ∙ rest.1 j (omega (arith, h)),
      )

module _ (kd kpt : ℕ) (s : Paging) where
  abbrev entry_word : ℕ → ℕ
  entry_word i =
      let word = entry s kd (kern_start_tbl + i) in
      set_page word (page_frame (to_phys (kpt + i * 4096))) 1 1 (word / 4 % 2)

  -- The outer loop: the entries and the tables that are passed, and those that are not
  kernel_entries_at :
      (n : ℕ)
      → let t = kernel_entries n kd kpt s in
        ((i : ℕ)
          → i < n
          → (entry t kd (kern_start_tbl + i) ≡ entry_word i)
            × (t.page_tables (kpt + i * 4096)
                ≡ identity_pages 1024 (kern_start_tbl + i) (s.page_tables (kpt + i * 4096))))
        × ((i : ℕ)
            → n ≤ i
            → (entry t kd (kern_start_tbl + i) ≡ entry s kd (kern_start_tbl + i))
              × (t.page_tables (kpt + i * 4096) ≡ s.page_tables (kpt + i * 4096)))
  unfolding kernel_entries
  kernel_entries_at zero = (λ i h. absurd (omega (arith, h)), λ i h. (refl, refl))
  kernel_entries_at (suc n) =
      let t = kernel_entries n kd kpt s in
      let rest = kernel_entries_at n in
      let old = rest.1 n (omega arith) in
      let here = (t.directories kd).page_dir_entries in
      let word = here (kern_start_tbl + n) in
      let dir : Directory = record {
        page_dir_entries =
            update here (kern_start_tbl + n)
              (set_page word (page_frame (to_phys (kpt + n * 4096))) 1 1 (word / 4 % 2));
        tables = update (t.directories kd).tables (kern_start_tbl + n) (kpt + n * 4096);
      } in
      let t' = kernel_entries (suc n) kd kpt s in
      let now : t'.directories kd ≡ dir = update_self t.directories kd dir in
      let off : (i : ℕ)
          → i ≢ n
          → entry t' kd (kern_start_tbl + i) ≡ entry t kd (kern_start_tbl + i) =
        λ i ne.
          ap (λ (x : Directory). x.page_dir_entries (kern_start_tbl + i)) now
          ∙ update_ne here (kern_start_tbl + n) (kern_start_tbl + i) _
              (λ e. ne (omega (arith, e))) in
      let off_table : (i : ℕ)
          → i ≢ n
          → t'.page_tables (kpt + i * 4096) ≡ t.page_tables (kpt + i * 4096) =
        λ i ne.
          update_ne t.page_tables (kpt + n * 4096) (kpt + i * 4096) _
            (λ e. ne (omega (arith, e))) in
      (
        λ i h. elim (ℕ_discrete i n) [
          | yes e ↦
              subst
                (λ k.
                  (entry t' kd (kern_start_tbl + k) ≡ entry_word k)
                  × (t'.page_tables (kpt + k * 4096)
                      ≡ identity_pages 1024 (kern_start_tbl + k) (s.page_tables (kpt + k * 4096))))
                (sym e)
                (
                  ap (λ (x : Directory). x.page_dir_entries (kern_start_tbl + n)) now
                      ∙ update_self here (kern_start_tbl + n) _
                      ∙ ap (λ w. set_page w (page_frame (to_phys (kpt + n * 4096))) 1 1 (w / 4 % 2))
                          old.0,
                  update_self t.page_tables (kpt + n * 4096) _
                      ∙ ap (identity_pages 1024 (kern_start_tbl + n)) old.1,
                )
          | no ne ↦
              let was = rest.0 i (omega (arith, h, ne)) in
              (off i ne ∙ was.0, off_table i ne ∙ was.1)
        ],
        λ i h.
            let ne : i ≢ n = λ e. omega (arith, h, e) in
            let was = rest.1 i (omega (arith, h)) in (off i ne ∙ was.0, off_table i ne ∙ was.1),
      )

-- The kernel's page tables stand in an aligned array in the upper quarter of the address space.
-- After setup_kernel_directory every virtual address from 0xC0000000 on, for 896 MiB, translates
-- to its offset there, writable: what KP2V gives is where the kernel reads the physical address.
pub setup_kernel_directory-window :
    (kd kpt : ℕ) (s : Paging)
    → kpt % 4096 ≡ 0
    → 3221225472 ≤ kpt
    → kpt + 1048576 ≤ 4294967296
    → (p : ℕ) → p < 939524096
    → (word : ℕ) × (walk (setup_kernel_directory kd kpt s) kd (to_virt p) ≡ some word)
      × (frame_of word ≡ p / 4096)
      × (word / 2 % 2 ≡ 1)
      × (to_virt p % 4096 ≡ p % 4096)
unfolding setup_kernel_directory
setup_kernel_directory-window kd kpt s aligned upper top p low =
    let t = kernel_entries (1024 - kern_start_tbl) kd kpt s in
    let i = p / 4194304 in
    let j = p % 4194304 / 4096 in
    let at : dir_idx (to_virt p) ≡ kern_start_tbl + i = omega (arith, low) in
    let pos : tbl_idx (to_virt p) ≡ j = omega (arith, low) in
    let both = (kernel_entries_at kd kpt s (1024 - kern_start_tbl)).0 i (omega (arith, low)) in
    let word = entry s kd (kern_start_tbl + i) in
    let dir_word =
      set_page-fields word (page_frame (to_phys (kpt + i * 4096))) 1 (word / 4 % 2)
        (omega (arith, upper, top, low)) (omega arith) (omega arith) in
    let here : present (entry t kd (kern_start_tbl + i)) ≡ true = ap present both.0 ∙ dir_word.0 in
    let table : table_of t kd (kern_start_tbl + i) ≡ kpt + i * 4096 =
      ap (λ w. to_virt (frame_of w * 4096)) both.0
      ∙ ap (λ k. to_virt (k * 4096)) dir_word.1
      ∙ omega (arith, aligned, upper, top, low) in
    let old = s.page_tables (kpt + i * 4096) j in
    let cell : t.page_tables (table_of t kd (kern_start_tbl + i)) j
        ≡ set_page old ((kern_start_tbl + i - kern_start_tbl) * 1024 + j) 1 1 (old / 4 % 2) =
      ap (λ a. t.page_tables a j) table
      ∙ ap (λ (f : ℕ → ℕ). f j) both.1
      ∙ (identity_pages_at 1024 (kern_start_tbl + i) (s.page_tables (kpt + i * 4096))
            (omega (arith, low))).0
          j (omega arith) in
    let page =
      set_page-fields old ((kern_start_tbl + i - kern_start_tbl) * 1024 + j) 1 (old / 4 % 2)
        (omega (arith, low)) (omega arith) (omega arith) in
    (
      set_page old ((kern_start_tbl + i - kern_start_tbl) * 1024 + j) 1 1 (old / 4 % 2),
      ap (λ d. shown (entry t kd d) (t.page_tables (table_of t kd d) (tbl_idx (to_virt p)))) at
          ∙ ap
              (λ k.
                shown (entry t kd (kern_start_tbl + i))
                  (t.page_tables (table_of t kd (kern_start_tbl + i)) k))
              pos
          ∙ ap (shown (entry t kd (kern_start_tbl + i))) cell
          ∙ rw (here, page.0) refl,
      page.1 ∙ omega (arith, low),
      page.2,
      omega (arith, low),
    )

-- copy_page_table_entries: the 1024 entries of the copy are those of the source.
copied_entries_lem :
    (n : ℕ) (src dest : ℕ → ℕ) → ((j : ℕ) → j < n → copied_entries n src dest j ≡ src j)
unfolding copied_entries
copied_entries_lem zero src dest j h = absurd (omega (arith, h))
copied_entries_lem (suc n) src dest j h = elim (ℕ_discrete j n) [
  | yes e ↦ rw e (update_self (copied_entries n src dest) n (src n))
  | no ne ↦
      update_ne (copied_entries n src dest) n j (src n) ne
      ∙ copied_entries_lem n src dest j (omega (arith, h, ne))
]
