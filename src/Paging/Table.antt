-- ===== src/Paging/Table.antt =====
-- proc_map_pages: an entry that is absent gets a new table.
use native.Mathlib.Decide.{ℕ_discrete}
use brownie_os.Base.{
  ℕ, ◌*◌, ◌/◌, ◌%◌, ◌<◌, ◌≡◌, ◌≢◌, inl, inr, refl, ap, sym, subst, ◌∙◌, arith, Bool, true, false,
  Option, none, update, update_self, update_ne, Bool-cases,
}
use brownie_os.Pmm.{Framemap, test_frame, page_frame}
use brownie_os.Pmm.Alloc.{Allocated}
use brownie_os.Vmm.{set_page}
use brownie_os.Paging.{Directory, Paging, present, frame_of, to_virt, dir_idx, tbl_idx, add_table}
use brownie_os.Paging.Walk.{entry, table_of, shown, walk, IsDirectory, set_page-fields, to_virt-inj}
use brownie_os.Paging.Open.{Opened}

shown_zero : (e : ℕ) → shown e 0 ≡ none
shown_zero e = elim (Bool-cases (present e)) [ inl y ↦ rw y refl | inr n ↦ rw n refl ]

shown-none : (e w : ℕ) → present e ≡ false → shown e w ≡ none
shown-none e w hidden = rw hidden refl

-- A new table at a frame that was free, and not the frame 0
module _ (s : Paging) (dir_at pd : ℕ) (writable : Bool) (wf : IsDirectory s dir_at) (first : ℕ)
    (m' : Framemap) (al : Allocated s.framemap 1 0 229376 first m')
    (absent : present (entry s dir_at pd) ≡ false) where
  abbrev view : Paging → (d j : ℕ) → Option ℕ
  view t d j = shown (entry t dir_at d) (t.page_tables (table_of t dir_at d) j)

  abbrev pub made : Paging
  made = add_table dir_at pd (first * 4096) (record s { framemap = m' })

  abbrev new_word : ℕ
  new_word = set_page (entry s dir_at pd) (page_frame (first * 4096)) 1 1 1

  made_dir : made.directories dir_at ≡ record {
    page_dir_entries = update (s.directories dir_at).page_dir_entries pd new_word;
    tables = update (s.directories dir_at).tables pd (to_virt (first * 4096));
  }
  made_dir = update_self s.directories dir_at (record {
    page_dir_entries = update (s.directories dir_at).page_dir_entries pd new_word;
    tables = update (s.directories dir_at).tables pd (to_virt (first * 4096));
  })

  pub made_self :
      (present (entry made dir_at pd) ≡ true)
      × (frame_of (entry made dir_at pd) ≡ first)
      × (entry made dir_at pd / 2 % 2 ≡ 1)
      × (entry made dir_at pd / 4 % 2 ≡ 1)
      × ((made.directories dir_at).tables pd ≡ to_virt (first * 4096))
  made_self =
      let small : page_frame (first * 4096) < 1048576 = omega (arith, al.below) in
      let fields =
        set_page-fields (entry s dir_at pd) (page_frame (first * 4096)) 1 1 small (omega arith)
          (omega arith) in
      let here : entry made dir_at pd ≡ new_word =
        ap (λ (x : Directory). x.page_dir_entries pd) made_dir
        ∙ update_self (s.directories dir_at).page_dir_entries pd new_word in
      let same : page_frame (first * 4096) ≡ first = omega arith in
      (
        ap present here ∙ fields.0,
        ap frame_of here ∙ fields.1 ∙ same,
        ap (λ w. w / 2 % 2) here ∙ fields.2,
        ap (λ w. w / 4 % 2) here ∙ fields.3,
        ap (λ (x : Directory). x.tables pd) made_dir
            ∙ update_self (s.directories dir_at).tables pd (to_virt (first * 4096)),
      )

  made_other :
      (d : ℕ)
      → d ≢ pd
      → (entry made dir_at d ≡ entry s dir_at d)
        × ((made.directories dir_at).tables d ≡ (s.directories dir_at).tables d)
  made_other d ne = (
    ap (λ (x : Directory). x.page_dir_entries d) made_dir
        ∙ update_ne (s.directories dir_at).page_dir_entries pd d new_word ne,
    ap (λ (x : Directory). x.tables d) made_dir
        ∙ update_ne (s.directories dir_at).tables pd d (to_virt (first * 4096)) ne,
  )

  -- A frame in use is another one than the new table's.
  pub used_apart : (k : ℕ) → test_frame s.framemap (k * 4096) ≡ true → k ≢ first
  used_apart k busy_k e =
      let free = al.was_free first (omega arith) (omega arith) in
      let both = sym busy_k ∙ ap (λ j. test_frame s.framemap (j * 4096)) e ∙ free in
      ground (arith, both)

  stays_used : (a : ℕ) → test_frame s.framemap a ≡ true → test_frame m' a ≡ true
  stays_used a busy_a = al.marked a ∙ ground (arith, busy_a)

  marked_new : test_frame m' (first * 4096) ≡ true
  marked_new = al.marked (first * 4096) ∙ ground arith

  was_present :
      (d : ℕ) → d ≢ pd → present (entry made dir_at d) ≡ true → present (entry s dir_at d) ≡ true
  was_present d ne p = sym (ap present (made_other d ne).0) ∙ p

  frame_apart :
      (d : ℕ)
      → d ≢ pd
      → present (entry made dir_at d) ≡ true
      → frame_of (entry made dir_at d) ≢ first
  frame_apart d ne p same =
      used_apart (frame_of (entry s dir_at d)) (wf.used d (was_present d ne p))
        (sym (ap frame_of (made_other d ne).0) ∙ same)

  add_table-IsDirectory : IsDirectory made dir_at
  add_table-IsDirectory = record {
    bytes = al.bytes;
    null_used = stays_used 0 wf.null_used;
    low = λ d p. elim (ℕ_discrete d pd) [
      | yes e ↦
          subst (λ x. frame_of (entry made dir_at x) < 229376) (sym e)
            (subst (λ k. k < 229376) (sym made_self.1) (omega (arith, al.below)))
      | no ne ↦
          subst (λ w. frame_of w < 229376) (sym (made_other d ne).0) (wf.low d (was_present d ne p))
    ];
    linked = λ d p. elim (ℕ_discrete d pd) [
      | yes e ↦
          subst (λ x. (made.directories dir_at).tables x ≡ table_of made dir_at x) (sym e)
            (made_self.4 ∙ ap (λ k. to_virt (k * 4096)) (sym made_self.1))
      | no ne ↦
          (made_other d ne).1
          ∙ wf.linked d (was_present d ne p)
          ∙ ap (λ w. to_virt (frame_of w * 4096)) (sym (made_other d ne).0)
    ];
    used = λ d p. elim (ℕ_discrete d pd) [
      | yes e ↦
          subst (λ x. test_frame m' (frame_of (entry made dir_at x) * 4096) ≡ true) (sym e)
            (ap (λ k. test_frame m' (k * 4096)) made_self.1 ∙ marked_new)
      | no ne ↦
          ap (λ w. test_frame m' (frame_of w * 4096)) (made_other d ne).0
          ∙ stays_used _ (wf.used d (was_present d ne p))
    ];
    apart = λ d e p q same. elim (ℕ_discrete d pd) [
      | yes here ↦ elim (ℕ_discrete e pd) [
        | yes there ↦ here ∙ sym there
        | no far ↦ absurd (
            frame_apart e far q
              (sym same ∙ ap (λ x. frame_of (entry made dir_at x)) here ∙ made_self.1))
      ]
      | no off ↦ elim (ℕ_discrete e pd) [
        | yes there ↦ absurd (
            frame_apart d off p
              (same ∙ ap (λ x. frame_of (entry made dir_at x)) there ∙ made_self.1))
        | no far ↦
            wf.apart d e (was_present d off p) (was_present e far q)
              (sym (ap frame_of (made_other d off).0) ∙ same ∙ ap frame_of (made_other e far).0)
      ]
    ];
  }

  view_new : (j : ℕ) → view made pd j ≡ view s pd j
  view_new j =
      ap (λ a. shown (entry made dir_at pd) (made.page_tables a j))
        (ap (λ k. to_virt (k * 4096)) made_self.1)
      ∙ ap (λ (f : ℕ → ℕ). shown (entry made dir_at pd) (f j))
          (update_self s.page_tables (to_virt (first * 4096)) (λ j. 0))
      ∙ shown_zero (entry made dir_at pd)
      ∙ sym (shown-none (entry s dir_at pd) _ absent)

  view_other : (d j : ℕ) → d ≢ pd → view made d j ≡ view s d j
  view_other d j ne =
      ap (λ w. shown w (made.page_tables (to_virt (frame_of w * 4096)) j)) (made_other d ne).0
      ∙ elim (Bool-cases (present (entry s dir_at d))) [
        | inr hidden ↦
            shown-none (entry s dir_at d) _ hidden ∙ sym (shown-none (entry s dir_at d) _ hidden)
        | inl shows ↦
            ap (λ (f : ℕ → ℕ). shown (entry s dir_at d) (f j))
              (update_ne s.page_tables (to_virt (first * 4096)) (table_of s dir_at d) (λ j. 0)
                (λ e. used_apart (frame_of (entry s dir_at d)) (wf.used d shows) (
                  to_virt-inj (frame_of (entry s dir_at d)) first (wf.low d shows)
                    (omega (arith, al.below)) e)))
      ]

  -- The pages of the new table are absent, as they were, and no other table changes.
  add_table-same : (v : ℕ) → walk made dir_at v ≡ walk s dir_at v
  add_table-same v = elim (ℕ_discrete (dir_idx v) pd) [
    | yes e ↦
        subst (λ d. view made d (tbl_idx v) ≡ view s d (tbl_idx v)) (sym e) (view_new (tbl_idx v))
    | no ne ↦ view_other (dir_idx v) (tbl_idx v) ne
  ]

  pub add_table-Opened : Opened s dir_at pd writable made
  add_table-Opened = record {
    well_formed = add_table-IsDirectory;
    there = made_self.0;
    user = made_self.3;
    right = λ y. made_self.2;
    keeps = λ d. elim (ℕ_discrete d pd) [
      | yes e ↦ (
        λ h. ap (λ x. entry made dir_at x / 4 % 2) e ∙ made_self.3,
        λ h. ap (λ x. entry made dir_at x / 2 % 2) e ∙ made_self.2,
      )
      | no ne ↦ (
        λ h. ap (λ w. w / 4 % 2) (made_other d ne).0 ∙ h,
        λ h. ap (λ w. w / 2 % 2) (made_other d ne).0 ∙ h,
      )
    ];
    same = add_table-same;
  }
