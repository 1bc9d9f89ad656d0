-- ===== src/Paging/Open.antt =====
-- proc_map_pages: an entry that is present is opened for the user.
use native.Mathlib.Decide.{ℕ_discrete}
use brownie_os.Base.{
  ℕ, ◌+◌, ◌*◌, ◌/◌, ◌%◌, ◌<◌, ◌≡◌, inl, inr, refl, ap, sym, subst, ◌∙◌, arith, Bool, true, not,
  ◌==◌, if◌then◌else◌, update, update_self, update_ne, Bool-cases,
}
use brownie_os.Pmm.{test_frame}
use brownie_os.Pmm.Bitmap.{IsBytes}
use brownie_os.Paging.{Directory, Paging, present, frame_of, to_virt, dir_idx, tbl_idx, open_entry}
use brownie_os.Paging.Walk.{entry, table_of, shown, walk, Keeps, IsDirectory}

-- The entry `pd` is open for the user, and every page translates as before.
pub record Opened (s : Paging) (dir_at pd : ℕ) (writable : Bool) (t : Paging) : Type 0 where
  pub well_formed : IsDirectory t dir_at
  pub there : present (entry t dir_at pd) ≡ true
  pub user : entry t dir_at pd / 4 % 2 ≡ 1
  pub right : writable ≡ true → entry t dir_at pd / 2 % 2 ≡ 1
  pub keeps : Keeps s t dir_at
  pub same : (v : ℕ) → walk t dir_at v ≡ walk s dir_at v

opened_bits :
    (word rw_bit : ℕ)
    → rw_bit < 2
    → let w = word / 8 * 8 + 4 + rw_bit * 2 + word % 2 in
      (w % 2 ≡ word % 2) × (w / 4096 ≡ word / 4096) × (w / 2 % 2 ≡ rw_bit) × (w / 4 % 2 ≡ 1)
opened_bits word rw_bit small = (omega arith, omega arith, omega arith, omega arith)

update_keeps :
    {A : Type 0} (g : ℕ → A) (f : ℕ → ℕ) (i w : ℕ)
    → g w ≡ g (f i)
    → (d : ℕ) → g (update f i w d) ≡ g (f d)
update_keeps g f i w e d = elim (ℕ_discrete d i) [
  | yes here ↦ rw here (ap g (update_self f i w) ∙ e)
  | no past ↦ ap g (update_ne f i d w past)
]

shown-present : (e e' w : ℕ) → present e ≡ present e' → shown e w ≡ shown e' w
shown-present e e' w p = rw p refl

-- Two states whose directories agree in the presence and the frame of every entry
record Alike (s t : Paging) (dir_at : ℕ) : Type 0 where
  maps : t.framemap ≡ s.framemap
  stored : t.page_tables ≡ s.page_tables
  shows : (d : ℕ) → present (entry t dir_at d) ≡ present (entry s dir_at d)
  frames : (d : ℕ) → frame_of (entry t dir_at d) ≡ frame_of (entry s dir_at d)
  links : (d : ℕ) → (t.directories dir_at).tables d ≡ (s.directories dir_at).tables d

module _ (s t : Paging) (dir_at : ℕ) (al : Alike s t dir_at) where
  Alike-walk : (v : ℕ) → walk t dir_at v ≡ walk s dir_at v
  Alike-walk v =
      shown-present (entry t dir_at (dir_idx v)) (entry s dir_at (dir_idx v)) _
        (al.shows (dir_idx v))
      ∙ ap
          (λ pt.
            shown (entry s dir_at (dir_idx v)) (pt (table_of t dir_at (dir_idx v)) (tbl_idx v)))
          al.stored
      ∙ ap
          (λ k. shown (entry s dir_at (dir_idx v)) (s.page_tables (to_virt (k * 4096)) (tbl_idx v)))
          (al.frames (dir_idx v))

  Alike-IsDirectory : IsDirectory s dir_at → IsDirectory t dir_at
  Alike-IsDirectory wf =
      let back = λ (d : ℕ) (p : present (entry t dir_at d) ≡ true). sym (al.shows d) ∙ p in
      record {
        bytes = subst IsBytes (sym al.maps) wf.bytes;
        null_used = ap (λ m. test_frame m 0) al.maps ∙ wf.null_used;
        low = λ d p. subst (λ k. k < 229376) (sym (al.frames d)) (wf.low d (back d p));
        linked = λ d p.
            al.links d ∙ wf.linked d (back d p) ∙ ap (λ k. to_virt (k * 4096)) (sym (al.frames d));
        used = λ d p.
            ap (λ m. test_frame m (frame_of (entry t dir_at d) * 4096)) al.maps
            ∙ ap (λ k. test_frame s.framemap (k * 4096)) (al.frames d)
            ∙ wf.used d (back d p);
        apart = λ d e p q same.
            wf.apart d e (back d p) (back e q) (sym (al.frames d) ∙ same ∙ al.frames e);
      }

module _ (s : Paging) (dir_at pd : ℕ) (writable : Bool) (wf : IsDirectory s dir_at) where
  abbrev rights : ℕ
  rights = if writable then 1 else entry s dir_at pd / 2 % 2

  rights-small : rights < 2
  rights-small = elim (Bool-cases writable) [
    | inl y ↦ rw y (omega arith)
    | inr n ↦ rw n (omega arith)
  ]

  rights-right : writable ≡ true → rights ≡ 1
  rights-right y = rw y refl

  rights-keeps : entry s dir_at pd / 2 % 2 ≡ 1 → rights ≡ 1
  rights-keeps h = elim (Bool-cases writable) [ inl y ↦ rw y refl | inr n ↦ rw n h ]

  pub open_entry-Opened :
      present (entry s dir_at pd) ≡ true
      → Opened s dir_at pd writable (open_entry dir_at pd writable s)
  open_entry-Opened there =
      let word = entry s dir_at pd in
      let new = word / 8 * 8 + 4 + rights * 2 + word % 2 in
      let bits = opened_bits word rights rights-small in
      let dir : Directory = record (s.directories dir_at) {
        page_dir_entries = update (s.directories dir_at).page_dir_entries pd new;
      } in
      let t = open_entry dir_at pd writable s in
      let now : t.directories dir_at ≡ dir = update_self s.directories dir_at dir in
      let at : (d : ℕ)
          → entry t dir_at d ≡ update (s.directories dir_at).page_dir_entries pd new d =
        λ d. ap (λ (x : Directory). x.page_dir_entries d) now in
      let here : entry t dir_at pd ≡ new =
        at pd ∙ update_self (s.directories dir_at).page_dir_entries pd new in
      let al : Alike s t dir_at = record {
        maps = refl;
        stored = refl;
        shows = λ d.
            ap present (at d)
            ∙ update_keeps present (s.directories dir_at).page_dir_entries pd new
                (ap (λ k. not (k == 0)) bits.0) d;
        frames = λ d.
            ap frame_of (at d)
            ∙ update_keeps frame_of (s.directories dir_at).page_dir_entries pd new bits.1 d;
        links = λ d. ap (λ (x : Directory). x.tables d) now;
      } in
      record {
        well_formed = Alike-IsDirectory s t dir_at al wf;
        there = al.shows pd ∙ there;
        user = ap (λ w. w / 4 % 2) here ∙ bits.3;
        right = λ y. ap (λ w. w / 2 % 2) here ∙ bits.2 ∙ rights-right y;
        keeps = λ d. elim (ℕ_discrete d pd) [
          | yes e ↦ (
            λ h. ap (λ x. entry t dir_at x / 4 % 2) e ∙ ap (λ w. w / 4 % 2) here ∙ bits.3,
            λ h.
                ap (λ x. entry t dir_at x / 2 % 2) e
                ∙ ap (λ w. w / 2 % 2) here
                ∙ bits.2
                ∙ rights-keeps (ap (λ x. entry s dir_at x / 2 % 2) (sym e) ∙ h),
          )
          | no ne ↦
              let off = at d ∙ update_ne (s.directories dir_at).page_dir_entries pd d new ne in
              (λ h. ap (λ w. w / 4 % 2) off ∙ h, λ h. ap (λ w. w / 2 % 2) off ∙ h)
        ];
        same = Alike-walk s t dir_at al;
      }

pub open_entry-tables :
    (s : Paging) (dir_at pd : ℕ) (writable : Bool)
    → ((open_entry dir_at pd writable s).directories dir_at).tables pd
      ≡ (s.directories dir_at).tables pd
open_entry-tables s dir_at pd writable =
    ap (λ (x : Directory). x.tables pd) (update_self s.directories dir_at _)
