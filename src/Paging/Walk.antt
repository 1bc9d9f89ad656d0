-- ===== src/Paging/Walk.antt =====
-- What the processor finds for a virtual address in a page directory.
use native.Mathlib.Decide.{ℕ_discrete}
use brownie_os.Base.{
  ℕ, ◌*◌, ◌/◌, ◌%◌, ◌<◌, ◌≡◌, ◌≢◌, ◌⊎◌, inl, inr, refl, ap, ◌∙◌, arith, Bool, true, false, Option,
  none, some, if◌then◌else◌, update, Bool-cases,
}
use brownie_os.Pmm.{test_frame, page_frame}
use brownie_os.Pmm.Bitmap.{IsBytes}
use brownie_os.Vmm.{set_page}
use brownie_os.Paging.{Paging, present, frame_of, to_virt, dir_idx, tbl_idx, flag, put_page}

-- The directory's entry of index `d`, and the address at which the kernel sees its table
abbrev pub entry : Paging → (dir_at d : ℕ) → ℕ
entry s dir_at d = (s.directories dir_at).page_dir_entries d

abbrev pub table_of : Paging → (dir_at d : ℕ) → ℕ
table_of s dir_at d = to_virt (frame_of (entry s dir_at d) * 4096)

-- An entry and the word of a page in its table, if both are present
abbrev pub shown : (dir_entry word : ℕ) → Option ℕ
shown dir_entry word =
    if present dir_entry then (if present word then some word else none) else none

-- The word of the page that the address translates to
abbrev pub walk : Paging → (dir_at vaddr : ℕ) → Option ℕ
walk s dir_at vaddr =
    shown (entry s dir_at (dir_idx vaddr))
      (s.page_tables (table_of s dir_at (dir_idx vaddr)) (tbl_idx vaddr))

-- The frame 0 is in use, so that no table is at NULL; the tables of the entries that are present
-- are in frames below 896 MiB that are in use, no two in the same, and `tables` says where.
pub record IsDirectory (s : Paging) (dir_at : ℕ) : Type 0 where
  pub bytes : IsBytes s.framemap
  pub null_used : test_frame s.framemap 0 ≡ true
  pub low : (d : ℕ) → present (entry s dir_at d) ≡ true → frame_of (entry s dir_at d) < 229376
  pub linked :
      (d : ℕ)
      → present (entry s dir_at d) ≡ true
      → (s.directories dir_at).tables d ≡ table_of s dir_at d
  pub used :
      (d : ℕ)
      → present (entry s dir_at d) ≡ true
      → test_frame s.framemap (frame_of (entry s dir_at d) * 4096) ≡ true
  pub apart :
      (d e : ℕ)
      → present (entry s dir_at d) ≡ true
      → present (entry s dir_at e) ≡ true
      → frame_of (entry s dir_at d) ≡ frame_of (entry s dir_at e)
      → d ≡ e

-- The fields of a word that `set_page` writes as present
pub set_page-fields :
    (word frame rw_bit user : ℕ)
    → frame < 1048576
    → rw_bit < 2
    → user < 2
    → let w = set_page word frame 1 rw_bit user in
      (present w ≡ true) × (frame_of w ≡ frame) × (w / 2 % 2 ≡ rw_bit) × (w / 4 % 2 ≡ user)
unfolding set_page
set_page-fields word frame rw_bit user small one two =
    (ground arith, omega arith, omega arith, omega arith)

-- The address translates to the frame of `phys`, for the user, and for writing if `writable`.
pub record Translates (s : Paging) (dir_at vaddr phys : ℕ) (writable : Bool) : Type 0 where
  pub word : ℕ
  pub found : walk s dir_at vaddr ≡ some word
  pub target : frame_of word ≡ phys / 4096
  pub rw_bit : word / 2 % 2 ≡ flag writable
  pub user_bit : word / 4 % 2 ≡ 1
  pub user_entry : entry s dir_at (dir_idx vaddr) / 4 % 2 ≡ 1
  pub rw_entry : writable ≡ true → entry s dir_at (dir_idx vaddr) / 2 % 2 ≡ 1

-- Every entry that is open for the user, or for writing, still is.
abbrev pub Keeps : (s t : Paging) (dir_at : ℕ) → Type 0
Keeps s t dir_at =
    (d : ℕ)
    → (entry s dir_at d / 4 % 2 ≡ 1 → entry t dir_at d / 4 % 2 ≡ 1)
      × (entry s dir_at d / 2 % 2 ≡ 1 → entry t dir_at d / 2 % 2 ≡ 1)

-- A page is put into the table of the entry of its address: that address translates to it, all
-- other pages translate as before, and the directory is well-formed.
pub record Put (s : Paging) (dir_at vaddr phys : ℕ) (writable : Bool) (t : Paging) : Type 0 where
  pub well_formed : IsDirectory t dir_at
  pub mapped : Translates t dir_at vaddr phys writable
  pub keeps : Keeps s t dir_at
  pub others : (v : ℕ) → v / 4096 ≢ vaddr / 4096 → walk t dir_at v ≡ walk s dir_at v

flag-small : (b : Bool) → flag b < 2
flag-small true = omega arith
flag-small false = omega arith

module _ (f : ℕ → ℕ → ℕ) (t i word : ℕ) where
  put₂_self : update f t (update (f t) i word) t i ≡ word
  put₂_self = ground arith

  put₂_other : (a j : ℕ) → (a ≢ t) ⊎ (j ≢ i) → update f t (update (f t) i word) a j ≡ f a j
  put₂_other a j h = elim h [ inl ne ↦ ground (arith, ne) | inr ne ↦ ground (arith, ne) ]

pub to_virt-inj :
    (a b : ℕ) → a < 229376 → b < 229376 → to_virt (a * 4096) ≡ to_virt (b * 4096) → a ≡ b
to_virt-inj a b low high e = omega (arith, low, high, e)

shown-absent : (e v w : ℕ) → present e ≡ false → shown e v ≡ shown e w
shown-absent e v w none_there = rw none_there refl

module _ (s : Paging) (dir_at vaddr phys : ℕ) (writable : Bool) (wf : IsDirectory s dir_at) where
  pub put_page-Put :
      present (entry s dir_at (dir_idx vaddr)) ≡ true
      → phys < 4294967296
      → entry s dir_at (dir_idx vaddr) / 4 % 2 ≡ 1
      → (writable ≡ true → entry s dir_at (dir_idx vaddr) / 2 % 2 ≡ 1)
      → Put s dir_at vaddr phys writable
          (put_page (table_of s dir_at (dir_idx vaddr)) (tbl_idx vaddr) phys writable s)
  put_page-Put there small user right =
      let table = table_of s dir_at (dir_idx vaddr) in
      let before = s.page_tables table (tbl_idx vaddr) in
      let word = set_page before (page_frame phys) 1 (flag writable) 1 in
      let fields =
        set_page-fields before (page_frame phys) (flag writable) 1 (omega (arith, small))
          (flag-small writable) (omega arith) in
      record {
        well_formed = record {
          bytes = wf.bytes;
          null_used = wf.null_used;
          low = wf.low;
          linked = wf.linked;
          used = wf.used;
          apart = wf.apart;
        };
        mapped = record {
          word = word;
          found =
              ap (shown (entry s dir_at (dir_idx vaddr)))
                (put₂_self s.page_tables table (tbl_idx vaddr) word)
              ∙ rw (there, fields.0) refl;
          target = fields.1;
          rw_bit = fields.2;
          user_bit = fields.3;
          user_entry = user;
          rw_entry = right;
        };
        keeps = λ d. (λ e. e, λ e. e);
        others = λ v other. elim (Bool-cases (present (entry s dir_at (dir_idx v)))) [
          | inl shows ↦ ap (shown (entry s dir_at (dir_idx v))) (
              put₂_other s.page_tables table (tbl_idx vaddr) word (table_of s dir_at (dir_idx v))
                (tbl_idx v) (elsewhere v other shows))
          | inr hidden ↦ shown-absent (entry s dir_at (dir_idx v)) _ _ hidden
        ];
      }
    where
      elsewhere :
          (v : ℕ)
          → v / 4096 ≢ vaddr / 4096
          → present (entry s dir_at (dir_idx v)) ≡ true
          → (table_of s dir_at (dir_idx v) ≢ table_of s dir_at (dir_idx vaddr))
            ⊎ (tbl_idx v ≢ tbl_idx vaddr)
      elsewhere v other shows = elim (ℕ_discrete (tbl_idx v) (tbl_idx vaddr)) [
        | no ne ↦ inr ne
        | yes same ↦ inl (λ e.
            let one =
              to_virt-inj (frame_of (entry s dir_at (dir_idx v)))
                (frame_of (entry s dir_at (dir_idx vaddr))) (wf.low (dir_idx v) shows)
                (wf.low (dir_idx vaddr) there) e in
            let two = wf.apart (dir_idx v) (dir_idx vaddr) shows there one in
            other (omega (arith, two, same)))
      ]

-- A translation outlasts what leaves its page and the entries' rights.
pub Translates_later :
    (s t : Paging) (dir_at v phys : ℕ) (writable : Bool)
    → Translates s dir_at v phys writable
    → walk t dir_at v ≡ walk s dir_at v
    → Keeps s t dir_at
    → Translates t dir_at v phys writable
Translates_later s t dir_at v phys writable tr same keeps = record {
  word = tr.word;
  found = same ∙ tr.found;
  target = tr.target;
  rw_bit = tr.rw_bit;
  user_bit = tr.user_bit;
  user_entry = (keeps (dir_idx v)).0 tr.user_entry;
  rw_entry = λ y. (keeps (dir_idx v)).1 (tr.rw_entry y);
}
