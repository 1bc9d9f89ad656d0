-- ===== src/Paging/Clone/Shared.antt =====
-- clone_page_dir of a directory without pages of a process: the kernel's entries are shared.
use native.Mathlib.Decide.{ℕ_discrete, dec_lt}
use brownie_os.Base.{
  ℕ, zero, suc, Option, ◌+◌, ◌*◌, ◌<◌, ◌≤◌, ◌≡◌, ◌≢◌, ◌⊎◌, inl, inr, refl, ap, sym, ◌∙◌, arith,
  true, false, update, update_self, update_ne, leb, eq→==,
}
use brownie_os.Paging.{Directory, kern_start_tbl, frame_of, to_virt, dir_idx, tbl_idx}
use brownie_os.Paging.Walk.{entry, shown, walk}
use brownie_os.Boot.{Ended}
use brownie_os.Paging.Clone.{
  Cloning, and_then, set_entry, clone_entry, clone_entries, clone_page_dir,
}

-- No entry below 768 has a frame.
abbrev pub NoUserPages : Cloning → (src : ℕ) → Type 0
NoUserPages c src = (d : ℕ) → d < 768 → frame_of (entry c.paging src d) ≡ 0

-- Of the entries from `i` on, `n` of them, those of the kernel are in `dest` as in `src`; nothing
-- else has changed.
pub record Shared (c : Cloning) (src dest i n : ℕ) (t : Cloning) : Type 0 where
  pub copied :
      (d : ℕ)
      → 768 ≤ d
      → i ≤ d
      → d < i + n
      → (entry t.paging dest d ≡ entry c.paging src d)
        × ((t.paging.directories dest).tables d ≡ (c.paging.directories src).tables d)
  pub kept :
      (d : ℕ)
      → (d < 768) ⊎ ((d < i) ⊎ (i + n ≤ d))
      → (entry t.paging dest d ≡ entry c.paging dest d)
        × ((t.paging.directories dest).tables d ≡ (c.paging.directories dest).tables d)
  pub others : (a : ℕ) → a ≢ dest → t.paging.directories a ≡ c.paging.directories a
  pub pages : t.paging.page_tables ≡ c.paging.page_tables
  pub frames : t.paging.framemap ≡ c.paging.framemap
  pub windows : t.window ≡ c.window
  pub contents : t.ram ≡ c.ram

Shared-none : (c : Cloning) (src dest i : ℕ) → Shared c src dest i 0 c
Shared-none c src dest i = record {
  copied = λ d kernel lo hi. absurd (omega (arith, lo, hi));
  kept = λ d out. (refl, refl);
  others = λ a ne. refl;
  pages = refl;
  frames = refl;
  windows = refl;
  contents = refl;
}

-- A kernel entry and those behind it
Shared-kernel :
    (c t : Cloning) (src dest i n : ℕ)
    → src ≢ dest
    → 768 ≤ i
    → Shared
        (set_entry dest i (entry c.paging src i) ((c.paging.directories src).tables i) c)
        src
        dest
        (i + 1)
        n
        t
    → Shared c src dest i (suc n) t
Shared-kernel c t src dest i n apart kernel rest =
    let word = entry c.paging src i in
    let table = (c.paging.directories src).tables i in
    let old = c.paging.directories dest in
    let dir : Directory = record {
      page_dir_entries = update old.page_dir_entries i word;
      tables = update old.tables i table;
    } in
    let one = set_entry dest i word table c in
    let now : one.paging.directories dest ≡ dir = update_self c.paging.directories dest dir in
    let same_src : one.paging.directories src ≡ c.paging.directories src =
      update_ne c.paging.directories dest src dir apart in
    record {
      copied = λ d high lo hi. elim (ℕ_discrete d i) [
        | yes e ↦
            let past = rest.kept d (inr (inl (omega (arith, e)))) in
            (
              past.0
                  ∙ ap (λ (x : Directory). x.page_dir_entries d) now
                  ∙ ap (update old.page_dir_entries i word) e
                  ∙ update_self old.page_dir_entries i word
                  ∙ ap (entry c.paging src) (sym e),
              past.1
                  ∙ ap (λ (x : Directory). x.tables d) now
                  ∙ ap (update old.tables i table) e
                  ∙ update_self old.tables i table
                  ∙ ap (c.paging.directories src).tables (sym e),
            )
        | no ne ↦
            let later = rest.copied d high (omega (arith, lo, ne)) (omega (arith, hi)) in
            (
              later.0 ∙ ap (λ (x : Directory). x.page_dir_entries d) same_src,
              later.1 ∙ ap (λ (x : Directory). x.tables d) same_src,
            )
      ];
      kept = λ d out.
          let ne : d ≢ i = λ e. omega (arith, out, e, kernel) in
          let past = rest.kept d (elim out [
            | inl low ↦ inl low
            | inr (inl below) ↦ inr (inl (omega (arith, below)))
            | inr (inr above) ↦ inr (inr (omega (arith, above)))
          ]) in
          (
            past.0
                ∙ ap (λ (x : Directory). x.page_dir_entries d) now
                ∙ update_ne old.page_dir_entries i d word ne,
            past.1 ∙ ap (λ (x : Directory). x.tables d) now ∙ update_ne old.tables i d table ne,
          );
      others = λ a ne. rest.others a ne ∙ update_ne c.paging.directories dest a dir ne;
      pages = rest.pages;
      frames = rest.frames;
      windows = rest.windows;
      contents = rest.contents;
    }

-- An entry below the kernel's is passed.
Shared-user :
    (c t : Cloning) (src dest i n : ℕ)
    → i < 768
    → Shared c src dest (i + 1) n t
    → Shared c src dest i (suc n) t
Shared-user c t src dest i n low rest = record {
  copied = λ d high lo hi. rest.copied d high (omega (arith, high, lo, low)) (omega (arith, hi));
  kept = λ d out. rest.kept d (elim out [
    | inl user ↦ inl user
    | inr (inl below) ↦ inr (inl (omega (arith, below)))
    | inr (inr above) ↦ inr (inr (omega (arith, above)))
  ]);
  others = rest.others;
  pages = rest.pages;
  frames = rest.frames;
  windows = rest.windows;
  contents = rest.contents;
}

clone_entry-user :
    (fuel loaded src dest i : ℕ) (c : Cloning)
    → i < 768
    → frame_of (entry c.paging src i) ≡ 0
    → clone_entry fuel loaded src dest i c ≡ Ended.returned c
unfolding clone_entry
clone_entry-user fuel loaded src dest i c low empty =
    let user : leb kern_start_tbl i ≡ false = ground (arith, low) in
    rw (user, eq→== (frame_of (entry c.paging src i)) 0 empty) refl

clone_entry-kernel :
    (fuel loaded src dest i : ℕ) (c : Cloning)
    → 768 ≤ i
    → clone_entry fuel loaded src dest i c
      ≡ Ended.returned
          (set_entry dest i (entry c.paging src i) ((c.paging.directories src).tables i) c)
unfolding clone_entry
clone_entry-kernel fuel loaded src dest i c high =
    let kernel : leb kern_start_tbl i ≡ true = ground (arith, high) in rw kernel refl

clone_entries-Shared :
    (n i fuel loaded src dest : ℕ) (c : Cloning)
    → src ≢ dest
    → NoUserPages c src
    → (t : Cloning) × (clone_entries n i fuel loaded src dest c ≡ Ended.returned t)
      × Shared c src dest i n t
unfolding clone_entries
clone_entries-Shared zero i fuel loaded src dest c apart empty = (c, refl, Shared-none c src dest i)
clone_entries-Shared (suc n) i fuel loaded src dest c apart empty = elim (dec_lt i 768) [
  | yes low ↦
      let rest = clone_entries-Shared n (i + 1) fuel loaded src dest c apart empty in
      (
        rest.0,
        ap (λ (r : Ended Cloning). and_then r (λ t. clone_entries n (i + 1) fuel loaded src dest t))
              (clone_entry-user fuel loaded src dest i c low (empty i low))
            ∙ rest.1,
        Shared-user c rest.0 src dest i n low rest.2,
      )
  | no high ↦
      let one = set_entry dest i (entry c.paging src i) ((c.paging.directories src).tables i) c in
      let same : one.paging.directories src ≡ c.paging.directories src =
        update_ne c.paging.directories dest src _ apart in
      let rest =
        clone_entries-Shared n (i + 1) fuel loaded src dest one apart
          (λ d h. ap (λ (x : Directory). frame_of (x.page_dir_entries d)) same ∙ empty d h) in
      (
        rest.0,
        ap (λ (r : Ended Cloning). and_then r (λ t. clone_entries n (i + 1) fuel loaded src dest t))
              (clone_entry-kernel fuel loaded src dest i c (omega (arith, high)))
            ∙ rest.1,
        Shared-kernel c rest.0 src dest i n apart (omega (arith, high)) rest.2,
      )
]

-- For a directory without pages below 3 GiB and another one to clone it into, clone_page_dir returns
-- without an allocation. From 0xC0000000 on the clone translates every address as the source does,
-- so that the kernel is mapped in it; below, it translates as it did. The source, the tables, the
-- frames in use, their contents and the temporary mappings have not changed.
pub clone_page_dir-shares :
    (fuel loaded src dest : ℕ) (c : Cloning)
    → src ≢ dest
    → NoUserPages c src
    → (t : Cloning) × (clone_page_dir fuel loaded src dest c ≡ Ended.returned t)
      × ((v : ℕ) → 3221225472 ≤ v → v < 4294967296 → walk t.paging dest v ≡ walk c.paging src v)
      × ((v : ℕ) → v < 3221225472 → walk t.paging dest v ≡ walk c.paging dest v)
      × (t.paging.directories src ≡ c.paging.directories src)
      × (t.paging.page_tables ≡ c.paging.page_tables)
      × (t.paging.framemap ≡ c.paging.framemap)
      × (t.window ≡ c.window)
      × (t.ram ≡ c.ram)
unfolding clone_page_dir
clone_page_dir-shares fuel loaded src dest c apart empty =
    let done = clone_entries-Shared 1024 0 fuel loaded src dest c apart empty in
    let t = done.0 in
    let shared = done.2 in
    let view : (pt : ℕ → ℕ → ℕ) (e j : ℕ) → Option ℕ =
      λ pt e j. shown e (pt (to_virt (frame_of e * 4096)) j) in
    (
      t,
      done.1,
      λ v high top.
          ap (λ e. view t.paging.page_tables e (tbl_idx v))
            (shared.copied (dir_idx v) (omega (arith, high)) (omega arith) (omega (arith, top))).0
          ∙ ap (λ pt. view pt (entry c.paging src (dir_idx v)) (tbl_idx v)) shared.pages,
      λ v low.
          ap (λ e. view t.paging.page_tables e (tbl_idx v))
            (shared.kept (dir_idx v) (inl (omega (arith, low)))).0
          ∙ ap (λ pt. view pt (entry c.paging dest (dir_idx v)) (tbl_idx v)) shared.pages,
      shared.others src apart,
      shared.pages,
      shared.frames,
      shared.windows,
      shared.contents,
    )
