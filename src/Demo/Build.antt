-- ===== src/Demo/Build.antt =====
-- build_proc: the two frames of a demo process get temporary mappings, and are written through them.
use brownie_os.Base.{
  ℕ, ◌+◌, ◌/◌, ◌<◌, ◌≡◌, ◌≢◌, refl, arith, inl, inr, ◌==◌, some, ne→==, Bool-cases,
}
use brownie_os.Libc.Memory.{Memory}
use brownie_os.Libc.Printf.{strlen}
use brownie_os.Vmm.{Tables, kunmap, map_at}
use brownie_os.Vmm.Window.{kmap-slot}
use brownie_os.Boot.{Ended}
use brownie_os.Paging.Clone.{Cloning}
use brownie_os.Proc.Create.{Os}
use brownie_os.Demo.{make_proc, mapped_proc, set_window, build_proc}
use brownie_os.Demo.Stores.{with_ram}
use brownie_os.Demo.Pages.{Prepared, write_pages-Prepared}
use brownie_os.Demo.Mapped.{
  IsHighFrame, IsMapped, slot-IsMapped, IsMapped-later, IsMapped-MappedAt, kunmap_null, dropped,
  IsShort, full-IsShort, last-IsShort,
}

-- The state with the pages written, before create_proc: both mappings stand in the window, and the
-- frames hold the program and the message.
pub record Ready (code_phys data_phys msg len code_ptr data_ptr : ℕ) (mem : Memory) (o t : Os)
    : Type 0 where
  pub window : Tables
  pub code : IsMapped code_phys code_ptr window
  pub message : IsMapped data_phys data_ptr window
  pub prepared :
      Prepared
        (record (o.pages) { window = window })
        (code_phys / 4096)
        (data_phys / 4096)
        msg
        len
        mem
        (Ended.returned t.pages)
  pub rest : t ≡ record o { pages = t.pages }

-- build_proc goes on with the process, or, where the window has no two free entries, it returns NULL
-- with the entries of the window as before.
pub data Built (fuel loaded kernel_directory code_phys data_phys msg len : ℕ) (mem : Memory)
    (o : Os) (r : Ended (Os × ℕ)) : Type 0 where
  ready :
      (code_ptr data_ptr : ℕ) (t : Os)
      → Ready code_phys data_phys msg len code_ptr data_ptr mem o t
      → r ≡ make_proc fuel loaded kernel_directory code_phys data_phys code_ptr data_ptr t
      → Built fuel loaded kernel_directory code_phys data_phys msg len mem o r
  refused :
      (window : Tables)
      → r ≡ Ended.returned (set_window window o, 0)
      → ((p k : ℕ) → window p k ≡ o.pages.window p k)
      → IsShort o.pages.window
      → Built fuel loaded kernel_directory code_phys data_phys msg len mem o r

module _ (fuel loaded kernel_directory code_phys data_phys msg len : ℕ) (mem : Memory) where
  mapped_proc-Built :
      (code_ptr data_ptr : ℕ) (window : Tables) (o : Os)
      → code_phys / 4096 ≢ data_phys / 4096
      → strlen fuel (λ j. mem (msg + j)) 0 ≡ some len
      → len < 4096
      → IsMapped code_phys code_ptr window
      → IsMapped data_phys data_ptr window
      → Built fuel loaded kernel_directory code_phys data_phys msg len mem o (
          mapped_proc fuel loaded kernel_directory msg code_phys data_phys code_ptr data_ptr mem
            (set_window window o))
  unfolding mapped_proc
  mapped_proc-Built code_ptr data_ptr window o apart measure fits code data_page =
      let c : Cloning = record (o.pages) { window = window } in
      let pages =
        write_pages-Prepared loaded code_ptr data_ptr (code_phys / 4096) (data_phys / 4096) msg len
          mem c (IsMapped-MappedAt loaded code_phys code_ptr c code)
          (IsMapped-MappedAt loaded data_phys data_ptr c data_page) apart fits in
      let no_code = ne→== code_ptr 0 (λ e. absurd (omega (arith, e, code.low))) in
      let no_data = ne→== data_ptr 0 (λ e. absurd (omega (arith, e, data_page.low))) in
      let t : Os = record o { pages = with_ram c pages.ram } in
      Built.ready code_ptr data_ptr t
        (record {
          window = window;
          code = code;
          message = data_page;
          prepared = record {
            ram = pages.ram;
            result = refl;
            program = pages.program;
            nops = pages.nops;
            message = pages.message;
            zeros = pages.zeros;
            others = pages.others;
          };
          rest = refl;
        })
        (rw (no_code, no_data, measure, pages.result) refl)

  -- A NULL in place of the second address: the first mapping is dropped.
  mapped_proc-refused :
      (code_ptr : ℕ) (window : Tables) (o : Os)
      → ((p k : ℕ) → kunmap code_ptr window p k ≡ o.pages.window p k)
      → IsShort o.pages.window
      → Built fuel loaded kernel_directory code_phys data_phys msg len mem o (
          mapped_proc fuel loaded kernel_directory msg code_phys data_phys code_ptr 0 mem
            (set_window window o))
  unfolding mapped_proc kunmap
  mapped_proc-refused code_ptr window o same short = elim (Bool-cases (code_ptr == 0)) [
    | inl e ↦ rw e (Built.refused (kunmap code_ptr window) (rw e refl) same short)
    | inr e ↦ rw e (Built.refused (kunmap code_ptr window) (rw e refl) same short)
  ]

  -- For two different frames above the window onto low memory, and a message with a NUL after `len`
  -- characters, fewer than a page, that `strlen` finds on the fuel: build_proc goes on to create_proc
  -- with the program and the message in the two frames, no other frame changed, and both mappings
  -- standing; or the window has no two free entries, and it returns NULL with every entry as before.
  pub build_proc-Built :
      (o : Os)
      → IsHighFrame code_phys
      → IsHighFrame data_phys
      → code_phys ≢ data_phys
      → strlen fuel (λ j. mem (msg + j)) 0 ≡ some len
      → len < 4096
      → Built fuel loaded kernel_directory code_phys data_phys msg len mem o
          (build_proc fuel loaded kernel_directory msg code_phys data_phys mem o)
  unfolding build_proc
  build_proc-Built o code data_page apart measure fits =
      let tables = o.pages.window in
      let frames : code_phys / 4096 ≢ data_phys / 4096 =
        λ e. apart (omega (arith, e, code.aligned, data_page.aligned)) in
      elim (kmap-slot code_phys tables code.above) [
        | inr (none_code, used) ↦ elim (kmap-slot data_phys tables data_page.above) [
          | inl (p, k, lo, hi, page, e, free) ↦ absurd (used p k lo hi page free)
          | inr (none_data, used') ↦
              rw (none_code, none_data)
                (mapped_proc-refused 0 tables o (λ p k. kunmap_null tables p k)
                  (full-IsShort tables used))
        ]
        | inl (p, k, lo, hi, page, e, free) ↦
            let r = map_at code_phys tables (some (p, k)) in
            let mapped = slot-IsMapped code_phys p k tables code lo hi page free in
            elim (kmap-slot data_phys r.1 data_page.above) [
              | inr (none_data, used') ↦
                  rw (e, none_data)
                    (mapped_proc-refused r.0 r.1 o
                      (dropped code_phys tables p k r code lo hi page free e)
                      (last-IsShort code_phys p k tables used'))
              | inl (p', k', lo', hi', page', e', free') ↦
                  rw (e, e')
                    (mapped_proc-Built r.0 (map_at data_phys r.1 (some (p', k'))).0
                      (map_at data_phys r.1 (some (p', k'))).1 o frames measure fits
                      (IsMapped-later code_phys r.0 data_phys p' k' r.1 mapped free')
                      (slot-IsMapped data_phys p' k' r.1 data_page lo' hi' page' free'))
            ]
      ]
