-- ===== src/Paging/Map.antt =====
-- A round of proc_map_pages: the entry of an address is opened or gets a table, then the page is put.
use brownie_os.Base.{
  ℕ, suc, ◌+◌, ◌*◌, ◌<◌, ◌≡◌, ◌≢◌, inl, inr, refl, sym, subst, ◌∙◌, arith, Bool, true, false,
  Option, some, ne→==, Bool-cases,
}
use brownie_os.Pmm.Scan.{NoRun}
use brownie_os.Pmm.Alloc.{alloc_pages-default}
use brownie_os.Paging.{Paging, present, to_virt, dir_idx, tbl_idx, put_page, open_entry, map_page}
use brownie_os.Paging.Walk.{entry, table_of, IsDirectory, Put, put_page-Put}
use brownie_os.Paging.Open.{Opened, open_entry-Opened, open_entry-tables}
use brownie_os.Paging.Table.{made, made_self, used_apart, add_table-Opened}

-- How a round of proc_map_pages ends: the page is mapped; or there is no free frame for a table,
-- and nothing has changed.
pub data Round (s : Paging) (dir_at vaddr phys : ℕ) (writable : Bool) (r : Option (Bool × Paging))
    : Type 0 where
  done :
      (t : Paging)
      → r ≡ some (true, t)
      → Put s dir_at vaddr phys writable t
      → Round s dir_at vaddr phys writable r
  full :
      r ≡ some (false, s)
      → present (entry s dir_at (dir_idx vaddr)) ≡ false
      → NoRun s.framemap 0 229376 1
      → Round s dir_at vaddr phys writable r

module _ (s : Paging) (dir_at vaddr phys : ℕ) (writable : Bool) (small : phys < 4294967296) where
  -- The page is put into the state in which the entry is open.
  finish_page :
      (t : Paging)
      → Opened s dir_at (dir_idx vaddr) writable t
      → Put s dir_at vaddr phys writable
          (put_page (table_of t dir_at (dir_idx vaddr)) (tbl_idx vaddr) phys writable t)
  finish_page t o =
      let p =
        put_page-Put t dir_at vaddr phys writable o.well_formed o.there small o.user o.right in
      record {
        well_formed = p.well_formed;
        mapped = p.mapped;
        keeps = λ d. (λ e. (p.keeps d).0 ((o.keeps d).0 e), λ e. (p.keeps d).1 ((o.keeps d).1 e));
        others = λ v other. p.others v other ∙ o.same v;
      }

  not_null :
      present (entry s dir_at (dir_idx vaddr)) ≡ true
      → IsDirectory s dir_at
      → (s.directories dir_at).tables (dir_idx vaddr) ≢ 0
  not_null there wf e =
      let low = wf.low (dir_idx vaddr) there in
      let linked = wf.linked (dir_idx vaddr) there in omega (arith, low, linked, e)

  pub map_page-Round :
      (extra : ℕ)
      → IsDirectory s dir_at
      → Round s dir_at vaddr phys writable
          (map_page (229376 + suc extra) dir_at vaddr phys writable s)
  unfolding map_page
  map_page-Round extra wf = elim (Bool-cases (present (entry s dir_at (dir_idx vaddr)))) [
    | inl there ↦
        let t = open_entry dir_at (dir_idx vaddr) writable s in
        let o = open_entry-Opened s dir_at (dir_idx vaddr) writable wf there in
        let kept = open_entry-tables s dir_at (dir_idx vaddr) writable in
        let table = sym kept ∙ o.well_formed.linked (dir_idx vaddr) o.there in
        Round.done
          (put_page ((s.directories dir_at).tables (dir_idx vaddr)) (tbl_idx vaddr) phys writable t)
          (rw (there, ne→== ((s.directories dir_at).tables (dir_idx vaddr)) 0 (not_null there wf))
            refl)
          (subst
            (λ a. Put s dir_at vaddr phys writable (put_page a (tbl_idx vaddr) phys writable t))
            (sym table) (finish_page t o))
    | inr absent ↦
        elim (alloc_pages-default extra 1 s.framemap wf.bytes (omega arith) (omega arith)) [
          | inl (first, m', got, al) ↦
              let t = made s dir_at (dir_idx vaddr) writable wf first m' al absent in
              let o = add_table-Opened s dir_at (dir_idx vaddr) writable wf first m' al absent in
              let self = made_self s dir_at (dir_idx vaddr) writable wf first m' al absent in
              let first_pos =
                used_apart s dir_at (dir_idx vaddr) writable wf first m' al absent 0 wf.null_used in
              Round.done (put_page (to_virt (first * 4096)) (tbl_idx vaddr) phys writable t)
                (rw (absent, got, ne→== (first * 4096) 0 (λ e. first_pos (omega (arith, e)))) refl)
                (subst
                  (λ k.
                    Put s dir_at vaddr phys writable
                      (put_page (to_virt (k * 4096)) (tbl_idx vaddr) phys writable t))
                  self.1 (finish_page t o))
          | inr (got, no_run) ↦ Round.full (rw (absent, got) refl) absent no_run
        ]
  ]
