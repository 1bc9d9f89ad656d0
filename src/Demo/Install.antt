-- ===== src/Demo/Install.antt =====
-- install_pages: where the two pages of a demo process are in its address space.
use brownie_os.Base.{ℕ, ◌/◌, ◌≡◌, ◌≢◌, true}
use brownie_os.Boot.{Ended}
use brownie_os.Pmm.Scan.{NoRun}
use brownie_os.Paging.{Paging}
use brownie_os.Paging.Walk.{walk, Translates}
use brownie_os.Proc.Create.{Os, set_paging}
use brownie_os.Demo.{user_test_code_va, user_test_data_va, drop_pages}

-- The two pages are where the program expects them, for the user and writable, and the rest of the
-- address space is as it was; the temporary mappings are gone.
pub record Installed (p dir_at code_phys data_phys code_ptr data_ptr : ℕ) (o : Os)
    (r : Ended (Os × ℕ)) : Type 0 where
  pub paging : Paging
  pub result : r ≡ Ended.returned (drop_pages code_ptr data_ptr (set_paging paging o), p)
  pub code : Translates paging dir_at user_test_code_va code_phys true
  pub message : Translates paging dir_at user_test_data_va data_phys true
  pub others :
      (v : ℕ)
      → v / 4096 ≢ 0x400
      → v / 4096 ≢ 0x401
      → walk paging dir_at v ≡ walk o.pages.paging dir_at v

-- For want of a frame for a page table there is no process; the temporary mappings are gone.
pub record Refused (code_ptr data_ptr : ℕ) (o : Os) (r : Ended (Os × ℕ)) : Type 0 where
  pub paging : Paging
  pub result : r ≡ Ended.returned (drop_pages code_ptr data_ptr (set_paging paging o), 0)
  pub full : NoRun paging.framemap 0 229376 1

module _ (extra p code_phys data_phys code_ptr data_ptr : ℕ) (o : Os) where
  abbrev dir_at : ℕ
  dir_at = (o.system.procs p).page_directory
