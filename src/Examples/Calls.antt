-- ===== src/Examples/Calls.antt =====
-- System calls on concrete inputs.
use brownie_os.Base.{◌<◌, true, arith}
use brownie_os.Syscall.{Paging, user_addr_accessible, copy_user_string}
use brownie_os.Syscall.Copy.{Copies, limit_of, copy_user_string_lem}
use brownie_os.Examples.Processes.{two}

-- Everything below 3 GiB is mapped for user mode.
abbrev pub mapped : Paging
mapped = record {
  directories = λ d. record {
    page_dir_entries = λ i. record { present = true; user = true };
    tables = λ i. 0xC0700000;
  };
  pages = λ t i. record { present = true; user = true };
}

copy_user_string_lem_example :
    (limit_of 256 3 < 256)
    × Copies
        (user_addr_accessible mapped two 100)
        0xC0800000
        0x8000
        (limit_of 256 3)
        (λ a. 65)
        (copy_user_string mapped two 100 0xC0800000 256 0x8000 3 (λ a. 65))
copy_user_string_lem_example =
    copy_user_string_lem mapped two 100 0xC0800000 256 0x8000 3 (λ a. 65) (omega arith)
      (omega arith) (omega arith) (omega arith) (omega arith)
