-- ===== src/Examples/Startup.antt =====
-- kmain on a machine with an empty bitmap.
use brownie_os.Base.{ℕ, suc, ◌+◌, ◌*◌, ◌/◌, ◌<◌, ◌≤◌, ◌≡◌, refl, arith, false, []}
use brownie_os.Pmm.{test_frame}
use brownie_os.Boot.{Ended}
use brownie_os.Boot.Regions.{claimed}
use brownie_os.Startup.{Symbols, Machine, kmain}
use brownie_os.Startup.Ready.{Ready, kmain-Ready}
use brownie_os.Examples.Frames.{empty, empty-IsBytes, empty_unused}
use brownie_os.Examples.Pages.{info_bytes, machine, two_regions, small_os}
use brownie_os.Examples.Traps.{reset}

abbrev symbols : Symbols
symbols = record {
  page_fault = 0xC0101000;
  syscall_dispatch = 0xC0102000;
  sys_print_string = 0xC0103000;
  stub = λ v. 0xC0104000;
  tss = 0xC0105000;
  initial_kstack = 0xC0106000;
  kernel_directory_aligned = 0xC0400000;
  kernel_page_tables = 0xC0300000;
}

abbrev cold : Machine
cold = record {
  cpu = reset;
  idt = λ v. record { base_low = 0; selector = 0; reserved = 0; flags = 0; base_high = 0 };
  out = [];
  kernel = machine;
  header_place = λ i. 0;
  footer_place = λ i. 0;
  os = small_os;
  apic_eoi = 0;
  syscall_table = λ n. 0;
}

high_frames :
    (j : ℕ)
    → 1024 ≤ j
    → j < 2048
    → (claimed info_bytes 2 0xC0009100 (j * 4096) ≡ false) × (test_frame empty (j * 4096) ≡ false)
unfolding claimed
high_frames j lo hi =
    let frame : j * 4096 / 4096 ≡ j = omega arith in
    (ground (arith, frame, lo, hi), empty_unused (j * 4096))

kmain-Ready_example :
    (t : Machine) × (kmain (229376 + suc 0) symbols 0x9000 0x2BADB002 info_bytes cold
      ≡ Ended.returned t)
    × Ready symbols cold t
kmain-Ready_example =
    kmain-Ready 0 2 1024 0x9000 symbols info_bytes cold (omega arith) (omega arith) (omega arith)
      (omega arith) (omega arith) refl (omega arith) (omega arith) (omega arith) two_regions
      empty-IsBytes (omega arith) (omega arith) high_frames (omega arith) (omega arith)
      (λ v. omega arith)
