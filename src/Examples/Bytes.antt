-- ===== src/Examples/Bytes.antt =====
-- Memory functions and temporary mappings on concrete inputs.
use brownie_os.Base.{ℕ, ◌%◌, ◌≤◌, ◌<◌, ◌≡◌, ◌≢◌, ◌⊎◌, arith, ltb, if◌then◌else◌}
use brownie_os.Libc.Memory.{Memory, memmove}
use brownie_os.Libc.Memory.Move.{Moved, memmove-Moved}
use brownie_os.Vmm.{Tables, kmap, kunmap}
use brownie_os.Vmm.Window.{entry_of, translate, kmap-kunmap}

-- The address itself in each cell below 200, and NUL from there on.
abbrev ramp : Memory
ramp = λ a. if ltb a 200 then a else 0

memmove-Moved_example : Moved 102 100 8 ramp (memmove 102 100 8 ramp)
memmove-Moved_example = memmove-Moved 102 100 8 ramp

-- A window whose first two tables are full.
abbrev window : Tables
window = λ i j. if ltb i 994 then 7 else 0

kmap-kunmap_example :
    ((0xF8000000 ≤ (kmap 0x40001234 window).0)
      × (entry_of window (kmap 0x40001234 window).0 ≡ 0)
      × (entry_of (kmap 0x40001234 window).1 (kmap 0x40001234 window).0 % 8 ≡ 3)
      × (translate (kmap 0x40001234 window).1 (kmap 0x40001234 window).0 ≡ 0x40001234)
      × ((p k : ℕ) → kunmap (kmap 0x40001234 window).0 (kmap 0x40001234 window).1 p k ≡ window p k))
    ⊎ ((kmap 0x40001234 window ≡ (0, window))
        × ((p k : ℕ) → 992 ≤ p → p < 1024 → k < 1024 → window p k ≢ 0))
kmap-kunmap_example = kmap-kunmap 0x40001234 window (omega arith) (omega arith)
