-- ===== src/Kmm/History.antt =====
-- Sequences of kmalloc and kfree: what holds of every heap that they lead to.
use brownie_os.Base.{ℕ, ◌≤◌, ◌<◌, ◌≢◌, inl, inr, subst, sym}
use brownie_os.Kmm.{Kmm, array_capacity, kmalloc, kfree}
use brownie_os.Kmm.State.{blocks, IsHeap}
use brownie_os.Kmm.Regions.{Live, IsServable, alloc-Serves, free-Releases}

-- One call by a client that frees no other region than a live one, and not the one at `keep`.
pub data Step (keep : ℕ) : Kmm → Kmm → Type 0 where
  allocate :
      (s : Kmm) (size : ℕ)
      → blocks s < array_capacity
      → 0 < size
      → size ≤ 4294967280
      → IsServable s size
      → Step keep s (kmalloc s size).0
  release : (s : Kmm) (p n : ℕ) → Live s p n → p ≢ keep → Step keep s (kfree s p)

pub data Reach (keep : ℕ) (s : Kmm) : Kmm → Type 0 where
  here : Reach keep s s
  next : {t u : Kmm} → Reach keep s t → Step keep t u → Reach keep s u

Step-IsHeap :
    {keep n : ℕ} {t u : Kmm} → Step keep t u → IsHeap t → Live t keep n → IsHeap u × Live u keep n
Step-IsHeap {keep} {n} (allocate s size entries positive small servable) v w =
    elim (alloc-Serves size v entries positive small servable) [
      | inl served ↦ (served.is_heap, served.kept keep n w)
      | inr (null, same, none_fits) ↦
          (subst IsHeap (sym same) v, subst (λ x. Live x keep n) (sym same) w)
    ]
Step-IsHeap {keep} {n} (release s p m live other) v w =
    let released = free-Releases v live in
    (released.is_heap, released.kept keep n (λ e. other (sym e)) w)

-- In a sequence of calls of kmalloc for sizes from 1 to 0xFFFFFFF0, each with room in the arrays and where the
-- split test mistakes no block that fits, and of kfree for live regions, a region of a well-formed
-- heap that none of them frees stays live, at its place and with its length, and the heap stays
-- well-formed: so no region handed out meanwhile overlaps it.
pub Reach-Live :
    {keep n : ℕ} {s t : Kmm} → IsHeap s → Live s keep n → Reach keep s t → IsHeap t × Live t keep n
Reach-Live v w here = (v, w)
Reach-Live v w (next r step) = let (v', w') = Reach-Live v w r in Step-IsHeap step v' w'
