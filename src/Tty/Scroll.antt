-- ===== src/Tty/Scroll.antt =====
-- What `terminal_scroll` and `terminal_initialize` leave in each cell.
use brownie_os.Base.{
  ℕ, zero, suc, ◌+◌, ◌-◌, ◌*◌, ◌≤◌, ◌<◌, ◌≡◌, refl, subst, sym, ap, ◌∙◌, arith, update_self,
  update_ne,
}
use native.Mathlib.Decide.{dec_lt, ℕ_discrete}
use brownie_os.Tty.{
  vga_entry, space, clear_cells, clear_rows, delete_cells, terminal_delete_last_line, scroll_cells,
  scroll_rows, terminal_scroll,
}

scroll_cells_lem :
    (n y : ℕ) (b : ℕ → ℕ) (k : ℕ)
    → n ≤ 80
    → 1 ≤ y
    → ((y * 80 ≤ k + 80 → k + 80 < y * 80 + n → scroll_cells n y b k ≡ b (k + 80))
        × (k + 80 < y * 80 → scroll_cells n y b k ≡ b k)
        × (y * 80 + n ≤ k + 80 → scroll_cells n y b k ≡ b k))
unfolding scroll_cells
scroll_cells_lem zero y b k hn hy = (λ a c. absurd (omega arith), λ a. refl, λ a. refl)
scroll_cells_lem (suc n) y b k hn hy =
    let before = scroll_cells_lem n y b k (omega arith) hy in
    let source = scroll_cells_lem n y b (y * 80 + n) (omega arith) hy in
    let rest = scroll_cells n y b in
    let index : ℕ = y * 80 + n - 80 in
    elim (ℕ_discrete k index) [
      | yes e ↦ (
        λ a c.
            subst (λ x. scroll_cells (suc n) y b x ≡ b (x + 80)) (sym e)
              (update_self rest index (rest (y * 80 + n))
                ∙ source.2 (omega arith)
                ∙ ap b (omega arith)),
        λ a. absurd (omega arith),
        λ a. absurd (omega arith),
      )
      | no ne ↦ (
        λ a c. update_ne rest index k (rest (y * 80 + n)) ne ∙ before.0 a (omega arith),
        λ a. update_ne rest index k (rest (y * 80 + n)) ne ∙ before.1 a,
        λ a. update_ne rest index k (rest (y * 80 + n)) ne ∙ before.2 (omega arith),
      )
    ]

scroll_rows_lem :
    (n : ℕ) (b : ℕ → ℕ) (k : ℕ)
    → (k < n * 80 → scroll_rows n b k ≡ b (k + 80)) × (n * 80 ≤ k → scroll_rows n b k ≡ b k)
unfolding scroll_rows
scroll_rows_lem zero b k = (λ a. absurd (omega arith), λ a. refl)
scroll_rows_lem (suc n) b k =
    let before = scroll_rows_lem n b k in
    let source = scroll_rows_lem n b (k + 80) in
    let row = scroll_cells_lem 80 (n + 1) (scroll_rows n b) k (omega arith) (omega arith) in
    (
      λ a. elim (dec_lt k (n * 80)) [
        | yes early ↦ row.1 (omega arith) ∙ before.0 early
        | no late ↦ row.0 (omega arith) (omega arith) ∙ source.1 (omega arith)
      ],
      λ a. row.2 (omega arith) ∙ before.1 (omega arith),
    )

delete_cells_lem :
    (n entry : ℕ) (b : ℕ → ℕ) (k : ℕ)
    → ((1920 ≤ k → k < 1920 + n → delete_cells n entry b k ≡ entry)
        × (k < 1920 → delete_cells n entry b k ≡ b k)
        × (1920 + n ≤ k → delete_cells n entry b k ≡ b k))
unfolding delete_cells
delete_cells_lem zero entry b k = (λ a c. absurd (omega arith), λ a. refl, λ a. refl)
delete_cells_lem (suc n) entry b k = ground (arith, delete_cells_lem n entry b k)

-- After `terminal_scroll` each row holds what the row below it held, the last row is blank, and
-- no cell out of the screen has changed.
pub terminal_scroll_lem :
    (color : ℕ) (b : ℕ → ℕ) (k : ℕ)
    → (k < 1920 → terminal_scroll color b k ≡ b (k + 80))
      × (1920 ≤ k → k < 2000 → terminal_scroll color b k ≡ vga_entry space color)
      × (2000 ≤ k → terminal_scroll color b k ≡ b k)
unfolding terminal_scroll terminal_delete_last_line
terminal_scroll_lem color b k =
    let moved = scroll_rows_lem 24 b k in
    let cleared = delete_cells_lem 80 (vga_entry space color) (scroll_rows 24 b) k in
    (λ a. cleared.1 a ∙ moved.0 a, λ a c. cleared.0 a c, λ a. cleared.2 a ∙ moved.1 (omega arith))

clear_cells_lem :
    (n y entry : ℕ) (b : ℕ → ℕ) (k : ℕ)
    → ((y * 80 ≤ k → k < y * 80 + n → clear_cells n y entry b k ≡ entry)
        × (k < y * 80 → clear_cells n y entry b k ≡ b k)
        × (y * 80 + n ≤ k → clear_cells n y entry b k ≡ b k))
unfolding clear_cells
clear_cells_lem zero y entry b k = (λ a c. absurd (omega arith), λ a. refl, λ a. refl)
clear_cells_lem (suc n) y entry b k = ground (arith, clear_cells_lem n y entry b k)

pub clear_rows_lem :
    (n entry : ℕ) (b : ℕ → ℕ) (k : ℕ)
    → (k < n * 80 → clear_rows n entry b k ≡ entry) × (n * 80 ≤ k → clear_rows n entry b k ≡ b k)
unfolding clear_rows
clear_rows_lem zero entry b k = (λ a. absurd (omega arith), λ a. refl)
clear_rows_lem (suc n) entry b k =
    let before = clear_rows_lem n entry b k in
    let row = clear_cells_lem 80 n entry (clear_rows n entry b) k in
    (
      λ a. elim (dec_lt k (n * 80)) [
        | yes early ↦ row.1 early ∙ before.0 early
        | no late ↦ row.0 (omega arith) (omega arith)
      ],
      λ a. row.2 (omega arith) ∙ before.1 (omega arith),
    )
