-- ===== src/Tty/Tape.antt =====
-- The terminal against an unbounded tape of rows: a printer that never scrolls. The screen is the
-- window of 25 rows that ends `row` of the terminal below the row being printed.
use brownie_os.Base.{
  inl, inr, ℕ, ◌+◌, ◌*◌, ◌≤◌, ◌<◌, ◌≡◌, refl, ◌∙◌, sym, ap, subst, arith, List, [], ◌∷◌, update,
  update_self, update_ne, if◌then◌else◌, ◌==◌, Bool-cases, ==→eq, ==→ne,
}
use native.Mathlib.Decide.{dec_lt, ℕ_discrete}
use brownie_os.Tty.{
  vga_entry_color, Terminal, vga_entry, space, newline, terminal_initialize, terminal_putentryat,
  next_row, terminal_putchar, terminal_write,
}
use brownie_os.Tty.Scroll.{terminal_scroll_lem, clear_rows_lem}

-- The tape's cells, numbered through all rows, and where the next character goes.
pub record Tape : Type 0 where
  pub cell : ℕ → ℕ
  pub row : ℕ
  pub column : ℕ

-- Printing one character on the tape, in the colour `color`.
unfoldable pub print : (color : ℕ) → Tape → (c : ℕ) → Tape
print color p c =
    if c == newline
    then record p { row = p.row + 1; column = 0 }
    else let written = update p.cell (p.row * 80 + p.column) (vga_entry c color) in
      if p.column + 1 == 80
      then record { cell = written; row = p.row + 1; column = 0 }
      else record { cell = written; row = p.row; column = p.column + 1 }

unfoldable pub print_all : (color : ℕ) → Tape → List ℕ → Tape
print_all color p [] = p
print_all color p (c ∷ text) = print_all color (print color p c) text

-- The terminal `t` shows the tape `p`, whose row `top` is the first on the screen.
pub record Shows (color : ℕ) (t : Terminal) (p : Tape) : Type 0 where
  pub top : ℕ
  pub same_color : t.color ≡ color
  pub row_bound : t.row < 25
  pub column_bound : t.column < 80
  pub row : p.row ≡ top + t.row
  pub column : p.column ≡ t.column
  pub window : (k : ℕ) → k < 2000 → t.buffer k ≡ p.cell (top * 80 + k)
  pub blank : (j : ℕ) → top * 80 + 2000 ≤ j → p.cell j ≡ vga_entry space color

next_row-Shows :
    (color : ℕ) (t : Terminal) (p : Tape)
    → Shows color t p
    → Shows color (next_row t) (record p { row = p.row + 1 })
unfolding next_row
next_row-Shows color t p s = elim (Bool-cases (t.row + 1 == 25)) [
  | inl bottom ↦
      let last : t.row + 1 ≡ 25 = ==→eq (t.row + 1) 25 bottom in
      rw bottom (record {
        top = s.top + 1;
        same_color = s.same_color;
        row_bound = omega arith;
        column_bound = s.column_bound;
        row = omega (arith, s.row, last);
        column = s.column;
        window = λ k hk. elim (dec_lt k 1920) [
          | yes upper ↦
              (terminal_scroll_lem t.color t.buffer k).0 upper
              ∙ s.window (k + 80) (omega arith)
              ∙ ap p.cell (omega arith)
          | no lower ↦
              (terminal_scroll_lem t.color t.buffer k).1 (omega arith) hk
              ∙ ap (vga_entry space) s.same_color
              ∙ sym (s.blank ((s.top + 1) * 80 + k) (omega arith))
        ];
        blank = λ j hj. s.blank j (omega arith);
      })
  | inr above ↦ rw above (record {
    top = s.top;
    same_color = s.same_color;
    row_bound = omega (arith, s.row_bound, ==→ne (t.row + 1) 25 above);
    column_bound = s.column_bound;
    row = omega (arith, s.row);
    column = s.column;
    window = s.window;
    blank = s.blank;
  })
]

-- One character that is not the newline, before the test for the end of the row.
putentry-Shows :
    (color : ℕ) (t : Terminal) (p : Tape) (c next : ℕ)
    → next < 80
    → Shows color t p
    → Shows color
        (record t { buffer = terminal_putentryat c t.color t.column t.row t.buffer; column = next })
        (record p {
          cell = update p.cell (p.row * 80 + t.column) (vga_entry c color);
          column = next;
        })
unfolding terminal_putentryat
putentry-Shows color t p c next hnext s =
    let here : ℕ = t.row * 80 + t.column in
    let there : ℕ = p.row * 80 + t.column in
    let place : there ≡ s.top * 80 + here = omega (arith, s.row, s.column) in
    let inside : here < 2000 = omega (arith, s.row_bound, s.column_bound) in
    record {
      top = s.top;
      same_color = s.same_color;
      row_bound = s.row_bound;
      column_bound = hnext;
      row = s.row;
      column = refl;
      window = λ k hk. elim (ℕ_discrete k here) [
        | yes e ↦
            subst
              (λ x.
                update t.buffer here (vga_entry c t.color) x
                ≡ update p.cell there (vga_entry c color) (s.top * 80 + x))
              (sym e)
              (subst
                (λ x.
                  update t.buffer here (vga_entry c t.color) here
                  ≡ update p.cell there (vga_entry c color) x)
                place
                (update_self t.buffer here (vga_entry c t.color)
                  ∙ ap (vga_entry c) s.same_color
                  ∙ sym (update_self p.cell there (vga_entry c color))))
        | no ne ↦
            update_ne t.buffer here k (vga_entry c t.color) ne
            ∙ s.window k hk
            ∙ sym (
                update_ne p.cell there (s.top * 80 + k) (vga_entry c color) (λ e. ne (omega arith)))
      ];
      blank = λ j hj.
          update_ne p.cell there j (vga_entry c color) (λ e. absurd (omega arith)) ∙ s.blank j hj;
    }

set_column-Shows :
    (color : ℕ) (t : Terminal) (p : Tape)
    → Shows color t p
    → Shows color (record t { column = 0 }) (record p { column = 0 })
set_column-Shows color t p s = record {
  top = s.top;
  same_color = s.same_color;
  row_bound = s.row_bound;
  column_bound = omega arith;
  row = s.row;
  column = refl;
  window = s.window;
  blank = s.blank;
}

-- A terminal that shows a tape shows, after `terminal_putchar`, the tape with the character
-- printed on it; the cursor stays on the screen.
pub terminal_putchar-Shows :
    (color : ℕ) (t : Terminal) (p : Tape) (c : ℕ)
    → Shows color t p
    → Shows color (terminal_putchar t c) (print color p c)
unfolding terminal_putchar print
terminal_putchar-Shows color t p c s = elim (Bool-cases (c == newline)) [
  | inl e ↦ rw e (
      set_column-Shows color (next_row t) (record p { row = p.row + 1 })
        (next_row-Shows color t p s))
  | inr ne ↦
      rw (ne, s.column)
        (elim (Bool-cases (t.column + 1 == 80)) [
          | inl last ↦ rw last (
              next_row-Shows color
                (record t {
                  buffer = terminal_putentryat c t.color t.column t.row t.buffer;
                  column = 0;
                })
                (record p {
                  cell = update p.cell (p.row * 80 + t.column) (vga_entry c color);
                  column = 0;
                })
                (putentry-Shows color t p c 0 (omega arith) s))
          | inr more ↦ rw more (
              putentry-Shows color t p c (t.column + 1)
                (omega (arith, s.column_bound, ==→ne (t.column + 1) 80 more)) s)
        ])
]

-- A terminal that shows a tape shows, after `terminal_write`, the tape with the text printed on it.
pub terminal_write-Shows :
    (color : ℕ) (t : Terminal) (p : Tape) (text : List ℕ)
    → Shows color t p
    → Shows color (terminal_write t text) (print_all color p text)
unfolding terminal_write print_all
terminal_write-Shows color t p [] s = s
terminal_write-Shows color t p (c ∷ text) s =
    terminal_write-Shows color (terminal_putchar t c) (print color p c) text
      (terminal_putchar-Shows color t p c s)

-- `terminal_initialize` gives a terminal that shows the blank tape in light green on black.
pub terminal_initialize-Shows :
    (t : Terminal)
    → Shows 10
        (terminal_initialize t)
        (record { cell = λ _. vga_entry space 10; row = 0; column = 0 })
unfolding terminal_initialize vga_entry_color
terminal_initialize-Shows t = record {
  top = 0;
  same_color = refl;
  row_bound = omega arith;
  column_bound = omega arith;
  row = refl;
  column = refl;
  window = λ k hk. (clear_rows_lem 25 (vga_entry space 10) t.buffer k).0 hk;
  blank = λ j hj. refl;
}

-- No write leaves the screen: what `terminal_buffer` points to beyond its 2000 cells stays.
module _ (k : ℕ) (outside : 2000 ≤ k) where
  next_row-outside : (t : Terminal) → (next_row t).buffer k ≡ t.buffer k
  unfolding next_row
  next_row-outside t = elim (Bool-cases (t.row + 1 == 25)) [
    | inl e ↦ rw e ((terminal_scroll_lem t.color t.buffer k).2 outside)
    | inr ne ↦ rw ne refl
  ]

  putchar-outside :
      (t : Terminal) (c : ℕ)
      → t.row < 25
      → t.column < 80
      → (terminal_putchar t c).buffer k ≡ t.buffer k
  unfolding terminal_putchar terminal_putentryat
  putchar-outside t c hrow hcolumn =
      let put =
        update_ne t.buffer (t.row * 80 + t.column) k (vga_entry c t.color)
          (λ e. absurd (omega arith)) in
      elim (Bool-cases (c == newline)) [
        | inl e ↦ rw e (next_row-outside t)
        | inr ne ↦ rw ne (elim (Bool-cases (t.column + 1 == 80)) [
          | inl last ↦ rw last (
              next_row-outside (record t {
                buffer = update t.buffer (t.row * 80 + t.column) (vga_entry c t.color);
                column = 0;
              })
              ∙ put)
          | inr more ↦ rw more put
        ])
      ]

  -- Writing on a terminal that shows a tape changes no cell behind the last of the screen.
  pub terminal_write-outside :
      (color : ℕ) (t : Terminal) (p : Tape) (text : List ℕ)
      → Shows color t p
      → (terminal_write t text).buffer k ≡ t.buffer k
  unfolding terminal_write print_all
  terminal_write-outside color t p [] s = refl
  terminal_write-outside color t p (c ∷ text) s =
      terminal_write-outside color (terminal_putchar t c) (print color p c) text
        (terminal_putchar-Shows color t p c s)
      ∙ putchar-outside t c s.row_bound s.column_bound
