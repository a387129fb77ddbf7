-- ===== src/Support/Table/Flat.antt =====
-- A table without columns, whose rows are labels.
use type_art.Prelude.{
  ℕ, ◌+◌, ◌≡◌, refl, not, ◌||◌, ◌==◌, if◌then◌else◌, List, [], ◌∷◌, ◌++◌, some, length, arith,
}
use type_art.Support.Table.{
  Text, Cell, Row, Table, colon, new_line, left_justify, row_cells, row_line, row_lines, framed,
  print,
}
use type_art.Support.Table.Widths.{AllRows, IsTable, col_width-Fits}

-- With no columns a row is its label.
row_line_flat :
    (t : Table) (label : Text) (cs : List Cell)
    → t.columns ≡ 0
    → length cs ≡ 0
    → (line : Text) × (row_line t [] (record { label = label; cells = cs }) ≡ some line)
unfolding row_line row_cells
row_line_flat t label [] flat h = (
  left_justify label (t.max_row_label_width + 1)
      ++ (if not (length {A = Cell} [] == 0) || t.colon_empty then colon ∷ [] else [])
      ++ [],
  ground arith,
)
row_line_flat t label (c ∷ cs) flat h = absurd (omega arith)

row_lines_flat :
    (t : Table) (rs : List Row)
    → t.columns ≡ 0
    → AllRows (λ r. length r.cells ≡ 0) rs
    → (text : Text) × (row_lines t [] rs ≡ some text)
unfolding row_lines
row_lines_flat t [] flat all = ([], refl)
row_lines_flat t (r ∷ rs) flat (h, all) =
    let (text, e) = row_lines_flat t rs flat all in
    let (line, f) = row_line_flat t r.label r.cells flat h in
    (line ++ new_line ∷ text, ground arith)

empty_widths : (ws : List ℕ) → length ws ≡ 0 → ws ≡ []
empty_widths [] h = refl
empty_widths (w ∷ ws) h = absurd (omega arith)

pub print_flat :
    (t : Table)
    → IsTable t
    → t.columns ≡ 0
    → AllRows (λ r. length r.cells ≡ 0) t.row_vec
    → (text : Text) × (print t ≡ some text)
unfolding print
print_flat t v flat all =
    let (ws, e, size, least, fits) = col_width-Fits t v in
    let none_wide : ws ≡ [] = empty_widths ws (omega arith) in
    let (text, e') = row_lines_flat t t.row_vec flat all in (framed t ws text, ground arith)
