-- ===== src/Support/Table/Lines.antt =====
-- The lines of a printed table: all rows with cells are equally long, and only a row without cells
-- can make the printing read out of range.
use type_art.Prelude.{
  ℕ, zero, suc, ◌+◌, ◌-◌, ◌*◌, ◌≤◌, ◌<◌, ◌≡◌, refl, true, not, ◌&&◌, ◌==◌, ltb, List, [], ◌∷◌, ◌++◌,
  some, none, ap, length, replicate, length-replicate, length-append, arith, Option-cases, inl, inr,
}
use type_art.Support.Table.{
  justify_as, Text, Cell, Row, Table, AlignAs, left, right, space, colon, new_line, right_justify,
  left_justify, justify, more_cells, padding_cells, fill_up, row_cells, row_line, row_lines, framed,
  sum, col_width, print,
}
use type_art.Support.Table.Widths.{AtLeast, Fits, IsTable, AllRows, col_width-Fits}

right_justify-length : (s : Text) (w : ℕ) → length s ≤ w → length (right_justify s w) ≡ w
unfolding right_justify
right_justify-length s w h =
    omega (
      arith,
      length-append (replicate (w - length s) space) s,
      length-replicate (w - length s) space,
    )

left_justify-length : (s : Text) (w : ℕ) → length s ≤ w → length (left_justify s w) ≡ w
unfolding left_justify
left_justify-length s w h =
    omega (
      arith,
      length-append s (replicate (w - length s) space),
      length-replicate (w - length s) space,
    )

justify-length : (c : Cell) (w : ℕ) → length c.c ≤ w → length (justify c w) ≡ w
justify-length c w h = by_align c.align
  where
    by_align : (a : AlignAs) → length (justify_as a c.c w) ≡ w
    by_align left = left_justify-length c.c w h
    by_align right = right_justify-length c.c w h

-- The columns behind the first one, each with the separator before it.
abbrev separated : Text → List ℕ → ℕ
separated sep ws = sum ws + length ws * length sep

more_cells_lem :
    (sep : Text) (ws : List ℕ) (cs : List Cell)
    → AtLeast 4 ws
    → Fits ws cs
    → (text : Text) × (left_over : List ℕ) × (more_cells sep ws cs ≡ some (text, left_over))
      × (length left_over + length cs ≡ length ws)
      × (length text + separated sep left_over ≡ separated sep ws)
      × AtLeast 4 left_over
unfolding more_cells sum
more_cells_lem sep ws [] a f = ([], ws, refl, omega arith, omega arith, a)
more_cells_lem sep [] (c ∷ cs) a f = absurd f
more_cells_lem sep (w ∷ ws) (c ∷ cs) (a, b) (f, g) =
    let (text, left_over, e, rest, size, least) = more_cells_lem sep ws cs b g in
    let sizes = justify-length c w (omega arith) in
    let all = length-append (sep ++ justify c w) text in
    let behind = length-append sep (justify c w) in
    (sep ++ justify c w ++ text, left_over, ground arith, omega arith, omega arith, least)

padding_cells_lem :
    (sep empty : Text) (ws : List ℕ)
    → AtLeast 4 ws
    → length empty ≤ 4
    → (text : Text) × (padding_cells sep empty (length ws) ws ≡ some text)
      × (length text ≡ separated sep ws)
unfolding padding_cells sum
padding_cells_lem sep empty [] a h = ([], refl, omega arith)
padding_cells_lem sep empty (w ∷ ws) (a, b) h =
    let (text, e, size) = padding_cells_lem sep empty ws b h in
    let sizes = right_justify-length empty w (omega arith) in
    let all = length-append (sep ++ right_justify empty w) text in
    let behind = length-append sep (right_justify empty w) in
    (sep ++ right_justify empty w ++ text, ground arith, omega arith)

padding_cells_short :
    (sep empty : Text) (n : ℕ) (ws : List ℕ) → length ws < n → padding_cells sep empty n ws ≡ none
unfolding padding_cells
padding_cells_short sep empty zero ws h = absurd (omega arith)
padding_cells_short sep empty (suc n) [] h = refl
padding_cells_short sep empty (suc n) (w ∷ ws) h =
    ground (arith, padding_cells_short sep empty n ws)

-- The text of lines, each with its end, and that they all have a length.
abbrev pub of_lines : List Text → Text
of_lines [] = []
of_lines (line ∷ lines) = line ++ new_line ∷ of_lines lines

abbrev pub AllOfLength : ℕ → List Text → Type 0
AllOfLength n [] = Unit
AllOfLength n (line ∷ lines) = (length line ≡ n) × AllOfLength n lines

-- The length of a line with cells: the label, a space, a colon, the columns and the separators.
abbrev pub line_width : Table → List ℕ → ℕ
line_width t ws = t.max_row_label_width + 2 + sum ws + (t.columns - 1) * length t.cell_sep

module _ (t : Table) (short : length t.empty_cell ≤ 4) (some_empty : 0 < length t.empty_cell) where
  fill_up_lem :
      (col_num : ℕ) (ws : List ℕ)
      → AtLeast 4 ws
      → length ws + col_num + 1 ≡ t.columns
      → (text : Text) × (fill_up t col_num ws ≡ some text) × (length text ≡ separated t.cell_sep ws)
  unfolding fill_up sum
  fill_up_lem col_num [] a size = ([], ground arith, omega arith)
  fill_up_lem col_num (w ∷ ws) a size =
      let (text, e, long) = padding_cells_lem t.cell_sep t.empty_cell (w ∷ ws) a short in
      let left : t.columns - col_num - 1 ≡ length (w ∷ ws) = omega arith in
      let more : (ltb (col_num + 1) t.columns && not (length t.empty_cell == 0)) ≡ true =
        ground arith in
      (text, rw (more, left) e, long)

  row_cells_lem :
      (ws : List ℕ) (c : Cell) (cs : List Cell)
      → AtLeast 4 ws
      → Fits ws (c ∷ cs)
      → length ws ≡ t.columns
      → (text : Text) × (row_cells t ws (c ∷ cs) ≡ some text)
        × (length text ≡ sum ws + (t.columns - 1) * length t.cell_sep)
  unfolding row_cells sum
  row_cells_lem [] c cs a f size = absurd f
  row_cells_lem (w ∷ ws) c cs (a, b) (f, g) size =
      let (text, left_over, e, rest, long, least) = more_cells_lem t.cell_sep ws cs b g in
      let (filled, e', long') = fill_up_lem (length cs) left_over least (omega arith) in
      let first = right_justify-length c.c w (omega arith) in
      let all = length-append (right_justify c.c w ++ text) filled in
      let behind = length-append (right_justify c.c w) text in
      let others : t.columns - 1 ≡ length ws = omega arith in
      (right_justify c.c w ++ text ++ filled, ground arith, rw others (omega arith))

  row_line_lem :
      (ws : List ℕ) (r : Row)
      → AtLeast 4 ws
      → Fits ws r.cells
      → length ws ≡ t.columns
      → length r.label ≤ t.max_row_label_width
      → 0 < length r.cells
      → (line : Text) × (row_line t ws r ≡ some line) × (length line ≡ line_width t ws)
  unfolding row_line
  row_line_lem ws r a f size label filled = by_cells r.cells f filled
    where
      by_cells :
          (cs : List Cell)
          → Fits ws cs
          → 0 < length cs
          → (line : Text) × (row_line t ws (record { label = r.label; cells = cs }) ≡ some line)
            × (length line ≡ line_width t ws)
      by_cells [] f filled = absurd (omega arith)
      by_cells (c ∷ cs) f filled =
          let (text, e, long) = row_cells_lem ws c cs a f size in
          let front = left_justify r.label (t.max_row_label_width + 1) in
          let front_long = left_justify-length r.label (t.max_row_label_width + 1) (omega arith) in
          let all = length-append (front ++ colon ∷ []) text in
          let behind = length-append front (colon ∷ []) in
          (front ++ colon ∷ [] ++ text, ground arith, omega arith)

  -- A row without cells, in a table of two columns or more.
  pub row_line-none :
      (ws : List ℕ) (r : Row)
      → length ws ≡ t.columns
      → 2 ≤ t.columns
      → length r.cells ≡ 0
      → row_line t ws r ≡ none
  unfolding row_line row_cells
  row_line-none ws r size wide no_cells = by_cells r.cells no_cells
    where
      by_widths : (ws : List ℕ) → length ws ≡ t.columns → row_cells t ws [] ≡ none
      by_widths [] size = absurd (omega arith)
      by_widths (w ∷ []) size = absurd (omega arith)
      by_widths (w ∷ w' ∷ ws) size =
          ground
            (arith, padding_cells_short t.cell_sep t.empty_cell (t.columns - 1) ws (omega arith))

      by_cells :
          (cs : List Cell)
          → length cs ≡ 0
          → row_line t ws (record { label = r.label; cells = cs }) ≡ none
      by_cells [] h = ground (arith, by_widths ws size)
      by_cells (c ∷ cs) h = absurd (omega arith)

  row_lines-some :
      (ws : List ℕ) (rs : List Row)
      → AtLeast 4 ws
      → length ws ≡ t.columns
      → AllRows (λ r. Fits ws r.cells) rs
      → AllRows (λ r. length r.label ≤ t.max_row_label_width) rs
      → AllRows (λ r. 0 < length r.cells) rs
      → (lines : List Text) × (row_lines t ws rs ≡ some (of_lines lines))
        × (length lines ≡ length rs)
        × AllOfLength (line_width t ws) lines
  unfolding row_lines
  row_lines-some ws [] a size fits labels filled = ([], refl, refl, tt)
  row_lines-some ws (r ∷ rs) a size (f, fits) (l, labels) (c, filled) =
      let (line, e, long) = row_line_lem ws r a f size l c in
      let (lines, e', count, all) = row_lines-some ws rs a size fits labels filled in
      (line ∷ lines, ground arith, ap suc count, (long, all))

  -- A table that is filled row by row, each row with at least one cell, and whose empty cell has
  -- one to four characters, is printed without an access out of range: between the parts of the
  -- frame stands one line for each row, and every one of these lines has the length `line_width`.
  pub print_filled :
      IsTable t
      → AllRows (λ r. 0 < length r.cells) t.row_vec
      → (ws : List ℕ) × (lines : List Text) × (col_width t ≡ some ws)
        × (print t ≡ some (framed t ws (of_lines lines)))
        × (length lines ≡ length t.row_vec)
        × AllOfLength (line_width t ws) lines
  unfolding print
  print_filled v filled =
      let (ws, e, size, least, fits) = col_width-Fits t v in
      let (lines, e', count, all) =
        row_lines-some ws t.row_vec least size fits v.in_labels filled in
      (ws, lines, e, ground arith, count, all)

  row_lines-none :
      (ws : List ℕ) (before after : List Row) (r : Row)
      → row_line t ws r ≡ none
      → row_lines t ws (before ++ r ∷ after) ≡ none
  unfolding row_lines
  row_lines-none ws [] after r e = ground arith
  row_lines-none ws (x ∷ before) after r e =
      let rest = row_lines-none ws before after r e in
      elim (Option-cases (row_line t ws x)) [ inl f ↦ ground arith | inr (line, f) ↦ ground arith ]

  -- A table of two columns or more that is filled row by row, whose empty cell has one to four
  -- characters, and that has a row without cells, is not printed: the printing of that row reads
  -- behind the widths of the columns.
  pub print-none :
      (before after : List Row) (r : Row)
      → IsTable t
      → t.row_vec ≡ before ++ r ∷ after
      → 2 ≤ t.columns
      → length r.cells ≡ 0
      → print t ≡ none
  unfolding print
  print-none before after r v e wide no_cells =
      let (ws, e', size, least, fits) = col_width-Fits t v in
      ground (arith, row_lines-none ws before after r (row_line-none ws r size wide no_cells), e)
