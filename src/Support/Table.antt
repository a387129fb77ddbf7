-- ===== src/Support/Table.antt =====
-- lib/support/Table.h: the table that the runtime's report prints. A text is a list of characters;
-- the texts of numbers come from outside.
pub mod Widths
pub mod Flat
pub mod Lines
use type_art.Prelude.{
  ℕ, zero, suc, ◌+◌, ◌-◌, ◌*◌, max, Bool, true, false, not, ◌&&◌, ◌==◌, drop, ◌||◌, ltb,
  if◌then◌else◌, List, [], ◌∷◌, ◌++◌, Option, none, some, length, replicate,
}

abbrev pub Text : Type 0
Text = List ℕ

pub data AlignAs : Type 0 where
  left right : AlignAs

-- The width `w` of a cell is the size of its text.
pub record Cell : Type 0 where
  pub c : Text
  pub align : AlignAs

pub record Row : Type 0 where
  pub label : Text
  pub cells : List Cell

pub record Table : Type 0 where
  pub title : Text
  pub row_vec : List Row
  pub columns : ℕ
  pub rows : ℕ
  pub max_row_label_width : ℕ
  pub cell_sep : Text
  pub empty_cell : Text
  pub table_header : ℕ
  pub wrap_header : Bool
  pub wrap_length : Bool
  pub colon_empty : Bool

-- The characters that are printed: a space, a colon, the end of a line.
abbrev pub space : ℕ
space = 32

abbrev pub colon : ℕ
colon = 58

abbrev pub new_line : ℕ
new_line = 10

-- A table without rows, with the defaults of the source: " , ", "-" and '-'.
abbrev pub titled : Text → Table
titled title = record {
  title = title;
  row_vec = [];
  columns = 0;
  rows = 0;
  max_row_label_width = 1;
  cell_sep = 32 ∷ 44 ∷ 32 ∷ [];
  empty_cell = 45 ∷ [];
  table_header = 45;
  wrap_header = false;
  wrap_length = false;
  colon_empty = false;
}

unfoldable pub put_row : Table → Row → Table
put_row t r = record t {
  row_vec = t.row_vec ++ r ∷ [];
  columns = max t.columns (length r.cells);
  rows = suc t.rows;
  max_row_label_width = max t.max_row_label_width (length r.label);
}

-- `Table::make`
unfoldable pub put_rows : Table → List Row → Table
put_rows t [] = t
put_rows t (r ∷ rs) = put_rows (put_row t r) rs

-- `std::setw`, which pads a text that is shorter.
pub right_justify : Text → ℕ → Text
right_justify s width = replicate (width - length s) space ++ s

pub left_justify : Text → ℕ → Text
left_justify s width = s ++ replicate (width - length s) space

abbrev pub justify_as : AlignAs → Text → ℕ → Text
justify_as right s width = right_justify s width
justify_as left s width = left_justify s width

abbrev pub justify : Cell → ℕ → Text
justify c width = justify_as c.align c.c width

-- The widths of the columns, one row at a time; `none` is a write out of range.
pub widen : List ℕ → List Cell → Option (List ℕ)
widen ws [] = some ws
widen [] (c ∷ cs) = none
widen (w ∷ ws) (c ∷ cs) = elim (widen ws cs) [
  | none ↦ none
  | some ws' ↦ some (max w (length c.c + 1) ∷ ws')
]

pub widen_all : List ℕ → List Row → Option (List ℕ)
widen_all ws [] = some ws
widen_all ws (r ∷ rs) = elim (widen ws r.cells) [ none ↦ none | some ws' ↦ widen_all ws' rs ]

pub col_width : Table → Option (List ℕ)
col_width t = widen_all (replicate t.columns 4) t.row_vec

-- The cells behind the first one, and the columns that they leave; `none` is a read out of range.
pub more_cells : Text → List ℕ → List Cell → Option (Text × List ℕ)
more_cells sep ws [] = some ([], ws)
more_cells sep [] (c ∷ cs) = none
more_cells sep (w ∷ ws) (c ∷ cs) = elim (more_cells sep ws cs) [
  | none ↦ none
  | some (text, left_over) ↦ some (sep ++ justify c w ++ text, left_over)
]

pub padding_cells : Text → Text → ℕ → List ℕ → Option Text
padding_cells sep empty zero ws = some []
padding_cells sep empty (suc n) [] = none
padding_cells sep empty (suc n) (w ∷ ws) = elim (padding_cells sep empty n ws) [
  | none ↦ none
  | some text ↦ some (sep ++ right_justify empty w ++ text)
]

-- The empty columns of a row whose last column is `col_num`, from the columns behind it.
pub fill_up : Table → ℕ → List ℕ → Option Text
fill_up t col_num ws =
    if ltb (col_num + 1) t.columns && not (length t.empty_cell == 0)
    then padding_cells t.cell_sep t.empty_cell (t.columns - col_num - 1) ws
    else some []

-- A row without cells prints one empty cell more, before the others and without a separator.
pub row_cells : Table → List ℕ → List Cell → Option Text
row_cells t ws [] =
    if ltb 1 t.columns && not (length t.empty_cell == 0)
    then elim (drop 1 ws) [
      | [] ↦ none
      | w ∷ ws' ↦ elim (padding_cells t.cell_sep t.empty_cell (t.columns - 1) ws') [
        | none ↦ none
        | some text ↦ some (right_justify t.empty_cell w ++ text)
      ]
    ]
    else some []
row_cells t [] (c ∷ cs) = none
row_cells t (w ∷ ws) (c ∷ cs) = elim (more_cells t.cell_sep ws cs) [
  | none ↦ none
  | some (text, left_over) ↦ elim (fill_up t (length cs) left_over) [
    | none ↦ none
    | some filled ↦ some (right_justify c.c w ++ text ++ filled)
  ]
]

-- The line of a row, without the end of the line.
pub row_line : Table → List ℕ → Row → Option Text
row_line t ws r = elim (row_cells t ws r.cells) [
  | none ↦ none
  | some text ↦ some (
      left_justify r.label (t.max_row_label_width + 1)
      ++ (if not (length r.cells == 0) || t.colon_empty then colon ∷ [] else [])
      ++ text)
]

pub row_lines : Table → List ℕ → List Row → Option Text
row_lines t ws [] = some []
row_lines t ws (r ∷ rs) = elim (row_line t ws r) [
  | none ↦ none
  | some line ↦ elim (row_lines t ws rs) [
    | none ↦ none
    | some text ↦ some (line ++ new_line ∷ text)
  ]
]

pub sum : List ℕ → ℕ
sum [] = 0
sum (n ∷ ns) = n + sum ns

pub head_rep_count : Table → List ℕ → ℕ
head_rep_count t ws =
    let title_width = max (t.max_row_label_width + 1) (length t.title) in
    if t.wrap_length then title_width + sum ws + t.columns * length t.cell_sep else title_width

-- The header around the lines of the rows.
abbrev pub framed : Table → List ℕ → Text → Text
framed t ws text =
    let separation = replicate (head_rep_count t ws) t.table_header ++ new_line ∷ [] in
    separation ++ t.title ++ new_line ∷ text ++ (if t.wrap_header then separation else [])

-- `print`; `none` is an access out of range.
pub print : Table → Option Text
print t = elim (col_width t) [
  | none ↦ none
  | some ws ↦ elim (row_lines t ws t.row_vec) [ none ↦ none | some text ↦ some (framed t ws text) ]
]
