-- ===== src/Tests/Report.antt =====
-- Tables with and without an empty row, and the report of a run that did nothing.
use type_art.Prelude.{ℕ, ◌≡◌, refl, List, [], ◌∷◌, some, none, length, arith}
use type_art.Support.Table.{
  Text, Row, Table, right, titled, put_row, put_rows, col_width, framed, print,
}
use type_art.Prelude.Int.{pos}
use type_art.Runtime.Recorder.Access
use type_art.Runtime.Report.{ReportOps, serialize}
use type_art.Runtime.Report.Prints.{serialize-some}
use type_art.Support.Table.Widths.{titled-IsTable, put_rows-IsTable}
use type_art.Support.Table.Lines.{of_lines, AllOfLength, line_width, print_filled, print-none}

abbrev heap_row : Row
heap_row = record {
  label = 72 ∷ [];
  cells =
      (record { c = 49 ∷ 50 ∷ []; align = right }) ∷ (record { c = 55 ∷ []; align = right }) ∷ [];
}

abbrev stack_row : Row
stack_row = record { label = 83 ∷ []; cells = (record { c = 57 ∷ []; align = right }) ∷ [] }

abbrev empty_row : Row
empty_row = record { label = 69 ∷ []; cells = [] }

abbrev filled : Table
filled = put_rows (titled []) (heap_row ∷ stack_row ∷ [])

abbrev broken : Table
broken = put_rows (titled []) (heap_row ∷ empty_row ∷ [])

print_filled_example :
    (ws : List ℕ) × (lines : List Text) × (col_width filled ≡ some ws)
    × (print filled ≡ some (framed filled ws (of_lines lines)))
    × (length lines ≡ 2)
    × AllOfLength (line_width filled ws) lines
unfolding put_rows put_row
print_filled_example =
    print_filled filled (omega arith) (omega arith)
      (put_rows-IsTable (titled []) (heap_row ∷ stack_row ∷ []) (titled-IsTable []))
      (omega arith, (omega arith, tt))

print-none_example : print broken ≡ none
unfolding put_rows put_row
print-none_example =
    print-none broken (omega arith) (omega arith) (heap_row ∷ []) [] empty_row
      (put_rows-IsTable (titled []) (heap_row ∷ empty_row ∷ []) (titled-IsTable [])) refl
      (omega arith) refl

abbrev digits : ReportOps
digits = record {
  num2str = λ n. 48 ∷ [];
  characters = λ s. 120 ∷ [];
  type_name = λ id. 116 ∷ [];
  memory_use = λ stack heap global. pos 0;
  per_node_size_map = 96;
  per_node_size_stack = 8;
}

serialize-some_example : (text : Text) × (serialize digits Access.initial ≡ some text)
serialize-some_example = serialize-some digits Access.initial
