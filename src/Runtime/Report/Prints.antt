-- ===== src/Runtime/Report/Prints.antt =====
-- The report of the counters reads no column that is not there, however many threads there are.
use type_art.Prelude.{
  Bool, true, false, if◌then◌else◌, ℕ, ◌<◌, ◌≡◌, refl, sym, ◌∙◌, List, [], ◌∷◌, ◌++◌, map, some,
  Bool-cases, inl, inr, length, length-append, append_assoc, append-nil, arith,
}
use type_art.Prelude.Int.{ℤ}
use type_art.Runtime.Recorder.Access.{AccessRecorder, ThreadRecorderMap}
use type_art.Support.Table.{left, Text, Cell, Row, Table, titled, put_row, put_rows, print}
use type_art.Support.Table.Widths.{AllRows, put_rows-IsTable}
use type_art.Support.Table.Lines.{print_filled}
use type_art.Support.Table.Flat.{print_flat}
use type_art.Runtime.Report.{
  ReportOps, thread_data, number, type_rows, alloc_rows, thread_rows, type_id_set, alloc_counts,
  free_counts, alloc_stats, type_table, type_table_free, thread_table, print_all, serialize,
}

put_rows-row_vec : (t : Table) (rs : List Row) → (put_rows t rs).row_vec ≡ t.row_vec ++ rs
unfolding put_rows put_row
put_rows-row_vec t [] = sym (append-nil t.row_vec)
put_rows-row_vec t (r ∷ rs) = put_rows-row_vec (put_row t r) rs ∙ append_assoc t.row_vec (r ∷ []) rs

put_rows-empty_cell : (t : Table) (rs : List Row) → (put_rows t rs).empty_cell ≡ t.empty_cell
unfolding put_rows put_row
put_rows-empty_cell t [] = refl
put_rows-empty_cell t (r ∷ rs) = put_rows-empty_cell (put_row t r) rs

put_rows-columns :
    (t : Table) (rs : List Row)
    → AllRows (λ r. length r.cells ≡ 0) rs
    → (put_rows t rs).columns ≡ t.columns
unfolding put_rows put_row
put_rows-columns t [] all = refl
put_rows-columns t (r ∷ rs) (h, all) = put_rows-columns (put_row t r) rs all ∙ omega arith

-- A table that is made of rows with cells prints.
print-put_rows :
    (title : Text) (header : ℕ) (wrap : Bool) (rs : List Row)
    → AllRows (λ r. 0 < length r.cells) rs
    → (text : Text) × (print
          (put_rows (record (titled title) { table_header = header; wrap_length = wrap }) rs)
        ≡ some text)
print-put_rows title header wrap rs all =
    let t = record (titled title) { table_header = header; wrap_length = wrap } in
    let v = put_rows-IsTable t rs (record { in_columns = tt; in_labels = tt }) in
    let size = put_rows-empty_cell t rs in
    let (ws, lines, _, e, _, _) =
      print_filled (put_rows t rs) (rw size (omega arith)) (rw size (omega arith)) v
        (rw (put_rows-row_vec t rs) all) in
    (_, e)

print-put_rows_flat :
    (title : Text) (rs : List Row)
    → AllRows (λ r. length r.cells ≡ 0) rs
    → (text : Text) × (print (put_rows (record (titled title) { table_header = 35 }) rs)
        ≡ some text)
print-put_rows_flat title rs all =
    let t = record (titled title) { table_header = 35 } in
    print_flat (put_rows t rs) (put_rows-IsTable t rs (record { in_columns = tt; in_labels = tt }))
      (put_rows-columns t rs all) (rw (put_rows-row_vec t rs) all)

abbrev has_cells : List Cell → Bool
has_cells [] = false
has_cells (c ∷ cs) = true

abbrev are_filled : List Row → Bool
are_filled [] = true
are_filled (r ∷ rs) = if has_cells r.cells then are_filled rs else false

filled_row : (cs : List Cell) → has_cells cs ≡ true → 0 < length cs
filled_row [] h = absurd (ground arith)
filled_row (c ∷ cs) h = omega arith

are_filled_lem : (rs : List Row) → are_filled rs ≡ true → AllRows (λ r. 0 < length r.cells) rs
are_filled_lem [] e = tt
are_filled_lem (r ∷ rs) e = elim (Bool-cases (has_cells r.cells)) [
  | inl h ↦ (filled_row r.cells h, are_filled_lem rs (ground arith))
  | inr h ↦ absurd (ground arith)
]

abbrev AllPrint : List Table → Type 0
AllPrint [] = Unit
AllPrint (t ∷ ts) = ((text : Text) × (print t ≡ some text)) × AllPrint ts

module _ (out : ReportOps) where
  type_rows_filled :
      (counts : ℤ → List ℤ) (ids : List ℤ)
      → ((id : ℤ) → 0 < length (counts id))
      → AllRows (λ r. 0 < length r.cells) (type_rows out counts ids)
  type_rows_filled counts [] h = tt
  type_rows_filled counts (id ∷ ids) h = (
    omega (
      arith,
      length-append (map (number out) (counts id))
          ((record { c = out.type_name id; align = left }) ∷ []),
    ),
    type_rows_filled counts ids h,
  )

  thread_rows-print :
      (title : Text) (m : ThreadRecorderMap)
      → (text : Text) × (print
            (put_rows (record (titled title) { table_header = 35 }) (thread_rows out m))
          ≡ some text)
  unfolding thread_data
  thread_rows-print title [] =
      print-put_rows_flat title (thread_rows out [])
        (refl, (refl, (refl, (refl, (refl, (refl, (refl, (refl, (refl, tt)))))))))
  thread_rows-print title ((tid, t) ∷ m) =
      print-put_rows title 35 false (thread_rows out ((tid, t) ∷ m))
        (are_filled_lem (thread_rows out ((tid, t) ∷ m)) refl)

  print_all_lem : (ts : List Table) → AllPrint ts → (text : Text) × (print_all out ts ≡ some text)
  unfolding print_all
  print_all_lem [] all = ([], refl)
  print_all_lem (t ∷ ts) ((text, e), all) =
      let (rest, f) = print_all_lem ts all in (text ++ rest, ground arith)

  -- The report of the counters is printed without an access out of range, whatever the counters
  -- are and however many threads there are, none included.
  pub serialize-some : (r : AccessRecorder) → (text : Text) × (serialize out r ≡ some text)
  unfolding serialize alloc_stats type_table type_table_free thread_table
  serialize-some r =
      print_all_lem
        (alloc_stats out r ∷ type_table out r ∷ type_table_free out r ∷ thread_table out r ∷ [])
        (
          print-put_rows (out.characters "Alloc Stats from softcounters") 45 true (alloc_rows out r)
              (are_filled_lem (alloc_rows out r) refl),
          (
            print-put_rows (out.characters "Allocation type detail (heap, stack, global)") 35 false
                (type_rows out (alloc_counts r) (type_id_set r))
                (type_rows_filled (alloc_counts r) (type_id_set r) (λ id. omega arith)),
            (
              print-put_rows (out.characters "Free allocation type detail (heap, stack)") 35 false
                  (type_rows out (free_counts r) (type_id_set r))
                  (type_rows_filled (free_counts r) (type_id_set r) (λ id. omega arith)),
              (thread_rows-print _ r.thread_recorders, tt),
            ),
          ),
        )
