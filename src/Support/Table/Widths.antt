-- ===== src/Support/Table/Widths.antt =====
-- The widths of the columns: each cell of the table is narrower than its column.
use type_art.Prelude.{
  ℕ, zero, suc, ◌+◌, ◌≤◌, ◌≡◌, refl, ◌∙◌, max, List, [], ◌∷◌, ◌++◌, some, length, replicate,
  length-replicate, arith,
}
use type_art.Support.Table.{
  Text, Cell, Row, Table, put_row, put_rows, titled, widen, widen_all, col_width,
}

abbrev pub Fits : List ℕ → List Cell → Type 0
Fits ws [] = Unit
Fits [] (c ∷ cs) = ⊥
Fits (w ∷ ws) (c ∷ cs) = (length c.c + 1 ≤ w) × Fits ws cs

abbrev pub Wider : List ℕ → List ℕ → Type 0
Wider [] [] = Unit
Wider [] (w' ∷ ws') = ⊥
Wider (w ∷ ws) [] = ⊥
Wider (w ∷ ws) (w' ∷ ws') = (w ≤ w') × Wider ws ws'

Wider-refl : (ws : List ℕ) → Wider ws ws
Wider-refl [] = tt
Wider-refl (w ∷ ws) = (omega arith, Wider-refl ws)

Wider-trans : (us vs ws : List ℕ) → Wider us vs → Wider vs ws → Wider us ws
Wider-trans [] [] [] a b = tt
Wider-trans (u ∷ us) (v ∷ vs) (w ∷ ws) (a, as') (b, bs) = (omega arith, Wider-trans us vs ws as' bs)
Wider-trans [] [] (w ∷ ws) a b = absurd b
Wider-trans [] (v ∷ vs) ws a b = absurd a
Wider-trans (u ∷ us) [] ws a b = absurd a
Wider-trans (u ∷ us) (v ∷ vs) [] a b = absurd b

Wider-length : (ws vs : List ℕ) → Wider ws vs → length vs ≡ length ws
Wider-length [] [] a = refl
Wider-length [] (v ∷ vs) a = absurd a
Wider-length (w ∷ ws) [] a = absurd a
Wider-length (w ∷ ws) (v ∷ vs) (a, b) = omega (arith, Wider-length ws vs b)

Wider-Fits : (ws vs : List ℕ) (cs : List Cell) → Wider ws vs → Fits ws cs → Fits vs cs
Wider-Fits ws vs [] a f = tt
Wider-Fits [] vs (c ∷ cs) a f = absurd f
Wider-Fits (w ∷ ws) [] (c ∷ cs) a f = absurd a
Wider-Fits (w ∷ ws) (v ∷ vs) (c ∷ cs) (a, b) (f, g) = (omega arith, Wider-Fits ws vs cs b g)

abbrev pub AtLeast : ℕ → List ℕ → Type 0
AtLeast n [] = Unit
AtLeast n (w ∷ ws) = (n ≤ w) × AtLeast n ws

AtLeast-Wider : (n : ℕ) (ws : List ℕ) → Wider (replicate n 4) ws → AtLeast 4 ws
AtLeast-Wider zero [] a = tt
AtLeast-Wider zero (w ∷ ws) a = absurd a
AtLeast-Wider (suc n) [] a = absurd a
AtLeast-Wider (suc n) (w ∷ ws) (a, b) = (a, AtLeast-Wider n ws b)

-- A row of no more cells than columns widens the columns until it fits.
widen-Fits :
    (ws : List ℕ) (cs : List Cell)
    → length cs ≤ length ws
    → (vs : List ℕ) × (widen ws cs ≡ some vs) × Wider ws vs × Fits vs cs
unfolding widen
widen-Fits ws [] h = (ws, refl, Wider-refl ws, tt)
widen-Fits [] (c ∷ cs) h = absurd (omega arith)
widen-Fits (w ∷ ws) (c ∷ cs) h =
    let (vs, e, wider, fits) = widen-Fits ws cs (omega arith) in
    (max w (length c.c + 1) ∷ vs, rw e refl, (omega arith, wider), (omega arith, fits))

abbrev pub AllRows : (Row → Type 0) → List Row → Type 0
AllRows P [] = Unit
AllRows P (r ∷ rs) = P r × AllRows P rs

AllRows-Fits :
    (ws vs : List ℕ) (rs : List Row)
    → Wider ws vs
    → AllRows (λ r. Fits ws r.cells) rs
    → AllRows (λ r. Fits vs r.cells) rs
AllRows-Fits ws vs [] a all = tt
AllRows-Fits ws vs (r ∷ rs) a (f, all) = (Wider-Fits ws vs r.cells a f, AllRows-Fits ws vs rs a all)

widen_all-Fits :
    (ws : List ℕ) (rs : List Row)
    → AllRows (λ r. length r.cells ≤ length ws) rs
    → (vs : List ℕ) × (widen_all ws rs ≡ some vs) × Wider ws vs × AllRows (λ r. Fits vs r.cells) rs
unfolding widen_all
widen_all-Fits ws [] all = (ws, refl, Wider-refl ws, tt)
widen_all-Fits ws (r ∷ rs) (h, all) =
    let (us, e, wider, fits) = widen-Fits ws r.cells h in
    let (vs, f, wider', rest) = widen_all-Fits us rs (same_length ws us rs wider all) in
    (
      vs,
      ground arith,
      Wider-trans ws us vs wider wider',
      (Wider-Fits us vs r.cells wider' fits, rest),
    )
  where
    same_length :
        (ws us : List ℕ) (rs : List Row)
        → Wider ws us
        → AllRows (λ r. length r.cells ≤ length ws) rs
        → AllRows (λ r. length r.cells ≤ length us) rs
    same_length ws us [] a all = tt
    same_length ws us (r ∷ rs) a (h, all) =
        (omega (arith, Wider-length ws us a), same_length ws us rs a all)

-- What a table that is filled row by row keeps.
pub record IsTable (t : Table) : Type 0 where
  pub in_columns : AllRows (λ r. length r.cells ≤ t.columns) t.row_vec
  pub in_labels : AllRows (λ r. length r.label ≤ t.max_row_label_width) t.row_vec

pub titled-IsTable : (title : Text) → IsTable (titled title)
titled-IsTable title = record { in_columns = tt; in_labels = tt }

bounded_snoc :
    (f : Row → ℕ) (b : ℕ) (rs : List Row) (r : Row)
    → AllRows (λ x. f x ≤ b) rs
    → AllRows (λ x. f x ≤ max b (f r)) (rs ++ r ∷ [])
bounded_snoc f b [] r all = (omega arith, tt)
bounded_snoc f b (x ∷ rs) r (h, all) = (omega arith, bounded_snoc f b rs r all)

put_row-IsTable : (t : Table) (r : Row) → IsTable t → IsTable (put_row t r)
unfolding put_row
put_row-IsTable t r v = record {
  in_columns = bounded_snoc (λ x. length x.cells) t.columns t.row_vec r v.in_columns;
  in_labels = bounded_snoc (λ x. length x.label) t.max_row_label_width t.row_vec r v.in_labels;
}

pub put_rows-IsTable : (t : Table) (rs : List Row) → IsTable t → IsTable (put_rows t rs)
unfolding put_rows
put_rows-IsTable t [] v = v
put_rows-IsTable t (r ∷ rs) v = put_rows-IsTable (put_row t r) rs (put_row-IsTable t r v)

-- The columns of such a table have a width each, and every cell is narrower than its column.
pub col_width-Fits :
    (t : Table)
    → IsTable t
    → (ws : List ℕ) × (col_width t ≡ some ws)
      × (length ws ≡ t.columns)
      × AtLeast 4 ws
      × AllRows (λ r. Fits ws r.cells) t.row_vec
unfolding col_width
col_width-Fits t v =
    let (ws, e, wider, fits) =
      widen_all-Fits (replicate t.columns 4) t.row_vec
        (rw (length-replicate {A = ℕ} t.columns 4) v.in_columns) in
    (
      ws,
      e,
      Wider-length (replicate t.columns 4) ws wider ∙ length-replicate {A = ℕ} t.columns 4,
      AtLeast-Wider t.columns ws wider,
      fits,
    )
