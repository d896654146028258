-- ===== src/Ui/Render/Rows.antt =====
-- The cells of a row of panes in the tiling of tools/te-rs/src/ui.rs.
use sw_tos.Base.{
  ℕ, zero, suc, ◌+◌, ◌-◌, ◌*◌, ◌≤◌, ◌<◌, List, [], ◌∷◌, some, true, false, ltb, leb, ◌==◌,
  if◌then◌else◌, ◌≡◌, refl, subst, sym, arith, Text, length, get_or, get_elem?, append-nil,
  Bool-cases, inl, inr,
}
use sw_tos.Ui.Canvas.{cell}
use sw_tos.Ui.Desktop.{Desktop}
use sw_tos.Ui.Pane.{Pane}
use sw_tos.Ui.Render.Boxes.{blank_line, blank}
use sw_tos.Ui.Render.Drawn.{blank_row}
use sw_tos.Ui.Render.Pictures.{tiles_picture, window_in, name_in, mark, names_picture}
use sw_tos.Ui.Render.Places.{
  row_at, row_picture, window_before, window_behind, name_aside, columns_aside, names_aside,
}
use sw_tos.Ui.Render.Shares.{begin_zero}
use sw_tos.Ui.Render.Strokes.{part, block, label_at, dashes, bars, get_or-repeat}
use sw_tos.Ui.Render.Tiling.{grid_columns, grid_of}
use sw_tos.Ui.Render.Windows.{column_at, tiles_at}
use sw_tos.Ui.Render.{Grid, share}

module _ (d : Desktop) (grid : Grid) (h r c j i : ℕ) where
  -- A cell of a window in a row of panes.
  pub row_picture-window :
      (lines old : ℕ)
      → c < grid.columns
      → row_at grid h r + 1 ≤ j
      → column_at grid c ≤ i
      → i < column_at grid c + share grid.column_total grid.columns c
      → row_picture d grid h j i r (row_at grid h r) lines j i old
        ≡ window_in d grid r (row_at grid h r + 1) lines c (column_at grid c) j i old
  unfolding row_picture
  row_picture-window lines old hc below from to =
      let y = row_at grid h r in
      let dash : dashes y j i old ≡ old = ground arith in
      rw (dash, names_aside d grid h j i r y old (λ e. omega (arith, e, below)))
        (tiles_at grid (window_in d grid r (y + 1) lines) (bars (y + 1) lines) j i
          (λ q x o out.
            window_before (get_elem? d.panes (r * grid.columns + q)) (y + 1) x _ lines j i o out)
          (λ q x o out.
            window_behind (get_elem? d.panes (r * grid.columns + q)) (y + 1) x _ lines j i o out)
          (λ x o out. ground (arith, out)) grid.columns 0 0 c old
          (omega (arith, begin_zero grid.column_total grid.columns (omega arith))) (omega arith)
          (omega arith) (omega arith) from to)

  -- A cell of a rule.
  pub row_picture-name :
      (lines old : ℕ)
      → c < grid.columns
      → row_at grid h r ≡ j
      → column_at grid c ≤ i
      → i < column_at grid c + share grid.column_total grid.columns c
      → row_picture d grid h j i r (row_at grid h r) lines j i old
        ≡ name_in d grid r j c (column_at grid c) j i b'-'
  unfolding row_picture
  row_picture-name lines old hc same from to =
      let y = row_at grid h r in
      let dash : dashes y j i old ≡ b'-' = ground (arith, same) in
      let named = names_picture d grid y r grid.columns 0 0 j i b'-' in
      rw (dash, columns_aside d grid h j i r (y + 1) lines named (inl (omega (arith, same))))
        (subst
          (λ q.
            tiles_picture grid (name_in d grid r q) (mark q) grid.columns 0 0 j i b'-'
            ≡ name_in d grid r j c (column_at grid c) j i b'-')
          (sym same)
          (tiles_at grid (name_in d grid r j) (mark j) j i
            (λ q x o out. name_aside d _ _ j x _ j i o (inr (inl out)))
            (λ q x o out. name_aside d _ _ j x _ j i o (inr (inr out)))
            (λ x o out. ground (arith, out)) grid.columns 0 0 c b'-'
            (omega (arith, begin_zero grid.column_total grid.columns (omega arith))) (omega arith)
            (omega arith) (omega arith) from to))

get_elem?-lt {ℓ} :
    {A : Type ℓ} (xs : List A) (i : ℕ) {x : A} → get_elem? xs i ≡ some x → i < length xs
get_elem?-lt [] i h = absurd (grind (arith, h))
get_elem?-lt (x ∷ xs) zero h = omega arith
get_elem?-lt (x ∷ xs) (suc i) h = omega (arith, get_elem?-lt xs i h)

pub cell-blank : (w h j i : ℕ) → j < h → i < w → cell (blank w h) j i ≡ b' '
cell-blank w h j i hj hi =
    rw (blank_row w h j hj, ← append-nil (blank_line w)) (get_or-repeat w i b' ' 0 [] hi)

pub row_of_pane :
    (d : Desktop) (w r c : ℕ) (p : Pane)
    → c < grid_columns d
    → get_elem? d.panes (r * grid_columns d + c) ≡ some p
    → r < (grid_of d w).rows
row_of_pane d w r c p hc here =
    let inside : r * grid_columns d + c < length d.panes = get_elem?-lt d.panes _ here in
    elim (Bool-cases (leb (length d.panes) 1)) [
      | inl e ↦ ground (arith, e, inside, hc)
      | inr n ↦ ground (arith, n, inside, hc)
    ]

pub block_inside :
    (y x offset width k i old : ℕ) (lines : List Text)
    → block y x offset width lines (y + k) (x + i) old
      ≡ get_or (part offset width (get_or lines k [])) i old
block_inside y x offset width k i old lines =
    let down : y + k - y ≡ k = omega arith in
    let right : x + i - x ≡ i = omega arith in
    let rows : leb y (y + k) ≡ true = ground arith in
    let columns : leb x (x + i) ≡ true = ground arith in rw (rows, columns, down, right) refl

pub label_inside :
    (y x start width i old : ℕ) (text : Text)
    → i < width
    → label_at y (x + start) (x + width) text y (x + i) old
      ≡ (if leb start i then get_or text (i - start) old else old)
label_inside y x start width i old text h =
    let same : (y == y) ≡ true = ground arith in
    let before : ltb (x + i) (x + width) ≡ true = ground arith in
    let from : x + i - (x + start) ≡ i - start = omega arith in
    elim (Bool-cases (leb start i)) [
      | inl e ↦
          let e' : leb (x + start) (x + i) ≡ true = ground (arith, e) in
          rw (same, before, from, e, e') refl
      | inr n ↦
          let n' : leb (x + start) (x + i) ≡ false = ground (arith, n) in rw (same, n, n') refl
    ]
