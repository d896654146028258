-- ===== src/Ui/Render/Painted.antt =====
-- The tiling of tools/te-rs/src/ui.rs paints its picture, without a panic.
use sw_tos.Base.{
  ℕ, zero, suc, ◌+◌, ◌-◌, ◌*◌, ◌≤◌, ◌<◌, min, List, [], ◌∷◌, none, some, true, false, ltb, leb, ◌≡◌,
  refl, subst, arith, length, get_or, get_elem?, set, take, Bool-cases, ◌⊎◌, inl, inr,
}
use sw_tos.Ui.Canvas.Cells.{get_elem?-get_or}
use sw_tos.Ui.Canvas.Painting.{over, some-Paints, then-Paints, write_inside-Paints, dot}
use sw_tos.Ui.Canvas.{Canvas, IsShaped, Paints}
use sw_tos.Ui.Desktop.{Desktop}
use sw_tos.Ui.Pane.{visible_lines}
use sw_tos.Ui.Render.Shares.{begin, begin-share, begin_within, begin_zero}
use sw_tos.Ui.Render.Strokes.{
  dashes, bars, content_lines-Paints, write_chars-Paints, ruled-Paints, bar_lines-Paints,
}
use sw_tos.Ui.Render.Tiling.{content_height, column_content, column_bar, tile_columns, tile_rows}
use sw_tos.Ui.Render.{
  Grid, share, pane_label, label_for, write_label, lead, column_label, after_column, rule_bar,
  rule_columns, draw_rule, draw_pane_content, ruled,
}
use sw_tos.Ui.Render.Pictures.{
  window, name_over, bar_if, tiles_picture, columns_picture, names_picture, rows_picture,
}

in_range :
    {A : Type 0} (xs : List A) (i : ℕ)
    → ((ltb i (length xs) ≡ true) × ((a : A) × (get_elem? xs i ≡ some a)))
      ⊎ ((ltb i (length xs) ≡ false) × (get_elem? xs i ≡ none))
in_range [] i = inr (ground arith, refl)
in_range (x ∷ xs) zero = inl (ground arith, (x, refl))
in_range (x ∷ xs) (suc i) = elim (in_range xs i) [
  | inl (a, b) ↦ inl (ground (arith, a), b)
  | inr (a, b) ↦ inr (ground (arith, a), b)
]

module _ (w h : ℕ) (d : Desktop) where
  column_content-Paints :
      (index x y width height : ℕ) (canvas : Canvas)
      → IsShaped w h canvas
      → Paints w h
          (window (get_elem? d.panes index) y x width height)
          canvas
          (column_content d index x y width height canvas)
  column_content-Paints index x y width height canvas s = elim (in_range d.panes index) [
    | inl (e, (p, q)) ↦
        rw (e, q)
          (unfold draw_pane_content in
            (rw q (
              content_lines-Paints w h p.horizontal_offset width
                (take height (visible_lines p height)) y x canvas s)))
    | inr (e, q) ↦ rw (e, q) (some-Paints w h canvas s)
  ]

  column_label-Paints :
      (y x width index : ℕ) (canvas : Canvas)
      → IsShaped w h canvas
      → y < h
      → Paints w h
          (name_over d (get_elem? d.panes index) index y x width)
          canvas
          (column_label d y x width index canvas)
  unfolding label_for write_label
  column_label-Paints y x width index canvas s hy = elim (in_range d.panes index) [
    | inl (e, (p, q)) ↦
        rw (e, q)
          (write_chars-Paints w h (pane_label d index p) y (x + lead (pane_label d index p) width)
            (x + width) canvas s hy)
    | inr (e, q) ↦ rw (e, q) (some-Paints w h canvas s)
  ]

  rule_bar-Paints :
      (grid : Grid) (y column x : ℕ) (canvas : Canvas)
      → IsShaped w h canvas
      → y < h
      → Paints w h
          (bar_if (ltb (column + 1) grid.columns) (dot y x b'|'))
          canvas
          (rule_bar grid y column x canvas)
  rule_bar-Paints grid y column x canvas s hy = elim (Bool-cases (ltb (column + 1) grid.columns)) [
    | inl e ↦ rw e (write_inside-Paints w h y x b'|' canvas s hy)
    | inr e ↦ rw e (some-Paints w h canvas s)
  ]

  column_bar-Paints :
      (grid : Grid) (column x y height : ℕ) (canvas : Canvas)
      → IsShaped w h canvas
      → y + height ≤ h
      → Paints w h
          (bar_if (ltb (column + 1) grid.columns) (bars y height x))
          canvas
          (column_bar grid column x y height canvas)
  column_bar-Paints grid column x y height canvas s hy =
      let all : min (y + height) (length canvas) - y ≡ height = omega (arith, s.rows) in
      elim (Bool-cases (ltb (column + 1) grid.columns)) [
        | inl e ↦ rw (e, all) (bar_lines-Paints w h height y x canvas s hy)
        | inr e ↦ rw e (some-Paints w h canvas s)
      ]

  names-Paints :
      (grid : Grid) (y row left column x : ℕ) (canvas : Canvas)
      → IsShaped w h canvas
      → y < h
      → Paints w h
          (names_picture d grid y row left column x)
          canvas
          (rule_columns d grid y row left column x canvas)
  unfolding tiles_picture rule_columns
  names-Paints grid y row zero column x canvas s hy = some-Paints w h canvas s
  names-Paints grid y row (suc left) column x canvas s hy =
      let width = share grid.column_total grid.columns column in
      let index = row * grid.columns + column in
      let bar = bar_if (ltb (column + 1) grid.columns) (dot y (x + width) b'|') in
      let next = x + width + after_column grid column in
      then-Paints w h (name_over d (get_elem? d.panes index) index y x width)
        (over bar (names_picture d grid y row left (column + 1) next)) canvas
        (column_label d y x width index canvas) _ (column_label-Paints y x width index canvas s hy)
        (λ t k.
          then-Paints w h bar (names_picture d grid y row left (column + 1) next) t
            (rule_bar grid y column (x + width) t)
            (rule_columns d grid y row left (column + 1) next)
            (rule_bar-Paints grid y column (x + width) t k hy)
            (λ u m. names-Paints grid y row left (column + 1) next u m hy))

  columns-Paints :
      (grid : Grid) (row y height left column x : ℕ) (canvas : Canvas)
      → IsShaped w h canvas
      → y + height ≤ h
      → Paints w h
          (columns_picture d grid row y height left column x)
          canvas
          (tile_columns d grid row y height left column x canvas)
  unfolding tiles_picture tile_columns
  columns-Paints grid row y height zero column x canvas s hy = some-Paints w h canvas s
  columns-Paints grid row y height (suc left) column x canvas s hy =
      let width = share grid.column_total grid.columns column in
      let index = row * grid.columns + column in
      let bar = bar_if (ltb (column + 1) grid.columns) (bars y height (x + width)) in
      let next = x + width + after_column grid column in
      then-Paints w h (window (get_elem? d.panes index) y x width height)
        (over bar (columns_picture d grid row y height left (column + 1) next)) canvas
        (column_content d index x y width height canvas) _
        (column_content-Paints index x y width height canvas s)
        (λ t k.
          then-Paints w h bar (columns_picture d grid row y height left (column + 1) next) t
            (column_bar grid column (x + width) y height t)
            (tile_columns d grid row y height left (column + 1) next)
            (column_bar-Paints grid column (x + width) y height t k hy)
            (λ u m. columns-Paints grid row y height left (column + 1) next u m hy))

  rule-Paints :
      (grid : Grid) (y row : ℕ) (canvas : Canvas)
      → IsShaped w h canvas
      → y < h
      → grid.width ≡ w
      → Paints w h
          (over (dashes y) (names_picture d grid y row grid.columns 0 0))
          canvas
          (draw_rule d y grid row canvas)
  unfolding draw_rule
  rule-Paints grid y row_index canvas s hy same =
      let in_canvas : leb (length canvas) y ≡ false = ground (arith, s.rows) in
      let row = get_or canvas y [] in
      let painted : Paints w h (dashes y) canvas (some (set canvas y (ruled grid.width row))) =
        rw same (ruled-Paints w h y canvas s hy) in
      rw (in_canvas, get_elem?-get_or canvas y [] (omega (arith, s.rows)))
        (then-Paints w h (dashes y) (names_picture d grid y row_index grid.columns 0 0) canvas
          (some (set canvas y (ruled grid.width row)))
          (rule_columns d grid y row_index grid.columns 0 0) painted
          (λ t k. names-Paints grid y row_index grid.columns 0 0 t k hy))

  -- The rows of panes begin where the rules and the lines before them end.
  pub rows-Paints :
      (grid : Grid) (left row : ℕ) (canvas : Canvas)
      → IsShaped w h canvas
      → grid.width ≡ w
      → grid.rows < h
      → left + row ≡ grid.rows
      → Paints w h
          (rows_picture d grid h left row (row + begin (h - grid.rows) grid.rows row))
          canvas
          (tile_rows d grid h left row (row + begin (h - grid.rows) grid.rows row) canvas)
  unfolding rows_picture tile_rows
  rows-Paints grid zero row canvas s same fits e = some-Paints w h canvas s
  rows-Paints grid (suc left) row canvas s same fits e =
      let total = h - grid.rows in
      let y = row + begin total grid.rows row in
      let lines = content_height grid h row in
      let ends = begin-share total grid.rows row (omega arith) in
      let within = begin_within total grid.rows (row + 1) (omega arith) (omega arith) in
      let next : y + 1 + lines ≡ row + 1 + begin total grid.rows (row + 1) = omega (arith, ends) in
      let rest : (t : Canvas)
          → IsShaped w h t
          → Paints w h (rows_picture d grid h left (row + 1) (y + 1 + lines)) t
              (tile_rows d grid h left (row + 1) (y + 1 + lines) t) =
        λ t k. rw next (rows-Paints grid left (row + 1) t k same fits (omega arith)) in
      then-Paints w h (over (dashes y) (names_picture d grid y row grid.columns 0 0))
        (over (columns_picture d grid row (y + 1) lines grid.columns 0 0)
          (rows_picture d grid h left (row + 1) (y + 1 + lines)))
        canvas (draw_rule d y grid row canvas) _
        (rule-Paints grid y row canvas s (omega (arith, ends, within)) same)
        (λ t k.
          then-Paints w h (columns_picture d grid row (y + 1) lines grid.columns 0 0)
            (rows_picture d grid h left (row + 1) (y + 1 + lines)) t
            (tile_columns d grid row (y + 1) lines grid.columns 0 0 t)
            (tile_rows d grid h left (row + 1) (y + 1 + lines))
            (columns-Paints grid row (y + 1) lines grid.columns 0 0 t k
              (omega (arith, ends, within)))
            rest)

  -- The whole tiling.
  pub grid-Paints :
      (grid : Grid) (canvas : Canvas)
      → IsShaped w h canvas
      → grid.width ≡ w
      → 0 < grid.rows
      → grid.rows < h
      → Paints w h
          (rows_picture d grid h grid.rows 0 0)
          canvas
          (tile_rows d grid h grid.rows 0 0 canvas)
  grid-Paints grid canvas s same pos fits =
      let top : 0 + begin (h - grid.rows) grid.rows 0 ≡ 0 =
        omega (arith, begin_zero (h - grid.rows) grid.rows pos) in
      subst
        (λ y.
          Paints w h (rows_picture d grid h grid.rows 0 y) canvas
            (tile_rows d grid h grid.rows 0 y canvas))
        top (rows-Paints grid grid.rows 0 canvas s same fits (omega arith))
