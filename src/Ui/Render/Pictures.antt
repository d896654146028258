-- ===== src/Ui/Render/Pictures.antt =====
-- What the tiling of tools/te-rs/src/ui.rs leaves in a cell, piece by piece.
use sw_tos.Base.{
  ℕ, zero, suc, ◌+◌, ◌*◌, Option, none, some, Bool, true, false, ltb, get_elem?, take,
}
use sw_tos.Ui.Canvas.Painting.{unchanged, over, dot}
use sw_tos.Ui.Canvas.{Picture}
use sw_tos.Ui.Desktop.{Desktop}
use sw_tos.Ui.Pane.{Pane, visible_lines}
use sw_tos.Ui.Render.Strokes.{block, label_at, dashes, bars}
use sw_tos.Ui.Render.Tiling.{content_height}
use sw_tos.Ui.Render.{Grid, share, pane_label, lead, after_column}

-- The text of a pane in its window, and nothing where there is no pane.
abbrev pub window : Option Pane → ℕ → ℕ → ℕ → ℕ → Picture
window none y x width height = unchanged
window (some p) y x width height =
    block y x p.horizontal_offset width (take height (visible_lines p height))

-- The name of a pane over its window.
abbrev pub name_over : Desktop → Option Pane → ℕ → ℕ → ℕ → ℕ → Picture
name_over d none index y x width = unchanged
name_over d (some p) index y x width =
    label_at y (x + lead (pane_label d index p) width) (x + width) (pane_label d index p)

abbrev pub bar_if : Bool → Picture → Picture
bar_if true bar = bar
bar_if false bar = unchanged

-- Pieces next to each other, one for each column, with bars between them.
unfoldable pub tiles_picture : Grid → (ℕ → ℕ → Picture) → (ℕ → Picture) → ℕ → ℕ → ℕ → Picture
tiles_picture grid piece bar zero column x = unchanged
tiles_picture grid piece bar (suc left) column x =
    let width = share grid.column_total grid.columns column in
    over (piece column x) (
      over (bar_if (ltb (column + 1) grid.columns) (bar (x + width)))
        (tiles_picture grid piece bar left (column + 1) (x + width + after_column grid column)))

-- The windows of a row of panes, and their names.
abbrev pub window_in : Desktop → Grid → ℕ → ℕ → ℕ → ℕ → ℕ → Picture
window_in d grid row y height column x =
    window (get_elem? d.panes (row * grid.columns + column)) y x
      (share grid.column_total grid.columns column) height

abbrev pub name_in : Desktop → Grid → ℕ → ℕ → ℕ → ℕ → Picture
name_in d grid row y column x =
    let index = row * grid.columns + column in
    name_over d (get_elem? d.panes index) index y x (share grid.column_total grid.columns column)

abbrev pub mark : ℕ → ℕ → Picture
mark y x = dot y x b'|'

abbrev pub columns_picture : Desktop → Grid → ℕ → ℕ → ℕ → ℕ → ℕ → ℕ → Picture
columns_picture d grid row y height =
    tiles_picture grid (window_in d grid row y height) (bars y height)

abbrev pub names_picture : Desktop → Grid → ℕ → ℕ → ℕ → ℕ → ℕ → Picture
names_picture d grid y row = tiles_picture grid (name_in d grid row y) (mark y)

unfoldable pub rows_picture : Desktop → Grid → ℕ → ℕ → ℕ → ℕ → Picture
unfolding tiles_picture
rows_picture d grid height zero row y = unchanged
rows_picture d grid height (suc left) row y =
    let lines = content_height grid height row in
    over (over (dashes y) (names_picture d grid y row grid.columns 0 0)) (
      over (columns_picture d grid row (y + 1) lines grid.columns 0 0)
        (rows_picture d grid height left (row + 1) (y + 1 + lines)))
