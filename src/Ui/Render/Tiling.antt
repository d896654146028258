-- ===== src/Ui/Render/Tiling.antt =====
-- The tiling of `draw_grid` in tools/te-rs/src/ui.rs.
use sw_tos.Base.{
  ℕ, zero, suc, ◌+◌, ◌-◌, ◌*◌, ◌/◌, min, Option, some, ◌||◌, ltb, leb, ◌==◌, if◌then◌else◌, length,
}
use sw_tos.Ui.Canvas.{Canvas, ◌>>=◌}
use sw_tos.Ui.Desktop.{Desktop}
use sw_tos.Ui.Render.{Grid, share, draw_rule, draw_pane_content, after_column, bar_lines}

abbrev pub grid_columns : Desktop → ℕ
grid_columns d = if leb (length d.panes) 1 then 1 else 2

-- `div_ceil` is written out.
abbrev pub grid_of : Desktop → ℕ → Grid
grid_of d width = record {
  width = width;
  columns = grid_columns d;
  column_total = width - (grid_columns d - 1);
  rows = (length d.panes + (grid_columns d - 1)) / grid_columns d;
}

-- The rows of panes share what the rules leave of the height.
abbrev pub content_height : Grid → ℕ → ℕ → ℕ
content_height grid height row = share (height - grid.rows) grid.rows row

abbrev pub column_content : Desktop → ℕ → ℕ → ℕ → ℕ → ℕ → Canvas → Option Canvas
column_content d index x y width height canvas =
    if ltb index (length d.panes)
    then draw_pane_content d index x y width height canvas
    else some canvas

abbrev pub column_bar : Grid → ℕ → ℕ → ℕ → ℕ → Canvas → Option Canvas
column_bar grid column x y height canvas =
    if ltb (column + 1) grid.columns
    then bar_lines (min (y + height) (length canvas) - y) y x canvas
    else some canvas

unfoldable pub tile_columns : Desktop → Grid → ℕ → ℕ → ℕ → ℕ → ℕ → ℕ → Canvas → Option Canvas
unfolding draw_pane_content bar_lines
tile_columns d grid row y height zero column x canvas = some canvas
tile_columns d grid row y height (suc left) column x canvas =
    let pane_width = share grid.column_total grid.columns column in
    do
      filled ← column_content d (row * grid.columns + column) x y pane_width height canvas
      barred ← column_bar grid column (x + pane_width) y height filled
      tile_columns d grid row y height left (column + 1) (x + pane_width + after_column grid column)
          barred

unfoldable pub tile_rows : Desktop → Grid → ℕ → ℕ → ℕ → ℕ → Canvas → Option Canvas
unfolding draw_rule tile_columns
tile_rows d grid height zero row y canvas = some canvas
tile_rows d grid height (suc left) row y canvas =
    let lines = content_height grid height row in
    do
      named ← draw_rule d y grid row canvas
      tiled ← tile_columns d grid row (y + 1) lines grid.columns 0 0 named
      tile_rows d grid height left (row + 1) (y + 1 + lines) tiled

-- `draw_grid`; its second test of the height repeats the first.
unfoldable pub draw_grid : Desktop → Canvas → ℕ → ℕ → Option Canvas
unfolding tile_rows
draw_grid d canvas width height =
    let grid = grid_of d width in
    if grid.rows == 0 || leb height grid.rows
    then some canvas
    else tile_rows d grid height grid.rows 0 0 canvas
