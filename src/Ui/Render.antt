-- ===== src/Ui/Render.antt =====
-- What `render` of tools/te-rs/src/ui.rs draws: the tiling of the panes, a box, the status line.
pub mod Shares
pub mod Strokes
pub mod Tiling
pub mod Pictures
pub mod Painted
pub mod Windows
pub mod Places
pub mod Outline
pub mod Drawn
pub mod Rows
pub mod Panes
pub mod Boxes
use sw_tos.Base.{
  ℕ, zero, suc, ◌+◌, ◌-◌, ◌*◌, ◌/◌, min, max, List, [], ◌∷◌, ◌++◌, concat, Option, none, some, Bool,
  true, false, ◌||◌, ltb, leb, ◌==◌, if◌then◌else◌, Text, codes, length, get_elem?, get_or, set,
  take, drop,
}
use sw_tos.Format.{decimal, repeat}
use sw_tos.Ui.Canvas.{Canvas, ◌>>=◌, write_cell, write_inside}
use sw_tos.Ui.Desktop.{Desktop, focused}
use sw_tos.Ui.Pane.{Pane, PaneKind, application, visible_lines, kind_eq}

pub record Grid : Type 0 where
  pub width : ℕ
  pub columns : ℕ
  pub column_total : ℕ
  pub rows : ℕ

-- The part of a total that the piece at an index has.
abbrev pub share : ℕ → ℕ → ℕ → ℕ
share total pieces index = (index + 1) * total / pieces - index * total / pieces

-- `label_for`, of a pane at an index.
abbrev pub endpoint_label : Pane → Text
endpoint_label pane =
    if kind_eq pane.kind application then codes " ep=" ++ decimal (pane.channel + 1) else []

unfoldable pub pane_label : Desktop → ℕ → Pane → Text
pane_label d index pane = concat (
    decimal (index + 1)
    ∷ codes " v "
    ∷ pane.title
    ∷ endpoint_label pane
    ∷ (if pane.ended then codes " (ended)" else [])
    ∷ (if pane.alert then codes " !" else [])
    ∷ (if index == d.focus then codes " *" else [])
    ∷ [])

unfoldable pub label_for : Desktop → ℕ → Option Text
unfolding pane_label
label_for d index = do pane ← get_elem? d.panes index; some (pane_label d index pane)

-- `write_label`; its result is not read.
unfoldable pub write_chars : Text → ℕ → ℕ → ℕ → Canvas → Option Canvas
unfolding write_cell
write_chars [] y column end canvas = some canvas
write_chars (character ∷ label) y column end canvas = if leb end column then some canvas else do
  row ← get_elem? canvas y
  if leb (length row) column
      then some canvas
      else (write_cell y column character canvas >>= write_chars label y (column + 1) end)

unfoldable pub write_label : Desktop → ℕ → ℕ → ℕ → ℕ → Canvas → Option Canvas
unfolding write_chars label_for
write_label d y x end index canvas = do label ← label_for d index; write_chars label y x end canvas

-- `draw_rule`: the rule, then the name and the bar of each column.
abbrev pub ruled : ℕ → Text → Text
ruled width row = repeat (min width (length row)) b'-' ++ drop width row

abbrev pub lead : Text → ℕ → ℕ
lead label pane_width = if leb (length label + 2) pane_width then 2 else 0

abbrev pub column_label : Desktop → ℕ → ℕ → ℕ → ℕ → Canvas → Option Canvas
column_label d y x pane_width index canvas =
    if ltb index (length d.panes)
    then (label_for d index >>= λ label.
        write_label d y (x + lead label pane_width) (x + pane_width) index canvas)
    else some canvas

-- The bar after a column, unless it is the last one.
abbrev pub after_column : Grid → ℕ → ℕ
after_column grid column = if ltb (column + 1) grid.columns then 1 else 0

abbrev pub rule_bar : Grid → ℕ → ℕ → ℕ → Canvas → Option Canvas
rule_bar grid y column x canvas =
    if ltb (column + 1) grid.columns then write_inside y x b'|' canvas else some canvas

unfoldable pub rule_columns : Desktop → Grid → ℕ → ℕ → ℕ → ℕ → ℕ → Canvas → Option Canvas
unfolding write_label write_inside
rule_columns d grid y row zero column x canvas = some canvas
rule_columns d grid y row (suc left) column x canvas =
    let pane_width = share grid.column_total grid.columns column in
    do
      labelled ← column_label d y x pane_width (row * grid.columns + column) canvas
      barred ← rule_bar grid y column (x + pane_width) labelled
      rule_columns d grid y row left (column + 1) (x + pane_width + after_column grid column) barred

unfoldable pub draw_rule : Desktop → ℕ → Grid → ℕ → Canvas → Option Canvas
unfolding rule_columns
draw_rule d y grid row canvas = if leb (length canvas) y then some canvas else do
  cells ← get_elem? canvas y
  rule_columns d grid y row grid.columns 0 0 (set canvas y (ruled grid.width cells))

-- `draw_pane_content`.
unfoldable pub content_cells : Text → ℕ → ℕ → Canvas → Option Canvas
unfolding write_inside
content_cells [] target cell canvas = some canvas
content_cells (character ∷ line) target cell canvas =
    write_inside target cell character canvas >>= content_cells line target (cell + 1)

unfoldable pub content_lines : ℕ → ℕ → List Text → ℕ → ℕ → Canvas → Option Canvas
unfolding content_cells
content_lines offset width [] target x canvas = some canvas
content_lines offset width (line ∷ lines) target x canvas =
    if leb (length canvas) target
    then some canvas
    else (content_cells (take width (drop offset line)) target x canvas
        >>= content_lines offset width lines (target + 1) x)

unfoldable pub draw_pane_content : Desktop → ℕ → ℕ → ℕ → ℕ → ℕ → Canvas → Option Canvas
unfolding content_lines visible_lines
draw_pane_content d index x y width height canvas = do
  pane ← get_elem? d.panes index
  content_lines pane.horizontal_offset width (take height (visible_lines pane height)) y x canvas

-- The bars between two panes, in `draw_grid`.
unfoldable pub bar_lines : ℕ → ℕ → ℕ → Canvas → Option Canvas
unfolding write_inside
bar_lines zero line x canvas = some canvas
bar_lines (suc left) line x canvas = write_inside line x b'|' canvas >>= bar_lines left (line + 1) x
