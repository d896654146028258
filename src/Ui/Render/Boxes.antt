-- ===== src/Ui/Render/Boxes.antt =====
-- Boxes, and `render` itself, of tools/te-rs/src/ui.rs.
use mathlib.Core.Option
use sw_tos.Base.{
  ℕ, zero, suc, ◌+◌, ◌-◌, min, max, List, [], ◌∷◌, ◌++◌, concat, Option, none, some, Bool, ◌||◌,
  ltb, leb, ◌==◌, if◌then◌else◌, Text, codes, length, get_elem?, set, take, drop,
}
use sw_tos.Format.{decimal, repeat}
use sw_tos.Ui.Canvas.{Canvas, ◌>>=◌, write_cell}
use sw_tos.Ui.Desktop.{Desktop, focused}
use sw_tos.Ui.Pane.{Pane, visible_lines}
use sw_tos.Ui.Render.Tiling.{draw_grid}

pub record BoxSpec : Type 0 where
  pub x : ℕ
  pub y : ℕ
  pub width : ℕ
  pub height : ℕ
  pub title : Text
  pub lines : List Text
  pub horizontal_offset : ℕ
  pub focused : Bool

-- The edge, `right + 1 - x` cells; a subtraction below zero and `edge[0]` of no cells panic.
unfoldable pub edge : ℕ → Option Text
unfolding repeat
edge zero = none
edge (suc zero) = some (b'+' ∷ [])
edge (suc (suc n)) = some (b'+' ∷ (repeat n b'-' ++ b'+' ∷ []))

-- `canvas[y][x..=right].copy_from_slice(..)`, on a run of the slice's length.
unfoldable pub copy_edge : ℕ → ℕ → ℕ → Text → Canvas → Option Canvas
copy_edge y x right run canvas = do
  row ← get_elem? canvas y
  if ltb right (length row)
      then some (set canvas y (take x row ++ (run ++ drop (right + 1) row)))
      else none

-- `row[x] = '|'` and `row[right] = '|'` on the rows between the edges.
unfoldable pub sides : ℕ → ℕ → ℕ → ℕ → Canvas → Option Canvas
unfolding write_cell
sides zero y x right canvas = some canvas
sides (suc left) y x right canvas = do
  one ← write_cell y x b'|' canvas
  two ← write_cell y right b'|' one
  sides left (y + 1) x right two

unfoldable pub box_cells : Text → ℕ → ℕ → Canvas → Option Canvas
unfolding write_cell
box_cells [] y x canvas = some canvas
box_cells (character ∷ line) y x canvas =
    write_cell y x character canvas >>= box_cells line y (x + 1)

unfoldable pub box_lines : BoxSpec → List Text → ℕ → Canvas → Option Canvas
unfolding box_cells
box_lines spec [] y canvas = some canvas
box_lines spec (line ∷ lines) y canvas =
    box_cells (take (spec.width - 2) (drop spec.horizontal_offset line)) y (spec.x + 1) canvas
    >>= box_lines spec lines (y + 1)

abbrev pub box_label : BoxSpec → Text
box_label spec =
    concat (codes " " ∷ spec.title ∷ (if spec.focused then codes " *" else []) ∷ codes " " ∷ [])

-- The drawing of a box from its edges on.
unfoldable pub draw_edges : BoxSpec → ℕ → ℕ → Canvas → Option Canvas
unfolding edge copy_edge sides box_cells box_lines
draw_edges spec right bottom canvas = do
  run ← edge (right + 1 - spec.x)
  above ← copy_edge spec.y spec.x right run canvas
  below ← copy_edge bottom spec.x right run above
  framed ← sides (bottom - (spec.y + 1)) (spec.y + 1) spec.x right below
  titled ← box_cells (take (spec.width - 2) (box_label spec)) spec.y (spec.x + 1) framed
  box_lines spec (take (bottom - (spec.y + 1)) spec.lines) (spec.y + 1) titled

-- The columns of the canvas, less one: `canvas[0].len() - 1`.
abbrev pub last_column : Canvas → Option ℕ
last_column [] = none
last_column ([] ∷ rows) = none
last_column ((c ∷ cs) ∷ rows) = some (length cs)

unfoldable pub draw_box : Canvas → BoxSpec → Option Canvas
unfolding draw_edges
draw_box canvas spec =
    if ltb spec.width 2 || ltb spec.height 2 || leb (length canvas) spec.y then some canvas else do
      last ← last_column canvas
      draw_edges spec (min (spec.x + spec.width - 1) last)
          (min (spec.y + spec.height - 1) (length canvas - 1)) canvas

-- `draw_pane`.
abbrev pub pane_box : Desktop → ℕ → ℕ → ℕ → ℕ → ℕ → Pane → BoxSpec
pane_box d index x y width height pane = record {
  x = x;
  y = y;
  width = width;
  height = height;
  title = pane.title ++ (if pane.alert then codes " !" else []);
  lines = visible_lines pane (height - 2);
  horizontal_offset = pane.horizontal_offset;
  focused = index == d.focus;
}

unfoldable pub draw_pane : Desktop → Canvas → ℕ → ℕ → ℕ → ℕ → ℕ → Option Canvas
unfolding draw_box visible_lines
draw_pane d canvas index x y width height = do
  pane ← get_elem? d.panes index
  draw_box canvas (pane_box d index x y width height pane)

abbrev pub help_lines : Text → List Text
help_lines close =
    codes "1-9 focus  n next  p previous  z zoom  s split  x close"
    ∷ codes "l clear pane  c close ended  S restore-system-panes"
    ∷ codes "y copy"
    ∷ codes "b,b broadcast"
    ∷ codes "w save  R restore-layout"
    ∷ codes "copy: arrows/hjkl  PgUp/PgDn  g/G  q exit"
    ∷ codes "r reconnect/redraw  e target-Escape  k restart shell"
    ∷ codes "B warm SWTOS reboot (ISR request)"
    ∷ codes "? help  d detach"
    ∷ close
    ∷ []

abbrev pub help_box : Desktop → ℕ → ℕ → BoxSpec
help_box d width height = record {
  x = 0;
  y = 0;
  width = width;
  height = height;
  title = concat (codes "Help -- press " ∷ d.prefix_label ∷ codes " first, then:" ∷ []);
  lines =
      help_lines (concat (codes "close help: q, Escape, or " ∷ d.prefix_label ∷ codes " ?" ∷ []));
  horizontal_offset = 0;
  focused = Bool.true;
}

-- The body of the screen.
unfoldable pub draw_body : Desktop → ℕ → ℕ → Canvas → Option Canvas
unfolding draw_box draw_pane draw_grid
draw_body d width height canvas =
    if d.help
    then draw_box canvas (help_box d width height)
    else if d.zoomed
    then draw_pane d canvas d.focus 0 0 width height
    else draw_grid d canvas width height

abbrev pub status_line : Desktop → Pane → Text
status_line d pane = concat (
    codes " focus:"
    ∷ pane.title
    ∷ codes "  panes:"
    ∷ decimal (length d.panes)
    ∷ (if d.broadcast
        then codes " BROADCAST"
        else if d.broadcast_armed
        then codes " broadcast?"
        else [])
    ∷ (if d.copy_mode then codes " COPY" else [])
    ∷ codes "  "
    ∷ (if d.connected then codes "connected" else codes "disconnected")
    ∷ codes "  clock:"
    ∷ d.clock
    ∷ codes "  "
    ∷ Option.get_or d.error (codes "ok")
    ∷ [])

abbrev pub end_of_line : Text
end_of_line = 27 ∷ b'[' ∷ b'K' ∷ 13 ∷ 10 ∷ []

unfoldable pub screen_rows : Canvas → Text
screen_rows [] = []
screen_rows (row ∷ rows) = row ++ (end_of_line ++ screen_rows rows)

unfoldable pub truncate : Text → ℕ → Text
truncate value width = take width value

unfoldable pub screen : Desktop → ℕ → Canvas → Option Text
unfolding screen_rows truncate decimal
screen d width canvas = do
  pane ← focused d
  some (
      concat (
        (27 ∷ b'[' ∷ b'H' ∷ [])
        ∷ screen_rows canvas
        ∷ truncate (status_line d pane) width
        ∷ end_of_line
        ∷ []))

-- The empty canvas.
abbrev pub blank_line : ℕ → Text
blank_line width = repeat width b' '

abbrev pub blank : ℕ → ℕ → Canvas
blank width height = repeat height (blank_line width)

-- `render`.
unfoldable pub render : Desktop → ℕ → ℕ → Option Text
unfolding draw_body screen repeat
render d width height =
    let w = max width 24 in
    let h = max height 8 - 2 in do canvas ← draw_body d w h (blank w h); screen d w canvas
