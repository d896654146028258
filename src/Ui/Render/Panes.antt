-- ===== src/Ui/Render/Panes.antt =====
-- What a user sees of each pane in the tiling of tools/te-rs/src/ui.rs.
use sw_tos.Base.{
  ℕ, ◌+◌, ◌-◌, ◌*◌, ◌≤◌, ◌<◌, [], some, false, ◌||◌, leb, ◌==◌, if◌then◌else◌, ◌≡◌, refl, ◌∙◌,
  arith, Bool, true, Text, codes, ◌++◌, append-nil, length, get_or, get_elem?, take,
}
use sw_tos.Ui.Canvas.{Canvas, IsShaped, cell}
use sw_tos.Ui.Desktop.{Desktop}
use sw_tos.Ui.Pane.{Pane, PaneKind, shell, application, debugger, resources, kind_eq, visible_lines}
use sw_tos.Format.{decimal}
use sw_tos.Ui.Render.Boxes.{blank}
use sw_tos.Ui.Render.Drawn.{blank-IsShaped}
use sw_tos.Ui.Render.Painted.{grid-Paints}
use sw_tos.Ui.Render.Places.{row_at, row_picture, rows_at}
use sw_tos.Ui.Render.Shares.{begin_zero, begin-share, begin_within}
use sw_tos.Ui.Render.Strokes.{part}
use sw_tos.Ui.Render.Tiling.{content_height, grid_columns, grid_of, draw_grid}
use sw_tos.Ui.Render.Windows.{column_at}
use sw_tos.Ui.Render.{Grid, share, pane_label, endpoint_label}
use sw_tos.Ui.Render.Rows.{
  row_picture-window, row_picture-name, row_of_pane, cell-blank, block_inside, label_inside,
}

-- The name that stands above a pane, as a user reads it: "N v TITLE", then " ep=E" for an application,
-- whose endpoint is the number after its channel, " (ended)", " !" for an alert and " *" for the focus.
abbrev pub endpoint_mark : PaneKind → ℕ → Text
endpoint_mark application channel = codes " ep=" ++ decimal (channel + 1)
endpoint_mark shell channel = []
endpoint_mark debugger channel = []
endpoint_mark resources channel = []

abbrev pub when : Bool → Text → Text
when true mark = mark
when false mark = []

abbrev pub name_shown : ℕ → Pane → Bool → Text
name_shown number p is_focus =
    decimal number
    ++ (codes " v "
        ++ (p.title
            ++ (endpoint_mark p.kind p.channel
                ++ (when p.ended (codes " (ended)")
                    ++ (when p.alert (codes " !") ++ when is_focus (codes " *"))))))

endpoint_label-mark : (p : Pane) → endpoint_label p ≡ endpoint_mark p.kind p.channel
endpoint_label-mark p = of_kind p.kind
  where
    of_kind :
        (k : PaneKind)
        → (if kind_eq k application then codes " ep=" ++ decimal (p.channel + 1) else [])
          ≡ endpoint_mark k p.channel
    of_kind application = refl
    of_kind shell = refl
    of_kind debugger = refl
    of_kind resources = refl

if_when : (b : Bool) (mark : Text) → (if b then mark else []) ≡ when b mark
if_when true mark = refl
if_when false mark = refl

pane_label-name_shown :
    (d : Desktop) (index : ℕ) (p : Pane)
    → pane_label d index p ≡ name_shown (index + 1) p (index == d.focus)
unfolding pane_label
pane_label-name_shown d index p =
    rw
      (
        endpoint_label-mark p,
        if_when p.ended (codes " (ended)"),
        if_when p.alert (codes " !"),
        if_when (index == d.focus) (codes " *"),
        append-nil (when (index == d.focus) (codes " *")),
      )
      refl

-- `draw_grid` on an empty canvas does not panic, keeps the shape, and a cell has a value.
pub record Tiled (d : Desktop) (w h j x value : ℕ) : Type 0 where
  pub out : Canvas
  pub returns : draw_grid d (blank w h) w h ≡ some out
  pub shape : IsShaped w h out
  pub shown : cell out j x ≡ value

as_value :
    (d : Desktop) (w h j x value other : ℕ)
    → value ≡ other
    → Tiled d w h j x value
    → Tiled d w h j x other
as_value d w h j x value other same t = record {
  out = t.out;
  returns = t.returns;
  shape = t.shape;
  shown = t.shown ∙ same;
}

module _ (d : Desktop) (w h r c i : ℕ) (p : Pane) where
  abbrev grid : Grid
  grid = grid_of d w

  draw_grid-Tiled :
      (j : ℕ)
      → grid.rows < h
      → r < grid.rows
      → c < grid.columns
      → i < share grid.column_total grid.columns c
      → row_at grid h r ≤ j
      → j < row_at grid h r + 1 + content_height grid h r
      → Tiled d w h j (column_at grid c + i) (
          row_picture d grid h j
            (column_at grid c + i)
            r
            (row_at grid h r)
            (content_height grid h r)
            j
            (column_at grid c + i)
            b' ')
  unfolding draw_grid
  draw_grid-Tiled j fits hr hc hi from to =
      let x = column_at grid c + i in
      let rows = begin-share (h - grid.rows) grid.rows r (omega arith) in
      let low = begin_within (h - grid.rows) grid.rows (r + 1) (omega arith) (omega arith) in
      let columns = begin-share grid.column_total grid.columns c (omega arith) in
      let wide = begin_within grid.column_total grid.columns (c + 1) (omega arith) (omega arith) in
      let hj : j < h = omega (arith, rows, low) in
      let hx : x < w = ground (arith, columns, wide) in
      let painted =
        grid-Paints w h d grid (blank w h) (blank-IsShaped w h) refl (omega arith) fits in
      let goes : (grid.rows == 0 || leb h grid.rows) ≡ false = ground arith in
      record {
        out = painted.out;
        returns = rw goes painted.returns;
        shape = painted.shape;
        shown =
            painted.cells j x hj hx
            ∙ rw (cell-blank w h j x hj hx) (
                rows_at d grid h j x grid.rows 0 0 r b' '
                  (omega (arith, begin_zero (h - grid.rows) grid.rows (omega arith))) (omega arith)
                  (omega arith) (omega arith) from to);
      }

  -- In a tiling that fits, each pane has a window of its own, in its row and column, and the window
  -- shows the pane: a cell of it has the character of the visible line, from the horizontal offset
  -- on, or is blank. Nothing that is drawn for another pane, no name and no bar is in it.
  pub draw_grid-window :
      (k : ℕ)
      → (grid_of d w).rows < h
      → c < grid_columns d
      → get_elem? d.panes (r * grid_columns d + c) ≡ some p
      → k < content_height (grid_of d w) h r
      → i < share (grid_of d w).column_total (grid_columns d) c
      → Tiled d w h (row_at (grid_of d w) h r + 1 + k) (column_at (grid_of d w) c + i) (
          get_or
            (part p.horizontal_offset (share (grid_of d w).column_total (grid_columns d) c) (
              get_or
                (take
                  (content_height (grid_of d w) h r)
                  (visible_lines p (content_height (grid_of d w) h r)))
                k
                []))
            i
            b' ')
  draw_grid-window k fits hc here hk hi =
      let y = row_at grid h r + 1 in
      let x = column_at grid c in
      let hr = row_of_pane d w r c p hc here in
      as_value d w h (y + k) (x + i) _ _
        (row_picture-window d grid h r c (y + k) (x + i) (content_height grid h r) b' ' hc
            (omega arith) (omega arith) (omega arith)
          ∙ rw here (block_inside y x p.horizontal_offset _ k i b' ' _))
        (draw_grid-Tiled (y + k) fits hr hc hi (omega arith) (omega arith))

  -- Above each window stands the pane's name on a rule of dashes, cut at the pane's width and two
  -- cells in where both fit: its number, " v " and its title, then for an application the endpoint,
  -- and the marks " (ended)", " !" for an alert and " *" for the focus, each where it holds.
  pub draw_grid-name :
      (grid_of d w).rows < h
      → c < grid_columns d
      → get_elem? d.panes (r * grid_columns d + c) ≡ some p
      → i < share (grid_of d w).column_total (grid_columns d) c
      → Tiled d w h (row_at (grid_of d w) h r) (column_at (grid_of d w) c + i) (
          let width = share (grid_of d w).column_total (grid_columns d) c in
          let index = r * grid_columns d + c in
          let label = name_shown (index + 1) p (index == d.focus) in
          let start : ℕ = if leb (length label + 2) width then 2 else 0 in
          if leb start i then get_or label (i - start) b'-' else b'-')
  draw_grid-name fits hc here hi =
      let y = row_at grid h r in
      let x = column_at grid c in
      let hr = row_of_pane d w r c p hc here in
      as_value d w h y (x + i) _ _
        (row_picture-name d grid h r c y (x + i) (content_height grid h r) b' ' hc refl
            (omega arith) (omega arith)
          ∙ rw (here, ← pane_label-name_shown d (r * grid_columns d + c) p)
              (label_inside y x _ _ i b'-' _ hi))
        (draw_grid-Tiled y fits hr hc hi (omega arith) (omega arith))
