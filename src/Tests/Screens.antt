-- ===== src/Tests/Screens.antt =====
-- Drawings of tools/te-rs/src/ui.rs on a terminal of 80 columns and 24 lines.
use sw_tos.Base.{◌≤◌, [], ◌∷◌, concat, some, ◌≡◌, refl, arith, codes, length}
use sw_tos.Ui.Canvas.{Canvas, IsShaped}
use sw_tos.Ui.Desktop.{Desktop, new_desktop}
use sw_tos.Ui.Pane.{Pane, shell, application, debugger, new_pane, visible_lines}
use sw_tos.Ui.Render.{pane_label}
use sw_tos.Ui.Render.Boxes.{
  draw_body, blank, render, screen_rows, truncate, status_line, end_of_line,
}
use sw_tos.Ui.Render.Drawn.{render-IsShaped}
use sw_tos.Ui.Render.Panes.{Tiled, draw_grid-window, draw_grid-name}
use sw_tos.Format.{decimal, digits, digit}

-- The second pane has a line of text, which is scrolled by a column.
abbrev greeting : Pane
greeting = record (new_pane application 1 (codes "Application") 100) {
  lines = codes "hello" ∷ [];
  horizontal_offset = 1;
}

abbrev shell_pane : Pane
shell_pane = new_pane shell 0 (codes "Shell") 100

abbrev desk : Desktop
desk = record (new_desktop 100) {
  panes = shell_pane ∷ greeting ∷ new_pane debugger 254 (codes "Debugger") 100 ∷ [];
}

draw_grid-window_example : Tiled desk 80 22 1 42 b'l'
unfolding visible_lines
draw_grid-window_example =
    draw_grid-window desk 80 22 0 1 2 greeting 0 (omega arith) (omega arith) refl (omega arith)
      (omega arith)

draw_grid-name_example : Tiled desk 80 22 0 42 b'2'
unfolding pane_label decimal digits digit
draw_grid-name_example =
    draw_grid-name desk 80 22 0 1 2 greeting (omega arith) (omega arith) refl (omega arith)

render-IsShaped_example :
    (canvas : Canvas) × IsShaped 80 22 canvas
    × (draw_body desk 80 22 (blank 80 22) ≡ some canvas)
    × (render desk 80 24
        ≡ some (
            concat (
              (27 ∷ b'[' ∷ b'H' ∷ [])
              ∷ screen_rows canvas
              ∷ truncate (status_line desk shell_pane) 80
              ∷ end_of_line
              ∷ [])))
    × (length (truncate (status_line desk shell_pane) 80) ≤ 80)
render-IsShaped_example = render-IsShaped desk shell_pane 80 24 refl
