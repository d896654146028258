-- ===== src/Ui/Render/Drawn.antt =====
-- `render` of tools/te-rs/src/ui.rs and its boxes draw without a panic.
use sw_tos.Base.{
  ℕ, ◌+◌, ◌-◌, ◌≤◌, ◌<◌, min, max, [], ◌∷◌, concat, some, false, ◌||◌, ltb, leb, ◌==◌, ◌≡◌, refl,
  ap, arith, length, length-take, get_or, append-nil, Bool-cases, inl, inr,
}
use sw_tos.Ui.Canvas.Painting.{Paints-IsDrawn}
use sw_tos.Ui.Canvas.{Canvas, IsShaped, IsDrawn}
use sw_tos.Ui.Desktop.{Desktop, focused}
use sw_tos.Ui.Pane.{Pane}
use sw_tos.Ui.Render.Boxes.{
  BoxSpec, last_column, draw_box, pane_box, draw_pane, help_box, draw_body, status_line,
  end_of_line, screen_rows, truncate, screen, blank_line, blank, render,
}
use sw_tos.Ui.Render.Tiling.{grid_of, tile_rows, draw_grid}
use sw_tos.Ui.Render.Pictures.{rows_picture}
use sw_tos.Ui.Render.Painted.{grid-Paints}
use sw_tos.Ui.Render.Strokes.{length-repeat, get_or-repeat}
use sw_tos.Ui.Render.Outline.{some-IsDrawn, draw_edges-IsDrawn}

module _ (w h : ℕ) where
  last_column-width :
      (canvas : Canvas) → IsShaped w h canvas → 0 < h → 0 < w → last_column canvas ≡ some (w - 1)
  last_column-width [] s hh hw = absurd (omega (arith, s.rows))
  last_column-width ([] ∷ rows) s hh hw = absurd (omega (arith, s.widths 0 hh))
  last_column-width ((c ∷ cs) ∷ rows) s hh hw = ap some (omega (arith, s.widths 0 hh))

  draw_box-IsDrawn :
      (spec : BoxSpec) (canvas : Canvas)
      → IsShaped w h canvas
      → 2 ≤ spec.width
      → 2 ≤ spec.height
      → spec.x + spec.width ≤ w
      → spec.y + spec.height ≤ h
      → IsDrawn w h (draw_box canvas spec)
  unfolding draw_box
  draw_box-IsDrawn spec canvas s hw hh fx fy =
      let goes : (ltb spec.width 2 || ltb spec.height 2 || leb (length canvas) spec.y) ≡ false =
        ground (arith, s.rows) in
      let right : min (spec.x + spec.width - 1) (w - 1) ≡ spec.x + spec.width - 1 = omega arith in
      let bottom : min (spec.y + spec.height - 1) (length canvas - 1) ≡ spec.y + spec.height - 1 =
        omega (arith, s.rows) in
      rw (goes, last_column-width canvas s (omega arith) (omega arith), right, bottom)
        (draw_edges-IsDrawn w h spec canvas s hw hh fx fy)

  draw_pane-IsDrawn :
      (d : Desktop) (p : Pane) (canvas : Canvas)
      → focused d ≡ some p
      → IsShaped w h canvas
      → 2 ≤ w
      → 2 ≤ h
      → IsDrawn w h (draw_pane d canvas d.focus 0 0 w h)
  unfolding draw_pane
  draw_pane-IsDrawn d p canvas here s hw hh =
      rw here
        (draw_box-IsDrawn (pane_box d d.focus 0 0 w h p) canvas s hw hh (omega arith) (omega arith))

  draw_grid-IsDrawn :
      (d : Desktop) (canvas : Canvas) → IsShaped w h canvas → IsDrawn w h (draw_grid d canvas w h)
  unfolding draw_grid
  draw_grid-IsDrawn d canvas s =
      let grid = grid_of d w in
      elim (Bool-cases (grid.rows == 0 || leb h grid.rows)) [
        | inl e ↦ rw e (some-IsDrawn w h canvas s)
        | inr n ↦ rw n (
            Paints-IsDrawn w h (rows_picture d grid h grid.rows 0 0) canvas
              (tile_rows d grid h grid.rows 0 0 canvas)
              (grid-Paints w h d grid canvas s refl (ground arith) (ground arith)))
      ]

  draw_body-IsDrawn :
      (d : Desktop) (p : Pane) (canvas : Canvas)
      → focused d ≡ some p
      → IsShaped w h canvas
      → 2 ≤ w
      → 2 ≤ h
      → IsDrawn w h (draw_body d w h canvas)
  unfolding draw_body
  draw_body-IsDrawn d p canvas here s hw hh = elim (Bool-cases d.help) [
    | inl e ↦ rw e (draw_box-IsDrawn (help_box d w h) canvas s hw hh (omega arith) (omega arith))
    | inr n ↦ elim (Bool-cases d.zoomed) [
      | inl e ↦ rw (n, e) (draw_pane-IsDrawn d p canvas here s hw hh)
      | inr m ↦ rw (n, m) (draw_grid-IsDrawn d canvas s)
    ]
  ]

  pub blank_row : (y : ℕ) → y < h → get_or (blank w h) y [] ≡ blank_line w
  blank_row y hy = rw (← append-nil (blank w h)) (get_or-repeat h y (blank_line w) [] [] hy)

  pub blank-IsShaped : IsShaped w h (blank w h)
  blank-IsShaped = record {
    rows = length-repeat h (blank_line w);
    widths = λ y hy. rw (blank_row y hy) (length-repeat {A = ℕ} w b' ');
  }

-- At any size of the terminal, in the help, in a zoomed pane and in the tiling, `render` does not
-- panic if the focus names a pane: it shows rows that all have the width, as many as the height less
-- two, and a status of at most that width; a width below 24 counts as 24, a height below 8 as 8.
pub render-IsShaped :
    (d : Desktop) (p : Pane) (width height : ℕ)
    → focused d ≡ some p
    → (canvas : Canvas) × IsShaped (max width 24) (max height 8 - 2) canvas
      × (draw_body d (max width 24) (max height 8 - 2) (blank (max width 24) (max height 8 - 2))
          ≡ some canvas)
      × (render d width height
          ≡ some (
              concat (
                (27 ∷ b'[' ∷ b'H' ∷ [])
                ∷ screen_rows canvas
                ∷ truncate (status_line d p) (max width 24)
                ∷ end_of_line
                ∷ [])))
      × (length (truncate (status_line d p) (max width 24)) ≤ max width 24)
unfolding render screen truncate
render-IsShaped d p width height here =
    let w = max width 24 in
    let h = max height 8 - 2 in
    let r =
      draw_body-IsDrawn w h d p (blank w h) here (blank-IsShaped w h) (omega arith) (omega arith) in
    (
      r.out,
      r.shape,
      r.returns,
      rw (r.returns, here) refl,
      omega (arith, length-take w (status_line d p)),
    )
