-- ===== src/Ui/Render/Outline.antt =====
-- The edges, the title and the lines of a box of tools/te-rs/src/ui.rs stay on the canvas.
use sw_tos.Base.{
  ℕ, zero, suc, ◌+◌, ◌-◌, ◌≤◌, ◌<◌, List, [], ◌∷◌, ◌++◌, Option, some, true, ltb, ◌≡◌, refl, ◌∙◌,
  arith, Text, length, length-append, length-take, length-drop, get_or, set, take, drop,
}
use sw_tos.Format.{repeat}
use sw_tos.Ui.Canvas.Cells.{get_elem?-get_or, get_or-set, length-set}
use sw_tos.Ui.Canvas.Painting.{dot, write_cell-Paints, Paints-IsDrawn}
use sw_tos.Ui.Canvas.{Canvas, ◌>>=◌, write_cell, IsShaped, IsDrawn}
use sw_tos.Ui.Render.Boxes.{
  BoxSpec, edge, copy_edge, sides, box_cells, box_lines, box_label, draw_edges,
}
use sw_tos.Ui.Render.Strokes.{length-repeat}

module _ (w h : ℕ) where
  pub some-IsDrawn : (canvas : Canvas) → IsShaped w h canvas → IsDrawn w h (some canvas)
  some-IsDrawn canvas s = record { out = canvas; returns = refl; shape = s }

  then-IsDrawn :
      (m : Option Canvas) (next : Canvas → Option Canvas)
      → IsDrawn w h m
      → ((c : Canvas) → IsShaped w h c → IsDrawn w h (next c))
      → IsDrawn w h (m >>= next)
  then-IsDrawn m next p k =
      let q = k p.out p.shape in
      record { out = q.out; returns = rw p.returns q.returns; shape = q.shape }

  write_cell-IsDrawn :
      (y x c : ℕ) (canvas : Canvas)
      → IsShaped w h canvas
      → y < h
      → x < w
      → IsDrawn w h (write_cell y x c canvas)
  write_cell-IsDrawn y x c canvas s hy hx =
      Paints-IsDrawn w h (dot y x c) canvas (write_cell y x c canvas)
        (write_cell-Paints w h y x c canvas s hy hx)

  pub set-IsShaped :
      (y : ℕ) (row : Text) (canvas : Canvas)
      → IsShaped w h canvas
      → length row ≡ w
      → IsShaped w h (set canvas y row)
  set-IsShaped y row canvas s same = record {
    rows = length-set canvas y row ∙ s.rows;
    widths = λ j hj. ground (arith, get_or-set canvas y j row [], s.widths j hj, same);
  }

  copy_edge-IsDrawn :
      (y x right : ℕ) (run : Text) (canvas : Canvas)
      → IsShaped w h canvas
      → y < h
      → right < w
      → x + length run ≡ right + 1
      → IsDrawn w h (copy_edge y x right run canvas)
  unfolding copy_edge
  copy_edge-IsDrawn y x right run canvas s hy hr size =
      let row = get_or canvas y [] in
      let inside : ltb right (length row) ≡ true = ground (arith, s.widths y hy) in
      rw (get_elem?-get_or canvas y [] (omega (arith, s.rows)), inside)
        (some-IsDrawn (set canvas y (take x row ++ (run ++ drop (right + 1) row))) (
          set-IsShaped y (take x row ++ (run ++ drop (right + 1) row)) canvas s (
            omega (
              arith,
              length-append (take x row) (run ++ drop (right + 1) row),
              length-append run (drop (right + 1) row),
              length-take x row,
              length-drop (right + 1) row,
              s.widths y hy,
            ))))

  sides-IsDrawn :
      (left y x right : ℕ) (canvas : Canvas)
      → IsShaped w h canvas
      → y + left ≤ h
      → x < w
      → right < w
      → IsDrawn w h (sides left y x right canvas)
  unfolding sides
  sides-IsDrawn zero y x right canvas s hy hx hr = some-IsDrawn canvas s
  sides-IsDrawn (suc left) y x right canvas s hy hx hr =
      then-IsDrawn (write_cell y x b'|' canvas) _
        (write_cell-IsDrawn y x b'|' canvas s (omega arith) hx)
        (λ t k.
          then-IsDrawn (write_cell y right b'|' t) (sides left (y + 1) x right)
            (write_cell-IsDrawn y right b'|' t k (omega arith) hr)
            (λ u m. sides-IsDrawn left (y + 1) x right u m (omega arith) hx hr))

  box_cells-IsDrawn :
      (text : Text) (y x : ℕ) (canvas : Canvas)
      → IsShaped w h canvas
      → y < h
      → x + length text ≤ w
      → IsDrawn w h (box_cells text y x canvas)
  unfolding box_cells
  box_cells-IsDrawn [] y x canvas s hy hx = some-IsDrawn canvas s
  box_cells-IsDrawn (c ∷ text) y x canvas s hy hx =
      then-IsDrawn (write_cell y x c canvas) (box_cells text y (x + 1))
        (write_cell-IsDrawn y x c canvas s hy (omega arith))
        (λ t k. box_cells-IsDrawn text y (x + 1) t k hy (omega arith))

  box_lines-IsDrawn :
      (spec : BoxSpec) (lines : List Text) (y : ℕ) (canvas : Canvas)
      → IsShaped w h canvas
      → 2 ≤ spec.width
      → spec.x + spec.width ≤ w
      → y + length lines ≤ h
      → IsDrawn w h (box_lines spec lines y canvas)
  unfolding box_lines
  box_lines-IsDrawn spec [] y canvas s two hx hy = some-IsDrawn canvas s
  box_lines-IsDrawn spec (line ∷ lines) y canvas s two hx hy =
      let shown = take (spec.width - 2) (drop spec.horizontal_offset line) in
      then-IsDrawn (box_cells shown y (spec.x + 1) canvas) (box_lines spec lines (y + 1))
        (box_cells-IsDrawn shown y (spec.x + 1) canvas s (omega arith)
          (omega (arith, length-take (spec.width - 2) (drop spec.horizontal_offset line))))
        (λ t k. box_lines-IsDrawn spec lines (y + 1) t k two hx (omega arith))

  edge_lem : (n : ℕ) → 2 ≤ n → (run : Text) × (edge n ≡ some run) × (length run ≡ n)
  unfolding edge
  edge_lem zero h = absurd (omega arith)
  edge_lem (suc zero) h = absurd (omega arith)
  edge_lem (suc (suc n)) h =
      let middle : Text = repeat n b'-' in
      let last : Text = b'+' ∷ [] in
      (
        b'+' ∷ (middle ++ last),
        refl,
        omega (arith, length-append middle last, length-repeat {A = ℕ} n b'-'),
      )

  pub draw_edges-IsDrawn :
      (spec : BoxSpec) (canvas : Canvas)
      → IsShaped w h canvas
      → 2 ≤ spec.width
      → 2 ≤ spec.height
      → spec.x + spec.width ≤ w
      → spec.y + spec.height ≤ h
      → IsDrawn w h (draw_edges spec (spec.x + spec.width - 1) (spec.y + spec.height - 1) canvas)
  unfolding draw_edges
  draw_edges-IsDrawn spec canvas s hw hh fx fy =
      let right = spec.x + spec.width - 1 in
      let bottom = spec.y + spec.height - 1 in
      let inner = bottom - (spec.y + 1) in
      let (run, made, size) = edge_lem (right + 1 - spec.x) (omega arith) in
      let label = take (spec.width - 2) (box_label spec) in
      let lines = take inner spec.lines in
      let fits : spec.x + length run ≡ right + 1 = omega (arith, size) in
      rw made (
        then-IsDrawn (copy_edge spec.y spec.x right run canvas) _
          (copy_edge-IsDrawn spec.y spec.x right run canvas s (omega arith) (omega arith) fits)
          (λ c1 s1.
            then-IsDrawn (copy_edge bottom spec.x right run c1) _
              (copy_edge-IsDrawn bottom spec.x right run c1 s1 (omega arith) (omega arith) fits)
              (λ c2 s2.
                then-IsDrawn (sides inner (spec.y + 1) spec.x right c2) _
                  (sides-IsDrawn inner (spec.y + 1) spec.x right c2 s2 (omega arith) (omega arith)
                    (omega arith))
                  (λ c3 s3.
                    then-IsDrawn (box_cells label spec.y (spec.x + 1) c3)
                      (box_lines spec lines (spec.y + 1))
                      (box_cells-IsDrawn label spec.y (spec.x + 1) c3 s3 (omega arith)
                        (omega (arith, length-take (spec.width - 2) (box_label spec))))
                      (λ c4 s4.
                        box_lines-IsDrawn spec lines (spec.y + 1) c4 s4 hw fx
                          (omega (arith, length-take inner spec.lines)))))))
