-- ===== src/Ui/Render/Places.antt =====
-- Where the tiling of tools/te-rs/src/ui.rs puts the name and the text of each pane.
use sw_tos.Base.{
  ℕ, zero, suc, ◌+◌, ◌-◌, ◌*◌, ◌≤◌, ◌<◌, List, [], ◌∷◌, Option, none, some, ◌==◌, ◌≡◌, ◌≢◌, refl,
  arith, length, length-take, get_or, get_elem?, take, drop, Bool-cases, ◌⊎◌, inl, inr,
}
use sw_tos.Ui.Canvas.Painting.{over}
use sw_tos.Ui.Canvas.{Picture}
use sw_tos.Ui.Desktop.{Desktop}
use sw_tos.Ui.Pane.{Pane, visible_lines}
use sw_tos.Ui.Render.Pictures.{
  window, name_over, window_in, name_in, mark, columns_picture, names_picture, rows_picture,
}
use sw_tos.Ui.Render.Shares.{begin, begin_ordered, begin-share}
use sw_tos.Ui.Render.Strokes.{part, dashes, bars, nothing}
use sw_tos.Ui.Render.Tiling.{content_height}
use sw_tos.Ui.Render.{Grid}
use sw_tos.Ui.Render.Windows.{tiles_off}

get_or_out {ℓ} : {A : Type ℓ} (xs : List A) (i : ℕ) (d : A) → length xs ≤ i → get_or xs i d ≡ d
get_or_out [] i d h = refl
get_or_out (x ∷ xs) zero d h = absurd (omega arith)
get_or_out (x ∷ xs) (suc i) d h = get_or_out xs i d (omega arith)

window_rows :
    (pane : Option Pane) (y x width height j i old : ℕ)
    → (j < y) ⊎ (y + height ≤ j)
    → window pane y x width height j i old ≡ old
window_rows none y x width height j i old h = refl
window_rows (some p) y x width height j i old (inl above) = ground arith
window_rows (some p) y x width height j i old (inr below) =
    let lines = take height (visible_lines p height) in
    rw
      (
        get_or_out lines (j - y) [] (omega (arith, length-take height (visible_lines p height))),
        nothing p.horizontal_offset width,
      )
      (ground arith)

pub window_before :
    (pane : Option Pane) (y x width height j i old : ℕ)
    → i < x
    → window pane y x width height j i old ≡ old
window_before none y x width height j i old h = refl
window_before (some p) y x width height j i old h = ground arith

pub window_behind :
    (pane : Option Pane) (y x width height j i old : ℕ)
    → x + width ≤ i
    → window pane y x width height j i old ≡ old
window_behind none y x width height j i old h = refl
window_behind (some p) y x width height j i old h =
    let line = get_or (take height (visible_lines p height)) (j - y) [] in
    ground (
      arith,
      get_or_out (part p.horizontal_offset width line) (i - x) old
          (omega (arith, length-take width (drop p.horizontal_offset line))),
    )

pub name_aside :
    (d : Desktop) (pane : Option Pane) (index y x width j i old : ℕ)
    → (y ≢ j) ⊎ ((i < x) ⊎ (x + width ≤ i))
    → name_over d pane index y x width j i old ≡ old
name_aside d none index y x width j i old h = refl
name_aside d (some p) index y x width j i old (inl row) = ground (arith, row)
name_aside d (some p) index y x width j i old (inr (inl before)) = ground arith
name_aside d (some p) index y x width j i old (inr (inr behind)) = ground arith

bars_rows : (y height x j i old : ℕ) → (j < y) ⊎ (y + height ≤ j) → bars y height x j i old ≡ old
bars_rows y height x j i old (inl above) = ground arith
bars_rows y height x j i old (inr below) = ground arith

-- Where a row of panes begins, with the rule over it.
abbrev pub row_at : Grid → ℕ → ℕ → ℕ
row_at grid h row = row + begin (h - grid.rows) grid.rows row

module _ (d : Desktop) (grid : Grid) (h j i : ℕ) where
  pub columns_aside :
      (row y height old : ℕ)
      → (j < y) ⊎ (y + height ≤ j)
      → columns_picture d grid row y height grid.columns 0 0 j i old ≡ old
  columns_aside row y height old out =
      tiles_off grid (window_in d grid row y height) (bars y height) j i grid.columns 0 0 old
        (λ c x o. window_rows (get_elem? d.panes (row * grid.columns + c)) y x _ height j i o out)
        (λ x o. bars_rows y height x j i o out)

  pub names_aside :
      (row y old : ℕ) → y ≢ j → names_picture d grid y row grid.columns 0 0 j i old ≡ old
  names_aside row y old out =
      tiles_off grid (name_in d grid row y) (mark y) j i grid.columns 0 0 old
        (λ c x o. name_aside d _ _ y x _ j i o (inl out)) (λ x o. ground (arith, out))

  rows_above : (left row y old : ℕ) → j < y → rows_picture d grid h left row y j i old ≡ old
  unfolding rows_picture
  rows_above zero row y old out = refl
  rows_above (suc left) row y old out =
      let lines = content_height grid h row in
      let other : y ≢ j = λ e. omega (arith, e, out) in
      let dash : dashes y j i old ≡ old = ground (arith, out) in
      rw
        (dash, names_aside row y old other, columns_aside row (y + 1) lines old (inl (omega arith)))
        (rows_above left (row + 1) (y + 1 + lines) old (omega arith))

  -- A row of panes: the rule with the names, and below it the windows.
  unfoldable pub row_picture : ℕ → ℕ → ℕ → Picture
  row_picture row y lines =
      over (over (dashes y) (names_picture d grid y row grid.columns 0 0))
        (columns_picture d grid row (y + 1) lines grid.columns 0 0)

  row_aside : (row y lines old : ℕ) → y + 1 + lines ≤ j → row_picture row y lines j i old ≡ old
  unfolding row_picture
  row_aside row y lines old out =
      let dash : dashes y j i old ≡ old = ground arith in
      rw
        (
          dash,
          names_aside row y old (λ e. omega (arith, e, out)),
          columns_aside row (y + 1) lines old (inr out),
        )
        refl

  -- A cell comes from the row of panes that it lies in.
  pub rows_at :
      (left row y r old : ℕ)
      → y ≡ row_at grid h row
      → row ≤ r
      → r < row + left
      → left + row ≡ grid.rows
      → row_at grid h r ≤ j
      → j < row_at grid h r + 1 + content_height grid h r
      → rows_picture d grid h left row y j i old
        ≡ row_picture r (row_at grid h r) (content_height grid h r) j i old
  unfolding rows_picture row_picture
  rows_at zero row y r old at low high e from to = absurd (omega arith)
  rows_at (suc left) row y r old at low high e from to =
      let total = h - grid.rows in
      let pieces = grid.rows in
      let lines = content_height grid h row in
      let next = y + 1 + lines in
      let ends = begin-share total pieces row (omega arith) in
      elim (Bool-cases (row == r)) [
        | inl this ↦
            let same : r ≡ row = ground arith in
            let above : j < next = ground (arith, at, same, to) in
            rw (same, ← at) (rows_above left (row + 1) next (row_picture row y lines j i old) above)
        | inr other ↦
            let later : row + 1 ≤ r = ground arith in
            let far = begin_ordered total pieces (row + 1) r (omega arith) later in
            let beyond : y + 1 + lines ≤ j = omega (arith, at, ends, far, later, from) in
            rw (row_aside row y lines old beyond) (
              rows_at left (row + 1) next r old (omega (arith, at, ends)) later (omega arith)
                (omega arith) from to)
      ]
