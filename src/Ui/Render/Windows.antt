-- ===== src/Ui/Render/Windows.antt =====
-- Pieces next to each other, as in the rows of the tiling of tools/te-rs/src/ui.rs, do not overlap.
use sw_tos.Base.{
  ℕ, zero, suc, ◌+◌, ◌≤◌, ◌<◌, Bool, true, false, ltb, ◌==◌, ◌≡◌, ◌≢◌, refl, arith, Bool-cases, inl,
  inr,
}
use sw_tos.Ui.Canvas.{Picture}
use sw_tos.Ui.Render.Pictures.{bar_if, tiles_picture}
use sw_tos.Ui.Render.Shares.{begin, begin_ordered, begin-share}
use sw_tos.Ui.Render.{Grid, share, after_column}

-- Where the window of a column begins, after the bars before it.
abbrev pub column_at : Grid → ℕ → ℕ
column_at grid column = column + begin grid.column_total grid.columns column

bar_if_same :
    (b : Bool) (bar : Picture) (j i old : ℕ) → bar j i old ≡ old → bar_if b bar j i old ≡ old
bar_if_same true bar j i old h = h
bar_if_same false bar j i old h = refl

module _ (grid : Grid) (piece : ℕ → ℕ → Picture) (bar : ℕ → Picture) (j i : ℕ) where
  -- A place that no piece and no bar is at.
  pub tiles_off :
      (left column x old : ℕ)
      → ((c x old : ℕ) → piece c x j i old ≡ old)
      → ((x old : ℕ) → bar x j i old ≡ old)
      → tiles_picture grid piece bar left column x j i old ≡ old
  unfolding tiles_picture
  tiles_off zero column x old hp hb = refl
  tiles_off (suc left) column x old hp hb =
      let width = share grid.column_total grid.columns column in
      rw
        (
          hp column x old,
          bar_if_same (ltb (column + 1) grid.columns) (bar (x + width)) j i old
              (hb (x + width) old),
        )
        (tiles_off left (column + 1) (x + width + after_column grid column) old hp hb)

  module _ (before : (c x old : ℕ) → i < x → piece c x j i old ≡ old)
      (behind : (c x old : ℕ)
        → x + share grid.column_total grid.columns c ≤ i
        → piece c x j i old ≡ old)
      (bar_aside : (x old : ℕ) → i ≢ x → bar x j i old ≡ old) where
    bar_if_aside : (b : Bool) (x old : ℕ) → i ≢ x → bar_if b (bar x) j i old ≡ old
    bar_if_aside b x old h = bar_if_same b (bar x) j i old (bar_aside x old h)

    pub tiles_before :
        (left column x old : ℕ) → i < x → tiles_picture grid piece bar left column x j i old ≡ old
    unfolding tiles_picture
    tiles_before zero column x old h = refl
    tiles_before (suc left) column x old h =
        let width = share grid.column_total grid.columns column in
        let next = x + width + after_column grid column in
        rw
          (
            before column x old h,
            bar_if_aside (ltb (column + 1) grid.columns) (x + width) old (λ e. omega (arith, h, e)),
          )
          (tiles_before left (column + 1) next old (omega arith))

    -- A cell of a column comes from the piece of the column alone.
    pub tiles_at :
        (left column x c old : ℕ)
        → x ≡ column_at grid column
        → column ≤ c
        → c < column + left
        → column + left ≡ grid.columns
        → column_at grid c ≤ i
        → i < column_at grid c + share grid.column_total grid.columns c
        → tiles_picture grid piece bar left column x j i old ≡ piece c (column_at grid c) j i old
    unfolding tiles_picture
    tiles_at zero column x c old at low high e from to = absurd (omega arith)
    tiles_at (suc left) column x c old at low high e from to =
        let total = grid.column_total in
        let pieces = grid.columns in
        let width = share total pieces column in
        let next = x + width + after_column grid column in
        let ends = begin-share total pieces column (omega arith) in
        elim (Bool-cases (column == c)) [
          | inl this ↦
              let same : c ≡ column = ground arith in
              let inside : i < x + width = ground (arith, at, same, to) in
              rw (same, ← at)
                (rw
                  (
                    bar_if_aside (ltb (column + 1) pieces) (x + width) (piece column x j i old)
                        (λ q. omega (arith, q, inside)),
                    tiles_before left (column + 1) next (piece column x j i old) (omega arith),
                  )
                  refl)
          | inr other ↦
              let later : column + 1 ≤ c = ground arith in
              let last : after_column grid column ≡ 1 = ground arith in
              let far = begin_ordered total pieces (column + 1) c (omega arith) later in
              let beyond : x + width < i = omega (arith, at, ends, far, later) in
              rw
                (
                  behind column x old (omega (arith, beyond)),
                  bar_if_aside (ltb (column + 1) pieces) (x + width) old
                      (λ q. omega (arith, q, beyond)),
                )
                (tiles_at left (column + 1) next c old (omega (arith, at, ends, last)) later
                  (omega arith) (omega arith) from to)
        ]
