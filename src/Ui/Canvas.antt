-- ===== src/Ui/Canvas.antt =====
-- The character canvas of `render` in tools/te-rs/src/ui.rs, a `Vec<Vec<char>>`, and the writes of
-- cells. `none` stands for a panic: an index or a slice out of range.
pub mod Cells
pub mod Painting
use sw_tos.Base.{
  ℕ, ◌+◌, ◌≤◌, ◌<◌, List, [], ◌∷◌, Option, none, some, Bool, false, ◌&&◌, ltb, leb, if◌then◌else◌,
  ◌≡◌, refl, Text, length, get_elem?, get_or, set,
}

abbrev pub Canvas : Type 0
Canvas = List Text

infixl 5 ◌>>=◌
abbrev pub ◌>>=◌ {ℓ κ} : {A : Type ℓ} {B : Type κ} → Option A → (A → Option B) → Option B
none >>= next = none
some a >>= next = next a

-- `canvas[y][x] = character`.
abbrev pub put_cell : ℕ → ℕ → ℕ → Text → Canvas → Option Canvas
put_cell y x character row canvas =
    if ltb x (length row) then some (set canvas y (set row x character)) else none

unfoldable pub write_cell : ℕ → ℕ → ℕ → Canvas → Option Canvas
write_cell y x character canvas = do row ← get_elem? canvas y; put_cell y x character row canvas

-- The write under `if x < canvas[y].len()`.
unfoldable pub write_inside : ℕ → ℕ → ℕ → Canvas → Option Canvas
write_inside y x character canvas = do
  row ← get_elem? canvas y
  if ltb x (length row) then some (set canvas y (set row x character)) else some canvas

-- A canvas of a height, whose rows have one width.
pub record IsShaped (w h : ℕ) (canvas : Canvas) : Type 0 where
  pub rows : length canvas ≡ h
  pub widths : (y : ℕ) → y < h → length (get_or canvas y []) ≡ w

-- The cell at a place, zero outside the canvas.
abbrev pub cell : Canvas → ℕ → ℕ → ℕ
cell canvas y x = get_or (get_or canvas y []) x 0

-- A drawing does not panic and keeps the shape of the canvas.
pub record IsDrawn (w h : ℕ) (r : Option Canvas) : Type 0 where
  pub out : Canvas
  pub returns : r ≡ some out
  pub shape : IsShaped w h out

-- What a drawing makes of the cells of a canvas, from what they were.
abbrev pub Picture : Type 0
Picture = ℕ → ℕ → ℕ → ℕ

-- A drawing that does not panic, keeps the shape, and leaves a picture in each cell.
pub record Paints (w h : ℕ) (picture : Picture) (canvas : Canvas) (r : Option Canvas) : Type 0 where
  pub out : Canvas
  pub returns : r ≡ some out
  pub shape : IsShaped w h out
  pub cells : (y x : ℕ) → y < h → x < w → cell out y x ≡ picture y x (cell canvas y x)
