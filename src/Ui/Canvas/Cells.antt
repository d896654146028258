-- ===== src/Ui/Canvas/Cells.antt =====
-- What a write of a cell does to a canvas of a shape.
use sw_tos.Ui.Canvas.{Canvas, write_cell, write_inside, IsShaped, cell}
use sw_tos.Base.{
  ℕ, zero, suc, ◌<◌, List, [], ◌∷◌, some, ltb, ◌==◌, ◌&&◌, if◌then◌else◌, ◌≡◌, refl, ap, ◌∙◌, arith,
  length, get_elem?, get_or, set, Bool-cases, inl, inr,
}

module _ {ℓ} {A : Type ℓ} where
  pub get_elem?-get_or :
      (xs : List A) (i : ℕ) (d : A) → i < length xs → get_elem? xs i ≡ some (get_or xs i d)
  get_elem?-get_or [] i d h = absurd (omega arith)
  get_elem?-get_or (x ∷ xs) zero d h = refl
  get_elem?-get_or (x ∷ xs) (suc i) d h = get_elem?-get_or xs i d (omega arith)

  pub length-set : (xs : List A) (i : ℕ) (v : A) → length (set xs i v) ≡ length xs
  length-set [] i v = refl
  length-set (x ∷ xs) zero v = refl
  length-set (x ∷ xs) (suc i) v = ap suc (length-set xs i v)

  pub get_or-set :
      (xs : List A) (i j : ℕ) (v d : A)
      → get_or (set xs i v) j d ≡ (if i == j && ltb i (length xs) then v else get_or xs j d)
  get_or-set [] i j v d = ground arith
  get_or-set (x ∷ xs) zero zero v d = ground arith
  get_or-set (x ∷ xs) zero (suc j) v d = ground arith
  get_or-set (x ∷ xs) (suc i) zero v d = ground arith
  get_or-set (x ∷ xs) (suc i) (suc j) v d = ground (arith, get_or-set xs i j v d)

-- A write of a cell: the canvas with the cell.
abbrev pub with_cell : ℕ → ℕ → ℕ → Canvas → Canvas
with_cell y x character canvas = set canvas y (set (get_or canvas y []) x character)

module _ (w h : ℕ) where
  pub with_cell-IsShaped :
      (y x ch : ℕ) (canvas : Canvas)
      → IsShaped w h canvas
      → y < h
      → IsShaped w h (with_cell y x ch canvas)
  with_cell-IsShaped y x ch canvas s hy = record {
    rows = length-set canvas y _ ∙ s.rows;
    widths = λ j hj. ground (
      arith,
      get_or-set canvas y j (set (get_or canvas y []) x ch) [],
      s.widths j hj,
      s.widths y hy,
      length-set (get_or canvas y []) x ch,
    );
  }

  pub cell-with_cell :
      (y x ch : ℕ) (canvas : Canvas)
      → IsShaped w h canvas
      → y < h
      → x < w
      → (j i : ℕ)
      → cell (with_cell y x ch canvas) j i ≡ (if y == j && x == i then ch else cell canvas j i)
  cell-with_cell y x ch canvas s hy hx j i =
      let row = get_or canvas y [] in
      elim (Bool-cases (y == j)) [
        | inl e ↦
            rw (get_or-set canvas y j (set row x ch) [], e)
              (let same : y ≡ j = ground arith in
                rw (← same) (ground (arith, get_or-set row x i ch 0, s.rows, s.widths y hy)))
        | inr n ↦ rw (get_or-set canvas y j (set row x ch) [], n) refl
      ]

  pub write_cell-with_cell :
      (y x ch : ℕ) (canvas : Canvas)
      → IsShaped w h canvas
      → y < h
      → x < w
      → write_cell y x ch canvas ≡ some (with_cell y x ch canvas)
  unfolding write_cell
  write_cell-with_cell y x ch canvas s hy hx =
      rw (get_elem?-get_or canvas y [] (omega (arith, s.rows))) (ground (arith, s.widths y hy))

  pub write_inside-cases :
      (y x ch : ℕ) (canvas : Canvas)
      → IsShaped w h canvas
      → y < h
      → write_inside y x ch canvas ≡ some (if ltb x w then with_cell y x ch canvas else canvas)
  unfolding write_inside
  write_inside-cases y x ch canvas s hy =
      rw (get_elem?-get_or canvas y [] (omega (arith, s.rows))) (ground (arith, s.widths y hy))
