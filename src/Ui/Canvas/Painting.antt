-- ===== src/Ui/Canvas/Painting.antt =====
-- Drawings one after another, and the pictures of single cells.
use sw_tos.Base.{
  ℕ, suc, ◌+◌, ◌-◌, ◌<◌, List, [], ◌∷◌, Option, some, ltb, leb, ◌==◌, ◌&&◌, if◌then◌else◌, ◌≡◌,
  refl, ap, ◌∙◌, arith, Text, get_or, Bool-cases, inl, inr,
}
use sw_tos.Ui.Canvas.Cells.{
  with_cell, with_cell-IsShaped, cell-with_cell, write_cell-with_cell, write_inside-cases,
}
use sw_tos.Ui.Canvas.{
  Canvas, ◌>>=◌, put_cell, write_cell, write_inside, IsShaped, cell, IsDrawn, Picture, Paints,
}

-- A cell gets a character.
abbrev pub dot : ℕ → ℕ → ℕ → Picture
dot y x character j i old = if y == j && x == i then character else old

-- The cells of a row from a column on get the characters of a text.
abbrev pub line_at : ℕ → ℕ → Text → Picture
line_at y x text j i old = if y == j && leb x i then get_or text (i - x) old else old

abbrev pub unchanged : Picture
unchanged j i old = old

abbrev pub over : Picture → Picture → Picture
over below above j i old = above j i (below j i old)

module _ {ℓ} {A : Type ℓ} where
  pub get_or_first :
      (c : A) (line : List A) (i x : ℕ) (d : A) → i ≡ x → get_or (c ∷ line) (i - x) d ≡ c
  get_or_first c line i x d e = let none_before : i - x ≡ 0 = omega arith in rw none_before refl

  pub get_or_later :
      (c : A) (line : List A) (i x : ℕ) (d : A)
      → x < i
      → get_or (c ∷ line) (i - x) d ≡ get_or line (i - (x + 1)) d
  get_or_later c line i x d h =
      let some_before : i - x ≡ suc (i - (x + 1)) = omega arith in rw some_before refl

module _ (w h : ℕ) where
  pub some-Paints :
      (canvas : Canvas) → IsShaped w h canvas → Paints w h unchanged canvas (some canvas)
  some-Paints canvas s = record {
    out = canvas;
    returns = refl;
    shape = s;
    cells = λ y x hy hx. refl;
  }

  pub then-Paints :
      (P Q : Picture) (canvas : Canvas) (m : Option Canvas) (next : Canvas → Option Canvas)
      → Paints w h P canvas m
      → ((c : Canvas) → IsShaped w h c → Paints w h Q c (next c))
      → Paints w h (over P Q) canvas (m >>= next)
  then-Paints P Q canvas m next p k =
      let q = k p.out p.shape in
      record {
        out = q.out;
        returns = rw p.returns q.returns;
        shape = q.shape;
        cells = λ y x hy hx. q.cells y x hy hx ∙ ap (Q y x) (p.cells y x hy hx);
      }

  -- Another description of the same picture.
  pub repainted :
      (P Q : Picture) (canvas : Canvas) (m : Option Canvas)
      → Paints w h P canvas m
      → ((y x : ℕ) → y < h → x < w → P y x (cell canvas y x) ≡ Q y x (cell canvas y x))
      → Paints w h Q canvas m
  repainted P Q canvas m p same = record {
    out = p.out;
    returns = p.returns;
    shape = p.shape;
    cells = λ y x hy hx. p.cells y x hy hx ∙ same y x hy hx;
  }

  pub Paints-IsDrawn :
      (P : Picture) (canvas : Canvas) (m : Option Canvas) → Paints w h P canvas m → IsDrawn w h m
  Paints-IsDrawn P canvas m p = record { out = p.out; returns = p.returns; shape = p.shape }

  pub write_cell-Paints :
      (y x ch : ℕ) (canvas : Canvas)
      → IsShaped w h canvas
      → y < h
      → x < w
      → Paints w h (dot y x ch) canvas (write_cell y x ch canvas)
  write_cell-Paints y x ch canvas s hy hx = record {
    out = with_cell y x ch canvas;
    returns = write_cell-with_cell w h y x ch canvas s hy hx;
    shape = with_cell-IsShaped w h y x ch canvas s hy;
    cells = λ j i hj hi. cell-with_cell w h y x ch canvas s hy hx j i;
  }

  -- The write of a cell of a row that has been read.
  pub put_cell-Paints :
      (y x ch : ℕ) (canvas : Canvas)
      → IsShaped w h canvas
      → y < h
      → x < w
      → Paints w h (dot y x ch) canvas (put_cell y x ch (get_or canvas y []) canvas)
  put_cell-Paints y x ch canvas s hy hx = record {
    out = with_cell y x ch canvas;
    returns = ground (arith, s.widths y hy);
    shape = with_cell-IsShaped w h y x ch canvas s hy;
    cells = λ j i hj hi. cell-with_cell w h y x ch canvas s hy hx j i;
  }

  pub write_inside-Paints :
      (y x ch : ℕ) (canvas : Canvas)
      → IsShaped w h canvas
      → y < h
      → Paints w h (dot y x ch) canvas (write_inside y x ch canvas)
  write_inside-Paints y x ch canvas s hy = elim (Bool-cases (ltb x w)) [
    | inl e ↦ record {
      out = with_cell y x ch canvas;
      returns = rw (write_inside-cases w h y x ch canvas s hy, e) refl;
      shape = with_cell-IsShaped w h y x ch canvas s hy;
      cells = λ j i hj hi. cell-with_cell w h y x ch canvas s hy (ground arith) j i;
    }
    | inr n ↦ record {
      out = canvas;
      returns = rw (write_inside-cases w h y x ch canvas s hy, n) refl;
      shape = s;
      cells = λ j i hj hi. ground arith;
    }
  ]

  -- The first character of a text, and the rest of it a column further.
  pub over-line_at :
      (y x ch : ℕ) (line : Text) (j i old : ℕ)
      → over (dot y x ch) (line_at y (x + 1) line) j i old ≡ line_at y x (ch ∷ line) j i old
  over-line_at y x ch line j i old = elim (Bool-cases (x == i)) [
    | inl e ↦ ground (arith, get_or_first ch line i x old (ground arith))
    | inr n ↦ ground (
      arith,
      λ (later : x < i). get_or_later ch line i x old later,
      λ (later : x < i). get_or_later ch line i x ch later,
    )
  ]
