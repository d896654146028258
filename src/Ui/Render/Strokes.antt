-- ===== src/Ui/Render/Strokes.antt =====
-- What the loops over cells of `draw_rule` and `draw_pane_content` of tools/te-rs/src/ui.rs paint.
use sw_tos.Base.{
  ℕ, zero, suc, ◌+◌, ◌-◌, ◌≤◌, ◌<◌, min, List, [], ◌∷◌, ◌++◌, some, false, ltb, leb, ◌==◌, ◌&&◌,
  if◌then◌else◌, ◌≡◌, refl, ap, ◌∙◌, arith, Text, length, get_or, set, take, drop, length-append,
  length-drop, Bool-cases, inl, inr,
}
use sw_tos.Format.{repeat}
use sw_tos.Ui.Canvas.Cells.{get_elem?-get_or, get_or-set, length-set}
use sw_tos.Ui.Canvas.Painting.{
  dot, line_at, unchanged, over, get_or_first, get_or_later, some-Paints, then-Paints, repainted,
  put_cell-Paints, write_inside-Paints, over-line_at,
}
use sw_tos.Ui.Canvas.{Canvas, put_cell, write_inside, IsShaped, cell, Picture, Paints}
use sw_tos.Ui.Render.{write_chars, ruled, content_cells, content_lines, bar_lines}

-- The part of a line that a window shows.
abbrev pub part : ℕ → ℕ → Text → Text
part offset width line = take width (drop offset line)

-- The cells from a place on, right and down, get the parts of the lines.
abbrev pub block : ℕ → ℕ → ℕ → ℕ → List Text → Picture
block y x offset width lines j i old =
    if leb y j && leb x i
    then get_or (part offset width (get_or lines (j - y) [])) (i - x) old
    else old

-- A name, up to a column.
abbrev pub label_at : ℕ → ℕ → ℕ → Text → Picture
label_at y x end text j i old =
    if y == j && (leb x i && ltb i end) then get_or text (i - x) old else old

-- A row gets one character.
abbrev pub dashes : ℕ → Picture
dashes y j i old = if y == j then b'-' else old

abbrev pub bars : ℕ → ℕ → ℕ → Picture
bars y left x j i old = if leb y j && ltb j (y + left) && x == i then b'|' else old

pub nothing : (offset width : ℕ) → part offset width [] ≡ []
nothing zero zero = refl
nothing zero (suc width) = refl
nothing (suc offset) zero = refl
nothing (suc offset) (suc width) = refl

over-label_at :
    (y x end c : ℕ) (line : Text) (j i old : ℕ)
    → x < end
    → over (dot y x c) (label_at y (x + 1) end line) j i old ≡ label_at y x end (c ∷ line) j i old
over-label_at y x end c line j i old h = elim (Bool-cases (x == i)) [
  | inl e ↦ ground (arith, get_or_first c line i x old (ground arith))
  | inr n ↦ ground (
    arith,
    λ (later : x < i). get_or_later c line i x old later,
    λ (later : x < i). get_or_later c line i x c later,
  )
]

module _ {A : Type 0} where
  pub get_or-repeat :
      (n i : ℕ) (c d : A) (rest : List A) → i < n → get_or (repeat n c ++ rest) i d ≡ c
  unfolding repeat
  get_or-repeat zero i c d rest h = absurd (omega arith)
  get_or-repeat (suc n) zero c d rest h = refl
  get_or-repeat (suc n) (suc i) c d rest h = get_or-repeat n i c d rest (omega arith)

  pub length-repeat : (n : ℕ) (c : A) → length (repeat n c) ≡ n
  unfolding repeat
  length-repeat zero c = refl
  length-repeat (suc n) c = ap suc (length-repeat n c)

module _ (w h : ℕ) where
  pub content_cells-Paints :
      (text : Text) (y x : ℕ) (canvas : Canvas)
      → IsShaped w h canvas
      → y < h
      → Paints w h (line_at y x text) canvas (content_cells text y x canvas)
  unfolding content_cells
  content_cells-Paints [] y x canvas s hy =
      repainted w h unchanged (line_at y x []) canvas (some canvas) (some-Paints w h canvas s)
        (λ j i hj hi. ground arith)
  content_cells-Paints (c ∷ line) y x canvas s hy =
      repainted w h (over (dot y x c) (line_at y (x + 1) line)) (line_at y x (c ∷ line)) canvas
        (content_cells (c ∷ line) y x canvas)
        (then-Paints w h (dot y x c) (line_at y (x + 1) line) canvas (write_inside y x c canvas)
          (content_cells line y (x + 1)) (write_inside-Paints w h y x c canvas s hy)
          (λ t k. content_cells-Paints line y (x + 1) t k hy))
        (λ j i hj hi. over-line_at w h y x c line j i (cell canvas j i))

  over-block :
      (offset width y x : ℕ) (line : Text) (lines : List Text) (j i old : ℕ)
      → over (line_at y x (part offset width line)) (block (y + 1) x offset width lines) j i old
        ≡ block y x offset width (line ∷ lines) j i old
  over-block offset width y x line lines j i old = elim (Bool-cases (y == j)) [
    | inl e ↦ ground (arith, get_or_first line lines j y [] (ground arith))
    | inr n ↦ ground (arith, λ (later : y < j). get_or_later line lines j y [] later)
  ]

  pub content_lines-Paints :
      (offset width : ℕ) (lines : List Text) (y x : ℕ) (canvas : Canvas)
      → IsShaped w h canvas
      → Paints w h
          (block y x offset width lines)
          canvas
          (content_lines offset width lines y x canvas)
  unfolding content_lines
  content_lines-Paints offset width [] y x canvas s =
      repainted w h unchanged (block y x offset width []) canvas (some canvas)
        (some-Paints w h canvas s) (λ j i hj hi. rw (nothing offset width) (ground arith))
  content_lines-Paints offset width (line ∷ lines) y x canvas s =
      elim (Bool-cases (leb (length canvas) y)) [
        | inl e ↦ rw e (
            repainted w h unchanged (block y x offset width (line ∷ lines)) canvas (some canvas)
              (some-Paints w h canvas s) (λ j i hj hi. ground (arith, s.rows)))
        | inr n ↦ rw n (
            repainted w h
              (over (line_at y x (part offset width line)) (block (y + 1) x offset width lines))
              (block y x offset width (line ∷ lines)) canvas _
              (then-Paints w h (line_at y x (part offset width line))
                (block (y + 1) x offset width lines) canvas
                (content_cells (part offset width line) y x canvas)
                (content_lines offset width lines (y + 1) x)
                (content_cells-Paints (part offset width line) y x canvas s
                  (ground (arith, s.rows)))
                (λ t k. content_lines-Paints offset width lines (y + 1) x t k))
              (λ j i hj hi. over-block offset width y x line lines j i (cell canvas j i)))
      ]

  pub write_chars-Paints :
      (text : Text) (y x end : ℕ) (canvas : Canvas)
      → IsShaped w h canvas
      → y < h
      → Paints w h (label_at y x end text) canvas (write_chars text y x end canvas)
  unfolding write_chars
  write_chars-Paints [] y x end canvas s hy =
      repainted w h unchanged (label_at y x end []) canvas (some canvas) (some-Paints w h canvas s)
        (λ j i hj hi. ground arith)
  write_chars-Paints (c ∷ text) y x end canvas s hy =
      let kept : ((i : ℕ) → i < w → (leb x i && ltb i end) ≡ false)
          → Paints w h (label_at y x end (c ∷ text)) canvas (some canvas) =
        λ out.
          repainted w h unchanged (label_at y x end (c ∷ text)) canvas (some canvas)
            (some-Paints w h canvas s) (λ j i hj hi. ground (arith, out i hi)) in
      let row = get_elem?-get_or canvas y [] (omega (arith, s.rows)) in
      elim (Bool-cases (leb end x)) [
        | inl e ↦ rw e (kept (λ i hi. ground arith))
        | inr n ↦ elim (Bool-cases (leb (length (get_or canvas y [])) x)) [
          | inl e ↦ rw (n, row, e) (kept (λ i hi. ground (arith, s.widths y hy)))
          | inr m ↦
              rw (n, row, m)
                (repainted w h (over (dot y x c) (label_at y (x + 1) end text))
                  (label_at y x end (c ∷ text)) canvas _
                  (then-Paints w h (dot y x c) (label_at y (x + 1) end text) canvas
                    (put_cell y x c (get_or canvas y []) canvas) (write_chars text y (x + 1) end)
                    (put_cell-Paints w h y x c canvas s hy (ground (arith, s.widths y hy)))
                    (λ t k. write_chars-Paints text y (x + 1) end t k hy))
                  (λ j i hj hi. over-label_at y x end c text j i (cell canvas j i) (ground arith)))
        ]
      ]

  pub ruled-Paints :
      (y : ℕ) (canvas : Canvas)
      → IsShaped w h canvas
      → y < h
      → Paints w h (dashes y) canvas (some (set canvas y (ruled w (get_or canvas y []))))
  ruled-Paints y canvas s hy =
      let old = get_or canvas y [] in
      record {
        out = set canvas y (ruled w old);
        returns = refl;
        shape = record {
          rows = length-set canvas y (ruled w old) ∙ s.rows;
          widths = λ j hj. ground (
            arith,
            get_or-set canvas y j (ruled w old) [],
            s.widths j hj,
            s.widths y hy,
            length-append (repeat (min w (length old)) b'-') (drop w old),
            length-repeat {A = ℕ} (min w (length old)) b'-',
            length-drop w old,
          );
        };
        cells = λ j i hj hi. rw (get_or-set canvas y j (ruled w old) []) (
            ground (
              arith,
              s.rows,
              get_or-repeat (min w (length old)) i b'-' 0 (drop w old)
                  (omega (arith, s.widths y hy)),
            ));
      }

  pub bar_lines-Paints :
      (left y x : ℕ) (canvas : Canvas)
      → IsShaped w h canvas
      → y + left ≤ h
      → Paints w h (bars y left x) canvas (bar_lines left y x canvas)
  unfolding bar_lines
  bar_lines-Paints zero y x canvas s hy =
      repainted w h unchanged (bars y 0 x) canvas (some canvas) (some-Paints w h canvas s)
        (λ j i hj hi. ground arith)
  bar_lines-Paints (suc left) y x canvas s hy =
      repainted w h (over (dot y x b'|') (bars (y + 1) left x)) (bars y (suc left) x) canvas
        (bar_lines (suc left) y x canvas)
        (then-Paints w h (dot y x b'|') (bars (y + 1) left x) canvas (write_inside y x b'|' canvas)
          (bar_lines left (y + 1) x) (write_inside-Paints w h y x b'|' canvas s (omega arith))
          (λ t k. bar_lines-Paints left (y + 1) x t k (omega arith)))
        (λ j i hj hi. ground arith)
