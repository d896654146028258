-- ===== src/Ui/Pane/Bounds.antt =====
-- What a pane keeps is bounded, whatever bytes a program sends it.
use sw_tos.Base.{
  ℕ, ◌+◌, ◌-◌, ◌≤◌, ◌<◌, List, [], ◌∷◌, ◌++◌, ◌≡◌, sym, ap, ◌∙◌, arith, if◌then◌else◌, Bytes, Text,
  length, length-append, take, drop, take_all, take-append-drop, length-drop, All, All-append,
  Bool-cases, inl, inr, append_assoc,
}
use sw_tos.Ui.Pane.{
  Pane, max_line_bytes, byte_length, without_last, trim, finish_line, put_byte, break_line, push,
  visible_lines, is_empty,
}

-- The longest line is one character over the mark: the last character may take three bytes.
abbrev pub longest_line : ℕ
longest_line = max_line_bytes + 2

abbrev pub IsShort : Text → Type 0
IsShort line = byte_length line ≤ longest_line

pub record IsBounded (p : Pane) : Type 0 where
  pub few_lines : length p.lines ≤ p.scrollback_limit
  pub short_lines : All IsShort p.lines
  pub short_current : byte_length p.current < max_line_bytes

byte_length-append : (a b : Text) → byte_length (a ++ b) ≡ byte_length a + byte_length b
unfolding byte_length
byte_length-append [] b = omega arith
byte_length-append (c ∷ cs) b = omega (arith, byte_length-append cs b)

byte_length-without_last : (t : Text) → byte_length (without_last t) ≤ byte_length t
unfolding byte_length without_last
byte_length-without_last [] = omega arith
byte_length-without_last (c ∷ []) = omega arith
byte_length-without_last (c ∷ d ∷ cs) = omega (arith, byte_length-without_last (d ∷ cs))

length-trim : (limit : ℕ) (lines : List Text) → length (trim limit lines) ≤ limit
unfolding trim
length-trim limit [] = omega arith
length-trim limit (line ∷ lines) = ground (arith, length-trim limit lines)

trim-All : (limit : ℕ) (lines : List Text) → All IsShort lines → All IsShort (trim limit lines)
unfolding trim
trim-All limit [] h = tt
trim-All limit (line ∷ lines) h = ground (arith, trim-All limit lines h.1)

-- Before the check of the length, a line may be over the mark.
record IsLoose (p : Pane) : Type 0 where
  few_lines : length p.lines ≤ p.scrollback_limit
  short_lines : All IsShort p.lines
  loose_current : IsShort p.current

finish_line-IsBounded : (p : Pane) → IsLoose p → IsBounded (finish_line p)
unfolding finish_line
finish_line-IsBounded p h = record {
  few_lines = length-trim p.scrollback_limit (p.lines ++ p.current ∷ []);
  short_lines =
      trim-All p.scrollback_limit (p.lines ++ p.current ∷ [])
        (All-append IsShort p.lines (p.current ∷ []) h.short_lines (h.loose_current, tt));
  short_current = unfold byte_length in omega arith;
}

byte_length_one : (c : ℕ) → c < 0x10000 → byte_length (c ∷ []) ≤ 3
unfolding byte_length
byte_length_one c h = ground arith

put_byte-IsLoose : (p : Pane) (byte : ℕ) → IsBounded p → IsLoose (put_byte p byte)
unfolding put_byte
put_byte-IsLoose p byte h = ground (
  arith,
  finish_line-IsBounded p,
  byte_length-append p.current (byte ∷ []),
  byte_length-append p.current (0xfffd ∷ []),
  byte_length_one byte,
  byte_length_one 0xfffd,
  byte_length-without_last p.current,
)

break_line-IsBounded : (p : Pane) → IsLoose p → IsBounded (break_line p)
unfolding break_line
break_line-IsBounded p h = ground (arith, finish_line-IsBounded p h)

-- Whatever bytes arrive, a pane within its bounds stays so: no more lines than its limit, no line
-- of more than 4098 bytes, and an unfinished line of less than 4096.
pub push-IsBounded : (p : Pane) (bytes : Bytes) → IsBounded p → IsBounded (push p bytes)
unfolding push
push-IsBounded p [] h = h
push-IsBounded p (byte ∷ bytes) h =
    push-IsBounded (break_line (put_byte p byte)) bytes
      (break_line-IsBounded (put_byte p byte) (put_byte-IsLoose p byte h))

-- All that a pane holds: its lines, and the unfinished one if there is something in it.
abbrev pub whole_text : Pane → List Text
whole_text p = if is_empty p.current then p.lines else p.lines ++ p.current ∷ []

-- The last lines of a list.
abbrev last_lines : ℕ → List Text → List Text
last_lines k lines = drop (length lines - k) lines

window_last :
    (k offset : ℕ) (lines : List Text)
    → offset ≡ 0
    → take
        (length lines - offset - (length lines - offset - k))
        (drop (length lines - offset - k) lines)
      ≡ last_lines k lines
window_last k offset lines e =
    let start : length lines - offset - k ≡ length lines - k = omega arith in
    let size : length lines - offset - (length lines - k) ≡ length lines - (length lines - k) =
      omega arith in
    rw (start, size)
      (take_all (length lines - (length lines - k)) (last_lines k lines)
        (omega (arith, length-drop (length lines - k) lines)))

visible_lines_unscrolled :
    (p : Pane) (height : ℕ)
    → p.scroll_offset ≡ 0
    → 0 < height
    → visible_lines p height ≡ (
        if is_empty p.current
        then last_lines height p.lines
        else last_lines (height - 1) p.lines ++ p.current ∷ [])
unfolding visible_lines
visible_lines_unscrolled p height e h = elim (Bool-cases (is_empty p.current)) [
  | inl closed ↦ ground (arith, window_last (height - 0) p.scroll_offset p.lines e, all_of_height)
  | inr opened ↦ ground (
    arith,
    window_last (height - 1) p.scroll_offset p.lines e,
    length-drop (length p.lines - (height - 1)) p.lines,
  )
]
  where
    all_of_height : height - 0 ≡ height
    all_of_height = omega arith

-- A pane that is not scrolled shows the end of its text in a window that is not empty, at most as
-- many lines as the window is high.
pub visible_lines_tail :
    (p : Pane) (height : ℕ)
    → p.scroll_offset ≡ 0
    → 0 < height
    → ((hidden : List Text) × (whole_text p ≡ hidden ++ visible_lines p height))
      × (length (visible_lines p height) ≤ height)
visible_lines_tail p height e h = elim (Bool-cases (is_empty p.current)) [
  | inl closed ↦
      rw (visible_lines_unscrolled p height e h, closed)
        (
          (
            take (length p.lines - height) p.lines,
            sym (take-append-drop (length p.lines - height) p.lines),
          ),
          omega (arith, length-drop (length p.lines - height) p.lines),
        )
  | inr opened ↦
      rw (visible_lines_unscrolled p height e h, opened)
        (
          (
            take (length p.lines - (height - 1)) p.lines,
            ap (λ (lines : List Text). lines ++ p.current ∷ [])
                  (sym (take-append-drop (length p.lines - (height - 1)) p.lines))
                ∙ append_assoc (take (length p.lines - (height - 1)) p.lines)
                    (last_lines (height - 1) p.lines) (p.current ∷ []),
          ),
          omega (
            arith,
            length-append (last_lines (height - 1) p.lines) (p.current ∷ []),
            length-drop (length p.lines - (height - 1)) p.lines,
          ),
        )
]
