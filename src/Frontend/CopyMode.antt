-- ===== src/Frontend/CopyMode.antt =====
-- `handle_copy_input`: the keys of copy mode, with the arrows and pages as escape sequences.
use sw_tos.Base.{inl, ℕ, Option, none, some, ◌&&◌, ◌==◌, if◌then◌else◌, ℤ, pos, negsuc, arith}
use sw_tos.Ui.Desktop.Command.{CommandOutcome, command}
use sw_tos.Ui.Desktop.Focus.{IsFocused, Keeps, CommandKeeps, on_focused-Keeps, command-Keeps}
use sw_tos.Ui.Desktop.{Desktop, copy_move, copy_home, copy_end}

-- A movement that leaves the escape state as it is given.
abbrev moved : ℕ → Option Desktop → Option (Desktop × ℕ)
moved state none = none
moved state (some d) = some (d, state)

-- The outcome of the command is not used.
abbrev after_command : Option (Desktop × CommandOutcome) → Option (Desktop × ℕ)
after_command none = none
after_command (some (d, outcome)) = some (d, 0)

-- The keys outside an escape sequence.
pub plain_key : ℕ → Desktop → Option (Desktop × ℕ)
plain_key byte d =
    if byte == b'k'
    then moved 0 (copy_move (pos 1) (pos 0) d)
    else if byte == b'j'
    then moved 0 (copy_move (negsuc 0) (pos 0) d)
    else if byte == b'h'
    then moved 0 (copy_move (pos 0) (negsuc 0) d)
    else if byte == b'l'
    then moved 0 (copy_move (pos 0) (pos 1) d)
    else if byte == b'u'
    then moved 0 (copy_move (pos 10) (pos 0) d)
    else if byte == b'd'
    then moved 0 (copy_move (negsuc 9) (pos 0) d)
    else if byte == b'g'
    then moved 0 (copy_home d)
    else if byte == b'G'
    then moved 0 (copy_end d)
    else if byte == b'q'
    then after_command (command b'y' d)
    else some (d, 0)

-- The last byte of an arrow's sequence, or the middle byte of a page's.
pub arrow_key : ℕ → Desktop → Option (Desktop × ℕ)
arrow_key byte d =
    if byte == b'A'
    then moved 0 (copy_move (pos 1) (pos 0) d)
    else if byte == b'B'
    then moved 0 (copy_move (negsuc 0) (pos 0) d)
    else if byte == b'C'
    then moved 0 (copy_move (pos 0) (pos 1) d)
    else if byte == b'D'
    then moved 0 (copy_move (pos 0) (negsuc 0) d)
    else if byte == b'5'
    then some (d, 5)
    else if byte == b'6'
    then some (d, 6)
    else some (d, 0)

-- The state after it with the escape state; `none` is a panic.
unfoldable pub handle_copy_input : Desktop → ℕ → ℕ → Option (Desktop × ℕ)
handle_copy_input d byte state =
    if state == 0 && byte == 0x1b
    then some (d, 1)
    else if state == 1 && byte == b'['
    then some (d, 2)
    else if state == 2
    then arrow_key byte d
    else if state == 5 && byte == b'~'
    then moved 0 (copy_move (pos 10) (pos 0) d)
    else if state == 6 && byte == b'~'
    then moved 0 (copy_move (negsuc 9) (pos 0) d)
    else if state == 0
    then plain_key byte d
    else some (d, 0)

-- The key does not panic, and the focus names a pane after it.
abbrev pub CopyKeeps : Option (Desktop × ℕ) → Type 0
CopyKeeps none = ⊥
CopyKeeps (some (d, state)) = IsFocused d

moved-Keeps : (state : ℕ) (d : Option Desktop) → Keeps d → CopyKeeps (moved state d)
moved-Keeps state none h = h
moved-Keeps state (some d) h = h

after_command-Keeps :
    (d : Option (Desktop × CommandOutcome)) → CommandKeeps d → CopyKeeps (after_command d)
after_command-Keeps none h = h
after_command-Keeps (some (d, outcome)) h = h

copy_move-Keeps :
    (vertical horizontal : ℤ) (d : Desktop)
    → IsFocused d
    → CopyKeeps (moved 0 (copy_move vertical horizontal d))
copy_move-Keeps vertical horizontal d h =
    moved-Keeps 0 (copy_move vertical horizontal d) (on_focused-Keeps _ d h)

plain_key-Keeps : (byte : ℕ) (d : Desktop) → IsFocused d → CopyKeeps (plain_key byte d)
unfolding plain_key
plain_key-Keeps byte d h = ground (
  arith,
  copy_move-Keeps (pos 1) (pos 0) d h,
  copy_move-Keeps (negsuc 0) (pos 0) d h,
  copy_move-Keeps (pos 0) (negsuc 0) d h,
  copy_move-Keeps (pos 0) (pos 1) d h,
  copy_move-Keeps (pos 10) (pos 0) d h,
  copy_move-Keeps (negsuc 9) (pos 0) d h,
  moved-Keeps 0 (copy_home d) (on_focused-Keeps _ d h),
  moved-Keeps 0 (copy_end d) (on_focused-Keeps _ d h),
  after_command-Keeps (command b'y' d) (command-Keeps b'y' d h (inl (omega arith))),
)

arrow_key-Keeps : (byte : ℕ) (d : Desktop) → IsFocused d → CopyKeeps (arrow_key byte d)
unfolding arrow_key
arrow_key-Keeps byte d h = ground (
  arith,
  copy_move-Keeps (pos 1) (pos 0) d h,
  copy_move-Keeps (negsuc 0) (pos 0) d h,
  copy_move-Keeps (pos 0) (negsuc 0) d h,
  copy_move-Keeps (pos 0) (pos 1) d h,
)

-- If the focus names a pane, then whatever byte is typed in copy mode, and in whatever state of an
-- escape sequence, the handler does not panic, and the focus names a pane after it.
pub handle_copy_input-Keeps :
    (d : Desktop) (byte state : ℕ) → IsFocused d → CopyKeeps (handle_copy_input d byte state)
unfolding handle_copy_input
handle_copy_input-Keeps d byte state h = ground (
  arith,
  plain_key-Keeps byte d h,
  arrow_key-Keeps byte d h,
  copy_move-Keeps (pos 10) (pos 0) d h,
  copy_move-Keeps (negsuc 9) (pos 0) d h,
)
