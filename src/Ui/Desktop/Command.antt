-- ===== src/Ui/Desktop/Command.antt =====
-- `Desktop::command`: the second key of a host command.
use sw_tos.Base.{
  ℕ, ◌+◌, ◌-◌, ◌%◌, Option, none, some, Bool, true, false, not, ◌&&◌, ◌||◌, ltb, leb, ◌==◌,
  if◌then◌else◌, length,
}
use sw_tos.Ui.Desktop.{Desktop, on_focused}
use sw_tos.Ui.Desktop.Closing.{clear, restore_system_panes, close_ended, close_focused}

pub data CommandOutcome : Type 0 where
  go_on detach save : CommandOutcome

-- An arm that falls through to the end of the function clears the focused pane's alert.
abbrev pub settled : Option Desktop → Option (Desktop × CommandOutcome)
settled none = none
settled (some d) = elim (on_focused (λ pane. record pane { alert = false }) d) [
  | none ↦ none
  | some d' ↦ some (d', go_on)
]

-- A remainder by the number of panes, which panics where there are none.
abbrev focus_by : ℕ → Desktop → Option Desktop
focus_by to d =
    if length d.panes == 0 then none else some (record d { focus = to % length d.panes })

-- What the first line of the function leaves.
abbrev pub disarmed : ℕ → Desktop → Desktop
disarmed byte d = if byte == b'b' then d else record d { broadcast_armed = false }

abbrev is_digit : ℕ → Desktop → Bool
is_digit byte d = leb b'1' byte && leb byte b'9' && ltb (byte - b'1') (length d.panes)

-- The arms that only write to the desktop's own fields.
unfoldable pub flag_key : ℕ → Desktop → Desktop
flag_key byte d =
    if byte == b'y'
    then record d { copy_mode = not d.copy_mode }
    else if byte == b'b' && d.broadcast_armed
    then record d { broadcast = not d.broadcast; broadcast_armed = false }
    else if byte == b'b'
    then record d { broadcast_armed = true }
    else if (byte == 0x1b || byte == b'q') && d.help
    then record d { help = false }
    else if byte == 0x1b
    then record d { broadcast_armed = false; broadcast = false; copy_mode = false }
    else if byte == b'?' || byte == b'h'
    then record d { help = not d.help }
    else d

-- `close_ended`, whose result is not read: the subtraction in it panics below zero.
abbrev pub closed : Desktop × Option ℕ → Option Desktop
closed (d, none) = none
closed (d, some n) = some d

-- The arms that move the focus or change the panes.
unfoldable pub pane_key : ℕ → Desktop → Option Desktop
unfolding flag_key
pane_key byte d =
    if is_digit byte d
    then some (record d { focus = byte - b'1' })
    else if byte == b'n' || byte == b'\t'
    then focus_by (d.focus + 1) d
    else if byte == b'p'
    then focus_by (d.focus + length d.panes - 1) d
    else if byte == b'z'
    then some (record d { help = false; zoomed = not d.zoomed })
    else if byte == b'x'
    then close_focused d
    else if byte == b'l'
    then some (clear d.focus d)
    else if byte == b'S'
    then some (restore_system_panes d).0
    else if byte == b'c'
    then closed (close_ended d)
    else some (flag_key byte d)

unfoldable pub command : ℕ → Desktop → Option (Desktop × CommandOutcome)
command byte d =
    if byte == b'w'
    then some (disarmed byte d, save)
    else if byte == b'd' || byte == 0x04
    then some (disarmed byte d, detach)
    else settled (pane_key byte (disarmed byte d))
