-- ===== src/Ui/Desktop/Search.antt =====
-- The search through a pane's lines, the layout that is saved, and the desktop's own fields.
use mathlib.Core.Option
use sw_tos.Base.{
  ℕ, suc, ◌+◌, ◌-◌, List, [], ◌∷◌, map, Option, none, some, Bool, true, false, ◌||◌, if◌then◌else◌,
  Text, length, set, starts_with,
}
use sw_tos.Ui.Pane.{PaneKind, Pane, new_pane, default_scrollback}
use sw_tos.Ui.Desktop.{Desktop, focused}

-- `search`: the last line that contains the needle.
unfoldable pub line_contains : Text → Text → Bool
unfolding starts_with
line_contains [] needle = starts_with [] needle
line_contains (c ∷ cs) needle = starts_with (c ∷ cs) needle || line_contains cs needle

unfoldable pub rposition : Text → List Text → Option ℕ
unfolding line_contains
rposition needle [] = none
rposition needle (line ∷ lines) = elim (rposition needle lines) [
  | some index ↦ some (suc index)
  | none ↦ if line_contains line needle then some 0 else none
]

found_in : Text → Pane → Pane × Bool
unfolding rposition
found_in needle pane = elim (rposition needle pane.lines) [
  | none ↦ (record pane { search = some needle }, false)
  | some index ↦
      (record pane { search = some needle; scroll_offset = length pane.lines - (index + 1) }, true)
]

unfoldable pub search : Text → Desktop → Option (Desktop × Bool)
unfolding found_in
search needle d =
    Option.map
      (λ pane. (
        record d { panes = set d.panes d.focus (found_in needle pane).0 },
        (found_in needle pane).1,
      ))
      (focused d)

abbrev pub layout : Desktop → List (PaneKind × ℕ × Text)
layout d = map (λ (pane : Pane). (pane.kind, pane.channel, pane.title)) d.panes

abbrev laid_out : PaneKind × ℕ × Text → Pane
laid_out (kind, channel, title) = new_pane kind channel title default_scrollback

unfoldable pub restore_layout : List (PaneKind × ℕ × Text) → Desktop → Desktop
restore_layout [] d = d
restore_layout (entry ∷ entries) d = record d { panes = map laid_out (entry ∷ entries); focus = 0 }

abbrev pub set_prefix_label : Text → Desktop → Desktop
set_prefix_label label d = record d { prefix_label = label }

abbrev pub set_connected : Bool → Desktop → Desktop
set_connected connected d = record d { connected = connected }

abbrev pub set_clock : Text → Desktop → Desktop
set_clock value d = record d { clock = value }

abbrev pub set_error : Option Text → Desktop → Desktop
set_error value d = record d { error = value }
