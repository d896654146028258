-- ===== src/Ui/Desktop/Closing.antt =====
-- How panes go and come back: closing, clearing, releasing a channel, the system's own panes.
use mathlib.Core.Option
use sw_tos.Base.{
  ℕ, ◌+◌, ◌-◌, min, [], Option, none, some, Bool, false, not, ◌||◌, ltb, leb, ◌==◌, if◌then◌else◌,
  length, get_elem?, set, insert_at, remove_at,
}
use sw_tos.Ui.Pane.{
  PaneKind, shell, application, debugger, kind_title, default_channel, kind_eq, Pane, new_pane,
  default_scrollback,
}
use sw_tos.Ui.Desktop.{Desktop, focused_channel, position, any_pane, retain, on_channel}

-- One turn of the loop in `restore_system_panes`.
unfoldable pub restore_pane : ℕ → PaneKind → Desktop × ℕ → Desktop × ℕ
unfolding any_pane
restore_pane place kind (d, restored) =
    let at = min place (length d.panes) in
    let pane = new_pane kind (default_channel kind) (kind_title kind) default_scrollback in
    if any_pane (λ pane. kind_eq pane.kind kind) d.panes then (d, restored) else (
      record d {
        panes = insert_at at pane d.panes;
        focus = if leb at d.focus then d.focus + 1 else d.focus;
      },
      restored + 1,
    )

unfoldable pub restore_system_panes : Desktop → Desktop × ℕ
unfolding restore_pane
restore_system_panes d =
    restore_pane 2 debugger (restore_pane 1 application (restore_pane 0 shell (d, 0)))

abbrev pub is_open : Pane → Bool
is_open pane = not pane.ended

-- The desktop of `close_ended` before the focus is placed again.
unfoldable pub close_panes : Desktop → Desktop
unfolding retain
close_panes d =
    let kept = record d { panes = retain is_open d.panes } in
    if length kept.panes == 0 then (restore_system_panes kept).0 else kept

-- `close_ended`, with the number that it returns: `none` if the subtraction goes below zero.
unfoldable pub close_ended : Desktop → Desktop × Option ℕ
unfolding position
close_ended d =
    let closed = close_panes d in
    let focus : ℕ = elim (focused_channel d) [
      | none ↦ 0
      | some channel ↦ Option.get_or (position (on_channel channel) closed.panes) 0
    ] in
    let before = length d.panes in
    let count : Option ℕ =
      if ltb before (length closed.panes) then none else some (before - length closed.panes) in
    (record closed { focus = focus }, count)

-- `clear`: `get_mut` finds no pane out of range.
abbrev pub cleared : Pane → Pane
cleared pane = record pane { lines = []; current = []; scroll_offset = 0; alert = false }

abbrev pub clear : ℕ → Desktop → Desktop
clear index d = elim (get_elem? d.panes index) [
  | none ↦ d
  | some pane ↦ record d { panes = set d.panes index (cleared pane) }
]

unfoldable pub clear_channel : ℕ → Desktop → Desktop
unfolding position
clear_channel channel d = elim (position (on_channel channel) d.panes) [
  | none ↦ d
  | some index ↦ clear index d
]

-- `close_focused`: `remove` panics out of range.
unfoldable pub close_focused : Desktop → Option Desktop
close_focused d =
    if ltb 1 (length d.panes)
    then (if ltb d.focus (length d.panes)
        then some (record d {
          panes = remove_at d.focus d.panes;
          focus = min d.focus (length (remove_at d.focus d.panes) - 1);
        })
        else none)
    else some d

abbrev pub stays : ℕ → Pane → Bool
stays channel pane = not (pane.channel == channel) || not (kind_eq pane.kind application)

unfoldable pub release_channel : ℕ → Desktop → Desktop
unfolding retain
release_channel channel d =
    let kept = retain (stays channel) d.panes in
    record d { panes = kept; focus = min d.focus (length kept - 1) }
