-- ===== src/Ui/Desktop.antt =====
-- The desktop of tools/te-rs/src/ui.rs: its panes, the focus, and the operations on them.
-- `none` stands for a panic: an index out of range, or a remainder by zero.
pub mod Channels
pub mod Closing
pub mod Search
pub mod Command
pub mod Focus
pub mod Panes
pub mod Steady
use mathlib.Core.Option
use sw_tos.Base.{
  ℕ, zero, suc, ◌+◌, ◌-◌, ◌%◌, min, List, [], ◌∷◌, ◌++◌, map, Option, none, some, Bool, true, false,
  not, ◌&&◌, ◌||◌, ltb, leb, ◌==◌, if◌then◌else◌, Bytes, Text, codes, bytes_eq, length, get_elem?,
  set, insert_at, remove_at, ℤ, saturating_add_signed, starts_with,
}
use sw_tos.Ui.Pane.{
  PaneKind, shell, application, debugger, resources, all_kinds, kind_title, default_channel,
  kind_eq, Pane, new_pane, default_scrollback,
}

pub record Desktop : Type 0 where
  pub panes : List Pane
  pub focus : ℕ
  pub zoomed : Bool
  pub help : Bool
  pub connected : Bool
  pub prefix_label : Text
  pub clock : Text
  pub error : Option Text
  pub copy_mode : Bool
  pub broadcast : Bool
  pub broadcast_armed : Bool

-- `Desktop::new`.
abbrev pub new_desktop : ℕ → Desktop
new_desktop limit = record {
  panes = map (λ kind. new_pane kind (default_channel kind) (kind_title kind) limit) all_kinds;
  focus = 0;
  zoomed = false;
  help = false;
  connected = true;
  prefix_label = codes "Ctrl-O";
  clock = codes "--:--:--";
  error = none;
  copy_mode = false;
  broadcast = false;
  broadcast_armed = false;
}

-- `self.panes[self.focus]`, read and written.
abbrev pub focused : Desktop → Option Pane
focused d = get_elem? d.panes d.focus

abbrev pub on_focused : (Pane → Pane) → Desktop → Option Desktop
on_focused write d =
    Option.map (λ pane. record d { panes = set d.panes d.focus (write pane) }) (focused d)

abbrev pub focused_kind : Desktop → Option PaneKind
focused_kind d = Option.map (λ (pane : Pane). pane.kind) (focused d)

abbrev pub focused_channel : Desktop → Option ℕ
focused_channel d = Option.map (λ (pane : Pane). pane.channel) (focused d)

abbrev pub assign_focused : ℕ → Text → Desktop → Option Desktop
assign_focused channel title =
    on_focused (λ pane. record pane { channel = channel; title = title; kind = application })

-- `iter().position(test)`, `iter().any(test)`, and a write through `iter_mut().find(test)`.
unfoldable pub position : (Pane → Bool) → List Pane → Option ℕ
position test [] = none
position test (pane ∷ panes) = if test pane then some 0 else Option.map suc (position test panes)

unfoldable pub any_pane : (Pane → Bool) → List Pane → Bool
any_pane test [] = false
any_pane test (pane ∷ panes) = test pane || any_pane test panes

unfoldable pub update_first : (Pane → Bool) → (Pane → Pane) → List Pane → List Pane
update_first test write [] = []
update_first test write (pane ∷ panes) =
    if test pane then write pane ∷ panes else pane ∷ update_first test write panes

-- `retain`.
unfoldable pub retain : (Pane → Bool) → List Pane → List Pane
retain test [] = []
retain test (pane ∷ panes) = if test pane then pane ∷ retain test panes else retain test panes

abbrev pub on_channel : ℕ → Pane → Bool
on_channel channel pane = pane.channel == channel

-- `copy_move`, `copy_home` and `copy_end`.
abbrev pub copy_move : ℤ → ℤ → Desktop → Option Desktop
copy_move vertical horizontal = on_focused (λ pane. record pane {
  scroll_offset = min (saturating_add_signed pane.scroll_offset vertical) (length pane.lines);
  horizontal_offset = saturating_add_signed pane.horizontal_offset horizontal;
})

abbrev pub copy_home : Desktop → Option Desktop
copy_home =
    on_focused (λ pane. record pane { scroll_offset = length pane.lines; horizontal_offset = 0 })

abbrev pub copy_end : Desktop → Option Desktop
copy_end = on_focused (λ pane. record pane { scroll_offset = 0; horizontal_offset = 0 })
