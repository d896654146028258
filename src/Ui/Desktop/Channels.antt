-- ===== src/Ui/Desktop/Channels.antt =====
-- The channels of the desktop: who claims one, what arrives on it, and which programs run.
use mathlib.Core.Option
use sw_tos.Base.{
  ℕ, zero, suc, ◌+◌, min, List, [], ◌∷◌, ◌++◌, map, Option, none, some, Bool, true, false, not,
  ◌&&◌, ◌||◌, leb, ◌==◌, if◌then◌else◌, Bytes, Text, codes, bytes_eq, length, get_elem?, set,
}
use sw_tos.Ui.Pane.{
  PaneKind, shell, application, debugger, resources, all_kinds, kind_title, default_channel,
  kind_eq, Pane, new_pane, default_scrollback,
}
use sw_tos.Ui.Pane
use sw_tos.Ui.Desktop.{
  Desktop, focused_channel, position, any_pane, update_first, retain, on_channel,
}

unfoldable pub set_channel_title : ℕ → Text → Desktop → Desktop
unfolding update_first
set_channel_title channel title d = record d {
  panes = update_first (on_channel channel) (λ pane. record pane { title = title }) d.panes;
}

abbrev pub has_channel : ℕ → Desktop → Bool
has_channel channel d = any_pane (on_channel channel) d.panes

-- `(from..).take(count).find(|channel| !used.contains(channel))`.
unfoldable pub free_channel : List Pane → ℕ → ℕ → Option ℕ
unfolding any_pane
free_channel panes zero from = none
free_channel panes (suc count) from =
    let later = free_channel panes count (from + 1) in
    if any_pane (on_channel from) panes then later else some from

abbrev pub is_unclaimed : Pane → Bool
is_unclaimed pane = kind_eq pane.kind application && bytes_eq pane.title (codes "Application")

-- `claim_application`: the pane that nobody has claimed, or a new one on a free channel.
pub claim_new : Text → Desktop → Desktop × Option ℕ
unfolding free_channel
claim_new title d = elim (free_channel d.panes 253 1) [
  | none ↦ (d, none)
  | some channel ↦ (
    record d { panes = d.panes ++ new_pane application channel title default_scrollback ∷ [] },
    some channel,
  )
]

unfoldable pub claim_application : Text → Desktop → Desktop × Option ℕ
unfolding position update_first claim_new bytes_eq
claim_application title d = elim (position is_unclaimed d.panes) [
  | none ↦ claim_new title d
  | some index ↦ (
    record d { panes = update_first is_unclaimed (λ pane. record pane { title = title }) d.panes },
    Option.map (λ (pane : Pane). pane.channel) (get_elem? d.panes index),
  )
]

abbrev takes_input : Pane → Bool
takes_input pane = kind_eq pane.kind shell || kind_eq pane.kind application

unfoldable pub input_channels : Desktop → Option (List ℕ)
unfolding retain
input_channels d =
    if d.broadcast
    then some (map (λ (pane : Pane). pane.channel) (retain takes_input d.panes))
    else Option.map (λ channel. channel ∷ []) (focused_channel d)

-- What `push_channel` does to the pane at `index`.
abbrev pub receive : Desktop → ℕ → Bytes → Pane → Pane
receive d index bytes pane =
    let pushed = Pane.push pane bytes in
    record pushed {
      ran = kind_eq pushed.kind application || pushed.ran;
      alert = not (index == d.focus) || pushed.alert;
    }

unfoldable pub push_channel : ℕ → Bytes → Desktop → Desktop
unfolding position Pane.push
push_channel channel bytes d = elim (position (on_channel channel) d.panes) [
  | none ↦ d
  | some index ↦ elim (get_elem? d.panes index) [
    | none ↦ d
    | some pane ↦ record d { panes = set d.panes index (receive d index bytes pane) }
  ]
]

unfoldable pub contains : List ℕ → ℕ → Bool
contains [] value = false
contains (x ∷ xs) value = x == value || contains xs value

-- The body of the loop in `mark_live_endpoints`.
unfoldable pub mark_live : List ℕ → Pane → Pane
unfolding contains
mark_live live pane =
    let endpoint = pane.channel + 1 in
    let running = leb endpoint 255 && contains live endpoint in
    let absent = min (pane.absent + 1) 255 in
    if not (kind_eq pane.kind application)
    then pane
    else if running
    then record pane { ran = true; ended = false; absent = 0 }
    else if pane.ran
    then record pane { absent = absent; ended = leb 2 absent }
    else pane

abbrev pub mark_live_endpoints : List ℕ → Desktop → Desktop
mark_live_endpoints live d = record d { panes = map (mark_live live) d.panes }

-- `name_channel`.
unfoldable pub name_pane : ℕ → Text → Pane → Pane
unfolding bytes_eq
name_pane channel title pane =
    if pane.channel == channel && kind_eq pane.kind application && not (bytes_eq pane.title title)
    then record pane { title = title; ended = false; absent = 0 }
    else pane

unfoldable pub name_channel : ℕ → Text → Desktop → Desktop
unfolding name_pane
name_channel channel [] d = d
name_channel channel (c ∷ cs) d = record d { panes = map (name_pane channel (c ∷ cs)) d.panes }

unfoldable pub add_application : ℕ → Text → Desktop → Desktop × ℕ
unfolding position update_first
add_application channel title d = elim (position (on_channel channel) d.panes) [
  | some index ↦ (
    record d {
      panes = update_first (on_channel channel) (λ pane. record pane { title = title }) d.panes;
    },
    index,
  )
  | none ↦ (
    record d { panes = d.panes ++ new_pane application channel title default_scrollback ∷ [] },
    length d.panes,
  )
]
