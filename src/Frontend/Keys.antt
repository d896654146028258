-- ===== src/Frontend/Keys.antt =====
-- The keys of `run_windows` in tools/te-rs/src/main.rs: after the prefix, in the debugger's pane,
-- and on their way to the target. `none` is a panic; the flag of a result says that the frontend
-- leaves. The clock is read as `now`.
pub mod Typing
pub mod Bounds
use mathlib.Core.Option
use sw_tos.Base.{
  ℕ, ◌+◌, List, [], ◌∷◌, ◌++◌, Option, none, some, Bool, true, false, ◌&&◌, ◌||◌, leb, ◌==◌,
  if◌then◌else◌, Bytes, Text, codes, bytes_eq, Result, ok, err,
}
use sw_tos.Format.{decimal}
use sw_tos.Frontend.CopyMode.{handle_copy_input}
use sw_tos.Frontend.Keys.Typing.{debug_key, type_key}
use sw_tos.Frontend.Requests.{
  queue_serial, scheduler_heartbeat, expect_encoded, shell_restart_request, system_reboot_request,
  multiplexed_input_frame,
}
use sw_tos.Frontend.Session.{Session}
use sw_tos.Frontend.Sending.{send, send_encoded, note}
use sw_tos.Protocol.Connection.{resynchronize}
use sw_tos.Protocol.Negotiator.{Mode, hello}
use sw_tos.Resource
use sw_tos.Ui.Desktop.Channels.{add_application, free_channel, push_channel}
use sw_tos.Ui.Desktop.Command.{CommandOutcome, command}
use sw_tos.Ui.Desktop.Search.{set_connected, set_error, layout, restore_layout}
use sw_tos.Ui.Desktop.{Desktop, assign_focused, focused_channel, focused_kind}
use sw_tos.Ui.Pane.{PaneKind, shell, application, debugger, kind_eq}

-- `SavedSession`, and the file that holds one: the text of it is the crate serde_json's.
pub record SavedSession : Type 0 where
  pub format : Text
  pub panes : List (PaneKind × ℕ × Text)

pub record SessionFile : Type 0 where
  pub read : Result SavedSession Text
  pub write : SavedSession → Option Text

-- `load_session` and `save_session`, with the error shown.
abbrev pub shown_error : Text → Desktop → Desktop
shown_error message = set_error (some (codes "session: " ++ message))

unfoldable pub load_session : SessionFile → Desktop → Desktop
unfolding restore_layout bytes_eq
load_session file d = elim file.read [
  | err message ↦ shown_error message d
  | ok saved ↦
      if bytes_eq saved.format (codes "swtos-session-v1")
      then restore_layout saved.panes d
      else shown_error (codes "unsupported session format") d
]

unfoldable pub save_session : SessionFile → Desktop → Desktop
save_session file d =
    elim (file.write (record { format = codes "swtos-session-v1"; panes = layout d })) [
      | none ↦ d
      | some message ↦ shown_error message d
    ]

abbrev pub with_file : (SessionFile → Desktop → Desktop) → Option SessionFile → Session → Session
with_file apply none s = s
with_file apply (some file) s = record s { desktop = apply file s.desktop }

abbrev pub Pressed : Type 0
Pressed = Option (Session × Bool)

abbrev pub remaining : Option Session → Pressed
remaining none = none
remaining (some s) = some (s, false)

abbrev pub with_desktop : Session → Option Desktop → Option Session
with_desktop s none = none
with_desktop s (some d) = some (record s { desktop = d })

-- `r` after the prefix.
unfoldable pub reconnected : ℕ → Session → Session
reconnected now s = record s {
  resources = Resource.initial;
  debug_identity_sent = false;
  transport_decode_error = false;
  desktop =
      note (codes "reconnecting target transport\n")
        (set_connected true (set_error none s.desktop));
  next_resource_request = now;
  next_scheduler_heartbeat = now;
  next_hello_retry = now + 250;
}

unfoldable pub reconnect_in : Mode → ℕ → Session → Option Session
unfolding reconnected send send_encoded expect_encoded
reconnect_in Mode.framed now s = some (reconnected now s)
reconnect_in Mode.plain now s =
    let again = record s { connection = resynchronize s.connection } in
    let beat = send (scheduler_heartbeat 0) (send (scheduler_heartbeat 0) again) in
    send_encoded (expect_encoded hello) (reconnected now beat)

abbrev pub reconnect : ℕ → Session → Option Session
reconnect now s = reconnect_in s.connection.mode now s

-- `e` after the prefix.
abbrev takes_escape : PaneKind → Bool
takes_escape kind = kind_eq kind shell || kind_eq kind application

abbrev pub escaped_on : ℕ → Session → Session
escaped_on channel s = record s { desktop = push_channel channel (codes "Esc") s.desktop }

unfoldable pub escape_to : Option ℕ → Option PaneKind → Session → Option Session
unfolding send_encoded push_channel
escape_to none kind s = none
escape_to (some channel) none s = none
escape_to (some channel) (some kind) s =
    if takes_escape kind
    then Option.map (escaped_on channel)
        (send_encoded (multiplexed_input_frame channel (0x1b ∷ [])) s)
    else some s

unfoldable pub escape_key : Session → Option Session
unfolding escape_to
escape_key s = escape_to (focused_channel s.desktop) (focused_kind s.desktop) s

unfoldable pub settle_command :
    Option SessionFile → Session → Option (Desktop × CommandOutcome) → Pressed
unfolding save_session
settle_command file s none = none
settle_command file s (some (d, CommandOutcome.detach)) = some (record s { desktop = d }, true)
settle_command file s (some (d, CommandOutcome.save)) =
    some (with_file save_session file (record s { desktop = d }), false)
settle_command file s (some (d, CommandOutcome.go_on)) = some (record s { desktop = d }, false)

-- `s` and `a` after the prefix, on the first free channel.
unfoldable pub opened : Option ℕ → Session → Session
unfolding add_application
opened none s = s
opened (some channel) s = record s {
  desktop = (add_application channel (codes "TTY " ++ decimal channel) s.desktop).0;
}

unfoldable pub assigned : Option ℕ → Session → Option Session
assigned none s = some s
assigned (some channel) s =
    with_desktop s (assign_focused channel (codes "TTY " ++ decimal channel) s.desktop)

-- `k` and `B` after the prefix: a request, and a note of it.
unfoldable pub requested_reset : Bytes → Text → Session → Session
unfolding send note
requested_reset request text s = record (send request s) { desktop = note text s.desktop }

unfoldable pub prefix_key : Option SessionFile → ℕ → ℕ → Session → Pressed
unfolding load_session free_channel reconnect_in opened assigned requested_reset escape_key
    settle_command command shell_restart_request system_reboot_request
prefix_key file now byte s =
    if byte == b's'
    then remaining (some (opened (free_channel s.desktop.panes 252 2) s))
    else if byte == b'a'
    then remaining (assigned (free_channel s.desktop.panes 253 1) s)
    else if byte == b'R'
    then remaining (some (with_file load_session file s))
    else if byte == b'r'
    then remaining (reconnect now s)
    else if byte == b'k'
    then remaining (
        some (
          requested_reset (shell_restart_request s.connection.mode) (codes "restarting the shell\n")
            s))
    else if byte == b'B'
    then remaining (
        some (
          requested_reset (system_reboot_request s.connection.mode)
            (codes "requesting warm SWTOS reboot\n") s))
    else if byte == b'e'
    then remaining (escape_key s)
    else settle_command file s (command byte s.desktop)

-- A key that is not after the prefix, in the pane that has the focus.
unfoldable pub focused_key : (Text → Option Text) → ℕ → Session → PaneKind → Option Session
unfolding debug_key type_key send
focused_key read_source byte s kind =
    if kind_eq kind debugger then debug_key read_source byte s else elim s.connection.mode [
      | Mode.framed ↦ type_key byte kind s
      | Mode.plain ↦ some (send (byte ∷ []) s)
    ]

abbrev pub closes_help : ℕ → Bool
closes_help byte = byte == b'q' || byte == b'?' || byte == 0x1b

abbrev pub copied : Session → Option (Desktop × ℕ) → Option Session
copied s none = none
copied s (some (d, state)) = some (record s { desktop = d; copy_escape_state = state })

abbrev pub helped : Session → Option (Desktop × CommandOutcome) → Option Session
helped s none = none
helped s (some (d, outcome)) = some (record s { desktop = d })

unfoldable pub in_focus : (Text → Option Text) → ℕ → Session → Option PaneKind → Pressed
unfolding focused_key
in_focus read_source byte s none = none
in_focus read_source byte s (some kind) = remaining (focused_key read_source byte s kind)

-- One key: `prefix` is the prefix of the options.
unfoldable pub handle_key :
    (Text → Option Text) → Option SessionFile → ℕ → ℕ → ℕ → Session → Pressed
unfolding prefix_key in_focus command
handle_key read_source file prefix now byte s =
    if s.prefix_pending
    then prefix_key file now byte (record s { prefix_pending = false })
    else if byte == prefix
    then some (record s { prefix_pending = true }, false)
    else if byte == 0x03
    then some (s, true)
    else if s.desktop.help && closes_help byte
    then remaining (helped s (command byte s.desktop))
    else if s.desktop.copy_mode
    then remaining (copied s (handle_copy_input s.desktop byte s.copy_escape_state))
    else in_focus read_source byte s (focused_kind s.desktop)
