-- ===== src/Frontend/Keys/Typing.antt =====
-- Typing in a pane: the debugger's line, and the keys that go to the target.
pub mod Bounds
use mathlib.Core.Option
use sw_tos.Base.{
  ℕ, ◌-◌, List, [], ◌∷◌, ◌++◌, Option, none, some, Bool, false, ◌&&◌, ◌||◌, leb, ◌==◌,
  if◌then◌else◌, Bytes, Text, codes, bytes_eq, length, take,
}
use sw_tos.Debugger.Commands
use sw_tos.Debugger.Console.{DebugConsole, CommandResult}
use sw_tos.Format.{as_bytes, ends_with, split_whitespace, strip_prefix, trim, trim_end}
use sw_tos.Frontend.Requests.{shell_restart_request, debug_request_frame}
use sw_tos.Frontend.Sending.{send, send_encoded, send_each, note}
use sw_tos.Frontend.Session.{Session, debugger_prompt, push_lines}
use sw_tos.Ui.Desktop.Channels.{claim_application, input_channels, push_channel}
use sw_tos.Ui.Desktop.{Desktop}
use sw_tos.Ui.Pane.{PaneKind, shell, kind_eq, without_last}

-- `trim_start_matches("ep=")` and `strip_suffix`.
unfoldable pub trim_endpoint : Text → Text
trim_endpoint (e ∷ p ∷ q ∷ text) =
    let rest = trim_endpoint text in
    if e == b'e' && (p == b'p' && q == b'=') then rest else e ∷ p ∷ q ∷ text
trim_endpoint short = short

unfoldable pub strip_suffix : Text → Text → Option Text
unfolding ends_with
strip_suffix text suffix =
    if ends_with text suffix then some (take (length text - length suffix) text) else none

unfoldable pub is_shell_restart_request : Text → Bool
unfolding split_whitespace trim_endpoint bytes_eq
is_shell_restart_request command = elim (split_whitespace command) [
  | word ∷ target ∷ [] ↦ bytes_eq word (codes "kill") && bytes_eq (trim_endpoint target) (codes "1")
  | other ↦ false
]

abbrev is_return : ℕ → Bool
is_return byte = byte == b'\r' || byte == b'\n'

abbrev is_erase : ℕ → Bool
is_erase byte = byte == 0x08 || byte == 0x7f

abbrev is_printable : ℕ → Bool
is_printable byte = leb 0x20 byte && leb byte 0x7e

-- A command for the shell, after `!`.
abbrev pub escaped_note : Text → Session → Session
escaped_note text s = record s { desktop = debugger_prompt (note text s.desktop); debug_input = [] }

unfoldable pub shell_line : Text → Session → Session
unfolding send shell_restart_request is_shell_restart_request as_bytes
shell_line [] s = escaped_note (codes "usage: !<shell command>, e.g. !ps -l\n") s
shell_line (c ∷ cs) s =
    if is_shell_restart_request (c ∷ cs)
    then escaped_note (codes "restarting the shell\n")
        (send (shell_restart_request s.connection.mode) s)
    else escaped_note (codes "sent to the shell; its reply is in the shell pane\n")
        (record s { injected = as_bytes (c ∷ cs) ++ b'\n' ∷ [] })

abbrev pub shell_escape : Text → Session → Session
shell_escape typed = shell_line (trim typed)

-- A command for the debugger, with its answer on the screen.
abbrev pub answered : Session → DebugConsole → CommandResult → Session
answered s console result = record s {
  debug_console = console;
  debug_input = [];
  desktop = push_lines result.lines s.desktop;
}

unfoldable pub requested : Option Bytes → Session → Option Session
unfolding send_encoded debugger_prompt
requested none s = some (record s { desktop = debugger_prompt s.desktop })
requested (some request) s =
    Option.map (λ (t : Session). record t { debugger_prompt_due = none })
      (send_encoded (debug_request_frame request) s)

unfoldable pub answer : Session → Option (DebugConsole × CommandResult) → Option Session
unfolding requested
answer s none = none
answer s (some (console, result)) = requested result.request (answered s console result)

unfoldable pub debug_line : (Text → Option Text) → Session → Option Session
unfolding Commands.command answer
debug_line read_source s =
    answer s (Commands.command read_source s.debug_console s.debug_input s.resources.current)

unfoldable pub enter_key : (Text → Option Text) → Session → Option Session
unfolding shell_line debug_line strip_prefix
enter_key read_source s = elim (strip_prefix s.debug_input (codes "!")) [
  | some typed ↦ some (shell_escape typed s)
  | none ↦ debug_line read_source s
]

unfoldable pub debug_key : (Text → Option Text) → ℕ → Session → Option Session
unfolding enter_key without_last push_channel
debug_key read_source byte s =
    if is_return byte
    then enter_key read_source (record s { desktop = push_channel 254 (codes "\n") s.desktop })
    else if is_erase byte
    then some (elim s.debug_input [
      | [] ↦ s
      | c ∷ cs ↦ record s {
        debug_input = without_last (c ∷ cs);
        desktop = push_channel 254 (0x08 ∷ []) s.desktop;
      }
    ])
    else if is_printable byte
    then some (record s {
      debug_input = s.debug_input ++ byte ∷ [];
      desktop = push_channel 254 (byte ∷ []) s.desktop;
    })
    else some s

-- `run <name>` at the shell's prompt names a pane.
unfoldable pub claim_run : Text → Desktop → Desktop
unfolding claim_application strip_suffix strip_prefix trim_end trim
claim_run input d =
    let line = trim_end input in
    let command = Option.get_or (strip_suffix line (codes " --tty=new")) line in
    elim (strip_prefix command (codes "run ")) [
      | none ↦ d
      | some name ↦ elim (trim name) [ [] ↦ d | c ∷ cs ↦ (claim_application (c ∷ cs) d).0 ]
    ]

unfoldable pub shell_key : ℕ → Session → Session
unfolding claim_run without_last
shell_key byte s =
    if is_return byte
    then record s { desktop = claim_run s.shell_input s.desktop; shell_input = [] }
    else if is_erase byte
    then record s { shell_input = without_last s.shell_input }
    else if is_printable byte
    then record s { shell_input = s.shell_input ++ byte ∷ [] }
    else s

unfoldable pub push_each : Bytes → List ℕ → Desktop → Desktop
unfolding push_channel
push_each bytes [] d = d
push_each bytes (channel ∷ channels) d = push_each bytes channels (push_channel channel bytes d)

-- The local echo of a byte that goes out.
unfoldable pub echoed : ℕ → List ℕ → Desktop → Desktop
unfolding push_each
echoed outgoing channels d =
    if outgoing == b'\n' || is_erase outgoing || is_printable outgoing
    then push_each (outgoing ∷ []) channels d
    else if outgoing == 0x1b
    then push_each (codes "Esc") channels d
    else d

unfoldable pub type_to : ℕ → Session → Option (List ℕ) → Option Session
unfolding echoed send_each
type_to outgoing s none = none
type_to outgoing s (some channels) =
    send_each (outgoing ∷ []) channels (record s { desktop = echoed outgoing channels s.desktop })

unfoldable pub type_key : ℕ → PaneKind → Session → Option Session
unfolding shell_key input_channels type_to
type_key byte kind s =
    let typed = if kind_eq kind shell then shell_key byte s else s in
    let outgoing = if byte == b'\r' then b'\n' else byte in
    type_to outgoing typed (input_channels typed.desktop)
