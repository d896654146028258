-- ===== src/Tests/Sessions.antt =====
-- Runs of the frontend's loop, tools/te-rs/src/main.rs.
use sw_tos.Adapter
use sw_tos.Adapter.Decoder
use sw_tos.Base.{◌++◌, ℕ, [], ◌∷◌, ◌≡◌, none, some, true, false, refl, arith, Bytes, codes, err}
use sw_tos.Debugger.Console.{new_console}
use sw_tos.Frontend.Keys.Bounds.{PressFits, handle_key-PressFits}
use sw_tos.Frontend.Keys.Typing.{is_shell_restart_request, trim_endpoint}
use sw_tos.Frontend.Keys.{handle_key}
use sw_tos.Format.{split_whitespace}
use sw_tos.Frontend.Options.Sound.{AllSound, parse_args-AllSound}
use sw_tos.Frontend.Options.{parse_args, parse_loop, kind, set_value}
use sw_tos.Frontend.Session.Panes.{receive-IsSteady}
use sw_tos.Frontend.Session.{Session, receive}
use sw_tos.Frontend.Timers.Delivered.{inject-sent}
use sw_tos.Frontend.Timers.{Clocks, inject}
use sw_tos.Protocol.Connection
use sw_tos.Protocol.Negotiator.{Mode}
use sw_tos.Resource
use sw_tos.Tests.Consoles.{small_isa}
use sw_tos.Ui.Desktop.Steady.{IsSteady}
use sw_tos.Ui.Desktop.{new_desktop, any_pane}

-- A session in a mode, with characters to type for the shell.
abbrev session : Mode → Bytes → Session
session mode injected = record {
  connection = record Connection.fresh { mode = mode };
  resources = Resource.initial;
  desktop = new_desktop 100;
  debug_console = new_console none;
  time_modes = record { uptime_active = false; clock_active = true };
  channel_time_modes = [];
  transport_decode_error = false;
  debugger_prompt_due = some 5;
  prefix_pending = false;
  copy_escape_state = 0;
  shell_input = [];
  debug_input = [];
  injected = injected;
  serial_output = [];
  debug_identity_sent = false;
  next_resource_request = 0;
  next_scheduler_heartbeat = 0;
  next_hello_retry = 0;
  next_time_frames = 0;
}

abbrev clocks_at : ℕ → Clocks
clocks_at now = record { now = now; elapsed = now; wall = 7 }

new_desktop-IsSteady : IsSteady (new_desktop 100)
unfolding any_pane
new_desktop-IsSteady = record { is_focused = omega arith; has_system = refl }

receive-IsSteady_example :
    IsSteady (receive small_isa 3 (codes "SHELL RESTARTED") (session Mode.plain [])).desktop
receive-IsSteady_example =
    receive-IsSteady small_isa 3 (codes "SHELL RESTARTED") (session Mode.plain [])
      new_desktop-IsSteady

handle_key-PressFits_example : PressFits (
    handle_key
      (λ name. none)
      none
      15
      3
      b'r'
      (record (session Mode.plain []) { prefix_pending = true }))
handle_key-PressFits_example =
    handle_key-PressFits (λ name. none) none 15 3 b'r'
      (record (session Mode.plain []) { prefix_pending = true }) (omega arith)

restart_is_a_command : is_shell_restart_request (codes " kill  ep=1 ") ≡ true
unfolding is_shell_restart_request trim_endpoint split_whitespace
restart_is_a_command = refl

parse_args-AllSound_example :
    AllSound (parse_args (codes "te" ∷ codes "--windows" ∷ codes "-d" ∷ codes "5" ∷ []))
parse_args-AllSound_example =
    parse_args-AllSound (codes "te" ∷ codes "--windows" ∷ codes "-d" ∷ codes "5" ∷ [])

delay_out_of_range :
    parse_args (codes "te" ∷ codes "-d" ∷ codes "11" ∷ [])
    ≡ err (codes "invalid delay '11': expected an integer from 1 to 10")
unfolding parse_args parse_loop kind set_value
delay_out_of_range = refl

inject-sent_example :
    (frame : Bytes) × (t : Session) × (inject (session Mode.framed (codes "ps")) ≡ some t)
    × (t.injected ≡ codes "s")
    × (t.serial_output ≡ [] ++ frame)
    × (Adapter.Decoder.push Adapter.Decoder.fresh frame ≡ (
      Adapter.Decoder.fresh,
      record { kind = Adapter.tty_input; channel = 0; payload = codes "p" } ∷ [],
    ))
inject-sent_example =
    inject-sent (session Mode.framed (codes "ps")) b'p' (codes "s") refl refl (omega arith)
