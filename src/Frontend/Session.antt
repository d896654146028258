-- ===== src/Frontend/Session.antt =====
-- The state of `run_windows` in tools/te-rs/src/main.rs, and what it does with an item of the
-- target's stream. An `Instant` is a number of milliseconds. `isa` is the instruction set that the
-- debugger's listings decode by.
pub mod Panes
use sw_tos.Base.{
  ℕ, ◌+◌, ◌-◌, List, [], ◌∷◌, ◌++◌, concat, Option, none, some, Bool, true, false, not, ◌&&◌, ◌||◌,
  ltb, ◌==◌, if◌then◌else◌, Bytes, Text, codes, from_utf8_lossy,
}
use sw_tos.Debugger.Commands.{help_lines}
use sw_tos.Debugger.Console.{DebugConsole}
use sw_tos.Debugger.Responses.{response}
use sw_tos.Disasm.{Isa}
use sw_tos.Format.{as_bytes, contains, decimal}
use sw_tos.Frontend.Requests.{TimeMode, TimeModes, active_time_modes, time_mode_for_title}
use sw_tos.Protocol.Connection.{ConnectionDecoder, StreamItem, plain, frame, error}
use sw_tos.Protocol.Connection
use sw_tos.Protocol.{
  FrameType, Frame, DecodeError, bad_version, unknown_type, payload_too_long, bad_checksum,
}
use sw_tos.Resource.{SnapshotAssembler, ResourceSnapshot, ProcessSnapshot}
use sw_tos.Resource
use sw_tos.Ui.Desktop.Channels.{
  add_application, has_channel, mark_live_endpoints, name_channel, push_channel, set_channel_title,
}
use sw_tos.Ui.Desktop.Closing.{clear_channel, release_channel}
use sw_tos.Ui.Desktop.Search.{set_error}
use sw_tos.Ui.Desktop.{Desktop}

-- The local variables of the loop. `channel_time_modes` is a `BTreeMap`, in the order of its keys.
pub record Session : Type 0 where
  pub connection : ConnectionDecoder
  pub resources : SnapshotAssembler
  pub desktop : Desktop
  pub debug_console : DebugConsole
  pub time_modes : TimeModes
  pub channel_time_modes : List (ℕ × TimeMode)
  pub transport_decode_error : Bool
  pub debugger_prompt_due : Option ℕ
  pub prefix_pending : Bool
  pub copy_escape_state : ℕ
  pub shell_input : Text
  pub debug_input : Text
  pub injected : Bytes
  pub serial_output : Bytes
  pub debug_identity_sent : Bool
  pub next_resource_request : ℕ
  pub next_scheduler_heartbeat : ℕ
  pub next_hello_retry : ℕ
  pub next_time_frames : ℕ

-- `debugger_prompt`, `show_debugger_help` and `REWIND_BANNERS`.
unfoldable pub debugger_prompt : Desktop → Desktop
unfolding push_channel
debugger_prompt d = push_channel 254 (codes "(dbg) ") d

-- Lines for the debugger's pane.
unfoldable pub push_lines : List Text → Desktop → Desktop
unfolding push_channel as_bytes
push_lines [] d = d
push_lines (line ∷ lines) d = push_lines lines (push_channel 254 (as_bytes (line ++ codes "\n")) d)

unfoldable pub show_debugger_help : Desktop → Desktop
unfolding push_lines debugger_prompt
show_debugger_help d = debugger_prompt (push_lines help_lines d)

unfoldable pub is_rewound : Bytes → Bool
unfolding contains from_utf8_lossy
is_rewound payload =
    let text = from_utf8_lossy payload in
    contains text (codes "SHELL RESTARTED") || contains text (codes "SYSTEM REBOOTED")

-- `BTreeMap::insert` and `BTreeMap::remove`.
unfoldable pub insert_mode : ℕ → TimeMode → List (ℕ × TimeMode) → List (ℕ × TimeMode)
insert_mode channel mode [] = (channel, mode) ∷ []
insert_mode channel mode ((at, old) ∷ modes) =
    if channel == at
    then (channel, mode) ∷ modes
    else if ltb channel at
    then (channel, mode) ∷ (at, old) ∷ modes
    else (at, old) ∷ insert_mode channel mode modes

unfoldable pub remove_mode : ℕ → List (ℕ × TimeMode) → List (ℕ × TimeMode)
remove_mode channel [] = []
remove_mode channel ((at, old) ∷ modes) =
    if channel == at then modes else (at, old) ∷ remove_mode channel modes

-- The modes of the channels after a change to them.
abbrev pub with_modes : List (ℕ × TimeMode) → Session → Session
with_modes modes s = record s {
  channel_time_modes = modes;
  time_modes = active_time_modes s.resources modes;
}

unfoldable pub titled_modes : ℕ → Text → Session → Session
unfolding time_mode_for_title insert_mode remove_mode active_time_modes
titled_modes channel title s = elim (time_mode_for_title title) [
  | some mode ↦ with_modes (insert_mode channel mode s.channel_time_modes) s
  | none ↦ with_modes (remove_mode channel s.channel_time_modes) s
]

unfoldable pub tty_title : ℕ → Text
unfolding decimal
tty_title channel = codes "TTY " ++ decimal channel

-- The arms of the `match`, by the kind of the frame.
unfoldable pub tty_output : Frame → Session → Session
unfolding tty_title add_application push_channel is_rewound show_debugger_help
tty_output f s =
    let here : Desktop =
      if has_channel f.channel s.desktop
      then s.desktop
      else (add_application f.channel (tty_title f.channel) s.desktop).0 in
    let pushed = push_channel f.channel f.payload here in
    record s {
      desktop =
          if f.channel == 0 && is_rewound f.payload then show_debugger_help pushed else pushed;
    }

abbrev pub title_or : ℕ → Text → Text
title_or channel [] = tty_title channel
title_or channel (c ∷ cs) = c ∷ cs

unfoldable pub channel_open : Frame → Session → Session
unfolding titled_modes tty_title clear_channel add_application from_utf8_lossy
channel_open f s =
    let title = from_utf8_lossy f.payload in
    let timed = titled_modes f.channel title s in
    record timed {
      desktop =
          (add_application f.channel (title_or f.channel title)
            (clear_channel f.channel s.desktop)).0;
    }

unfoldable pub channel_close : Frame → Session → Session
unfolding remove_mode active_time_modes release_channel
channel_close f s = record (with_modes (remove_mode f.channel s.channel_time_modes) s) {
  desktop = release_channel f.channel s.desktop;
}

unfoldable pub channel_title : Frame → Session → Session
unfolding titled_modes set_channel_title from_utf8_lossy
channel_title f s =
    let title = from_utf8_lossy f.payload in
    record (titled_modes f.channel title s) {
      desktop = set_channel_title f.channel title s.desktop;
    }

-- The processes of a snapshot: their panes get their names, and those that run are live.
unfoldable pub name_processes : List (ℕ × ProcessSnapshot) → Desktop → Desktop
unfolding name_channel
name_processes [] d = d
name_processes ((key, process) ∷ rest) d = name_processes rest (
    if ltb 0 process.endpoint && not (process.state == 0)
    then name_channel (process.endpoint - 1) process.name d
    else d)

unfoldable pub live_endpoints : List (ℕ × ProcessSnapshot) → List ℕ
live_endpoints [] = []
live_endpoints ((key, process) ∷ rest) =
    let later = live_endpoints rest in
    if ltb 0 process.endpoint && not (process.state == 0) then process.endpoint ∷ later else later

abbrev pub with_processes : Option ResourceSnapshot → Desktop → Desktop
with_processes none d = d
with_processes (some snapshot) d =
    mark_live_endpoints (live_endpoints snapshot.processes) (name_processes snapshot.processes d)

unfoldable pub resource_snapshot : ℕ → Frame → Session → Session
unfolding Resource.push active_time_modes live_endpoints name_processes
resource_snapshot now f s =
    let (assembler, complete) = Resource.push s.resources f.payload now in
    if complete
    then record s {
      resources = assembler;
      time_modes = active_time_modes assembler s.channel_time_modes;
      desktop = with_processes assembler.current s.desktop;
    }
    else record s { resources = assembler }

unfoldable pub debug_response : {O : Type 0} → Isa O → ℕ → Frame → Session → Session
unfolding response push_lines
debug_response isa now f s =
    let (console, lines) = response isa s.debug_console f.payload in
    record s {
      debug_console = console;
      desktop = push_lines lines s.desktop;
      debugger_prompt_due = some (now + 150);
    }

-- `format!("{error:?}")`.
unfoldable pub error_text : DecodeError → Text
unfolding decimal
error_text (bad_version n) = concat (codes "BadVersion(" ∷ decimal n ∷ codes ")" ∷ [])
error_text (unknown_type n) = concat (codes "UnknownType(" ∷ decimal n ∷ codes ")" ∷ [])
error_text (payload_too_long n) = concat (codes "PayloadTooLong(" ∷ decimal n ∷ codes ")" ∷ [])
error_text bad_checksum = codes "BadChecksum"

unfoldable pub handle_frame : {O : Type 0} → Isa O → ℕ → FrameType → Frame → Session → Session
unfolding tty_output channel_open channel_close channel_title resource_snapshot debug_response
    from_utf8_lossy
handle_frame isa now FrameType.tty_output f s = tty_output f s
handle_frame isa now FrameType.channel_open f s = channel_open f s
handle_frame isa now FrameType.channel_close f s = channel_close f s
handle_frame isa now FrameType.channel_title f s = channel_title f s
handle_frame isa now FrameType.protocol_error f s = record s {
  desktop = set_error (some (from_utf8_lossy f.payload)) s.desktop;
}
handle_frame isa now FrameType.resource_snapshot f s = resource_snapshot now f s
handle_frame isa now FrameType.debug_response f s = debug_response isa now f s
handle_frame isa now _ f s = s

-- A frame ends the report of a decode error.
unfoldable pub recovered : Session → Session
recovered s =
    if s.transport_decode_error
    then record s { desktop = set_error none s.desktop; transport_decode_error = false }
    else s

unfoldable pub handle_item : {O : Type 0} → Isa O → ℕ → StreamItem → Session → Session
unfolding handle_frame recovered push_channel error_text
handle_item isa now (plain bytes) s = record s { desktop = push_channel 0 bytes s.desktop }
handle_item isa now (frame f) s = handle_frame isa now f.kind f (recovered s)
handle_item isa now (error e) s = record s {
  desktop = set_error (some (error_text e)) s.desktop;
  transport_decode_error = true;
}

unfoldable pub handle_items : {O : Type 0} → Isa O → ℕ → List StreamItem → Session → Session
unfolding handle_item
handle_items isa now [] s = s
handle_items isa now (item ∷ items) s = handle_items isa now items (handle_item isa now item s)

-- What a read of the serial port brings.
unfoldable pub receive : {O : Type 0} → Isa O → ℕ → Bytes → Session → Session
unfolding handle_items Connection.push
receive isa now bytes s =
    let (connection, items) = Connection.push s.connection bytes in
    handle_items isa now items (record s { connection = connection })
