-- ===== src/Frontend/Session/Panes.antt =====
-- What the target sends does not take away the pane that has the focus.
use sw_tos.Base.{
  ℕ, List, [], ◌∷◌, Option, none, some, Bool, true, false, Bytes, Text, inl, inr, Bool-cases, not,
  ◌&&◌, ltb, ◌==◌, ◌++◌, codes, ◌-◌, if◌then◌else◌,
}
use sw_tos.Disasm.{Isa}
use sw_tos.Format.{as_bytes}
use sw_tos.Frontend.Session.{
  Session, debugger_prompt, push_lines, show_debugger_help, tty_output, channel_open, channel_close,
  channel_title, name_processes, with_processes, resource_snapshot, debug_response, handle_frame,
  recovered, handle_item, handle_items, receive, is_rewound, live_endpoints,
}
use sw_tos.Protocol.Connection.{StreamItem, plain, frame, error}
use sw_tos.Protocol.Connection
use sw_tos.Protocol.{FrameType, Frame}
use sw_tos.Resource.{ProcessSnapshot, ResourceSnapshot}
use sw_tos.Resource
use sw_tos.Debugger.Commands.{help_lines}
use sw_tos.Debugger.Responses.{response}
use sw_tos.Ui.Desktop.Channels.{has_channel}
use sw_tos.Ui.Desktop.Closing.{clear_channel}
use sw_tos.Ui.Desktop.Steady.{
  IsSteady, push_channel-IsSteady, set_channel_title-IsSteady, clear_channel-IsSteady,
  mark_live_endpoints-IsSteady, name_channel-IsSteady, add_application-IsSteady,
  release_channel-IsSteady,
}
use sw_tos.Ui.Desktop.Search.{set_error}
use sw_tos.Ui.Desktop.{Desktop}

-- The message at the top of the screen is of no account.
set_error-IsSteady :
    (message : Option Text) (d : Desktop) → IsSteady d → IsSteady (set_error message d)
set_error-IsSteady message d h = record { is_focused = h.is_focused; has_system = h.has_system }

debugger_prompt-IsSteady : (d : Desktop) → IsSteady d → IsSteady (debugger_prompt d)
unfolding debugger_prompt
debugger_prompt-IsSteady d h = push_channel-IsSteady 254 (codes "(dbg) ") d h

push_lines-IsSteady : (lines : List Text) (d : Desktop) → IsSteady d → IsSteady (push_lines lines d)
unfolding push_lines
push_lines-IsSteady [] d h = h
push_lines-IsSteady (line ∷ lines) d h =
    push_lines-IsSteady lines _ (push_channel-IsSteady 254 (as_bytes (line ++ codes "\n")) d h)

show_debugger_help-IsSteady : (d : Desktop) → IsSteady d → IsSteady (show_debugger_help d)
unfolding show_debugger_help
show_debugger_help-IsSteady d h = debugger_prompt-IsSteady _ (push_lines-IsSteady help_lines d h)

-- Either of two desktops.
either-IsSteady :
    (b : Bool) (d e : Desktop) → IsSteady d → IsSteady e → IsSteady (if b then d else e)
either-IsSteady true d e hd he = hd
either-IsSteady false d e hd he = he

tty_output-IsSteady :
    (f : Frame) (s : Session) → IsSteady s.desktop → IsSteady (tty_output f s).desktop
unfolding tty_output
tty_output-IsSteady f s h =
    let here =
      either-IsSteady (has_channel f.channel s.desktop) s.desktop _ h
        (add_application-IsSteady f.channel _ s.desktop h) in
    let pushed = push_channel-IsSteady f.channel f.payload _ here in
    either-IsSteady (f.channel == 0 && is_rewound f.payload) _ _
      (show_debugger_help-IsSteady _ pushed) pushed

channel_open-IsSteady :
    (f : Frame) (s : Session) → IsSteady s.desktop → IsSteady (channel_open f s).desktop
unfolding channel_open
channel_open-IsSteady f s h =
    add_application-IsSteady f.channel _ (clear_channel f.channel s.desktop)
      (clear_channel-IsSteady f.channel s.desktop h)

channel_close-IsSteady :
    (f : Frame) (s : Session) → IsSteady s.desktop → IsSteady (channel_close f s).desktop
unfolding channel_close
channel_close-IsSteady f s h = release_channel-IsSteady f.channel s.desktop h

channel_title-IsSteady :
    (f : Frame) (s : Session) → IsSteady s.desktop → IsSteady (channel_title f s).desktop
unfolding channel_title
channel_title-IsSteady f s h = set_channel_title-IsSteady f.channel _ s.desktop h

name_processes-IsSteady :
    (processes : List (ℕ × ProcessSnapshot)) (d : Desktop)
    → IsSteady d
    → IsSteady (name_processes processes d)
unfolding name_processes
name_processes-IsSteady [] d h = h
name_processes-IsSteady ((key, process) ∷ rest) d h = name_processes-IsSteady rest _ (
    either-IsSteady (ltb 0 process.endpoint && not (process.state == 0)) _ d
      (name_channel-IsSteady (process.endpoint - 1) process.name d h) h)

with_processes-IsSteady :
    (snapshot : Option ResourceSnapshot) (d : Desktop)
    → IsSteady d
    → IsSteady (with_processes snapshot d)
with_processes-IsSteady none d h = h
with_processes-IsSteady (some snapshot) d h =
    mark_live_endpoints-IsSteady (live_endpoints snapshot.processes) _
      (name_processes-IsSteady snapshot.processes d h)

resource_snapshot-IsSteady :
    (now : ℕ) (f : Frame) (s : Session)
    → IsSteady s.desktop
    → IsSteady (resource_snapshot now f s).desktop
unfolding resource_snapshot
resource_snapshot-IsSteady now f s h =
    elim (Bool-cases (Resource.push s.resources f.payload now).1) [
      | inl e ↦
          rw (e, resource_snapshot)
            (with_processes-IsSteady (Resource.push s.resources f.payload now).0.current s.desktop
              h)
      | inr e ↦ rw (e, resource_snapshot) h
    ]

debug_response-IsSteady :
    {O : Type 0} (isa : Isa O) (now : ℕ) (f : Frame) (s : Session)
    → IsSteady s.desktop
    → IsSteady (debug_response isa now f s).desktop
unfolding debug_response
debug_response-IsSteady isa now f s h =
    push_lines-IsSteady (response isa s.debug_console f.payload).1 s.desktop h

handle_frame-IsSteady :
    {O : Type 0} (isa : Isa O) (now : ℕ) (kind : FrameType) (f : Frame) (s : Session)
    → IsSteady s.desktop
    → IsSteady (handle_frame isa now kind f s).desktop
unfolding handle_frame
handle_frame-IsSteady isa now FrameType.tty_output f s h = tty_output-IsSteady f s h
handle_frame-IsSteady isa now FrameType.channel_open f s h = channel_open-IsSteady f s h
handle_frame-IsSteady isa now FrameType.channel_close f s h = channel_close-IsSteady f s h
handle_frame-IsSteady isa now FrameType.channel_title f s h = channel_title-IsSteady f s h
handle_frame-IsSteady isa now FrameType.protocol_error f s h = set_error-IsSteady _ s.desktop h
handle_frame-IsSteady isa now FrameType.resource_snapshot f s h =
    resource_snapshot-IsSteady now f s h
handle_frame-IsSteady isa now FrameType.debug_response f s h = debug_response-IsSteady isa now f s h
handle_frame-IsSteady isa now FrameType.tty_input f s h = h
handle_frame-IsSteady isa now FrameType.uptime f s h = h
handle_frame-IsSteady isa now FrameType.wall_clock f s h = h
handle_frame-IsSteady isa now FrameType.debug_request f s h = h
handle_frame-IsSteady isa now FrameType.hello f s h = h
handle_frame-IsSteady isa now FrameType.hello_ack f s h = h

recovered-IsSteady : (s : Session) → IsSteady s.desktop → IsSteady (recovered s).desktop
unfolding recovered
recovered-IsSteady s h = elim (Bool-cases s.transport_decode_error) [
  | inl e ↦ rw (e, recovered) (set_error-IsSteady none s.desktop h)
  | inr e ↦ rw (e, recovered) h
]

handle_item-IsSteady :
    {O : Type 0} (isa : Isa O) (now : ℕ) (item : StreamItem) (s : Session)
    → IsSteady s.desktop
    → IsSteady (handle_item isa now item s).desktop
unfolding handle_item
handle_item-IsSteady isa now (plain bytes) s h = push_channel-IsSteady 0 bytes s.desktop h
handle_item-IsSteady isa now (frame f) s h =
    handle_frame-IsSteady isa now f.kind f (recovered s) (recovered-IsSteady s h)
handle_item-IsSteady isa now (error e) s h = set_error-IsSteady _ s.desktop h

handle_items-IsSteady :
    {O : Type 0} (isa : Isa O) (now : ℕ) (items : List StreamItem) (s : Session)
    → IsSteady s.desktop
    → IsSteady (handle_items isa now items s).desktop
unfolding handle_items
handle_items-IsSteady isa now [] s h = h
handle_items-IsSteady isa now (item ∷ items) s h =
    handle_items-IsSteady isa now items _ (handle_item-IsSteady isa now item s h)

-- If the focus names a pane and some pane is no application's, then so it is after any bytes that
-- the target sends: no output, title, close, snapshot or response leaves the focus on nothing.
pub receive-IsSteady :
    {O : Type 0} (isa : Isa O) (now : ℕ) (bytes : Bytes) (s : Session)
    → IsSteady s.desktop
    → IsSteady (receive isa now bytes s).desktop
unfolding receive
receive-IsSteady isa now bytes s h =
    let (connection, items) = Connection.push s.connection bytes in
    handle_items-IsSteady isa now items (record s { connection = connection }) h
